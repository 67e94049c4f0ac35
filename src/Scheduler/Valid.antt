-- ===== src/Scheduler/Valid.antt =====
-- What is on file as a schedule can be scheduled.
use starfire_agent_team.Prelude.{
  ℕ, ◌≡◌, refl, String, Bool, true, false, ◌&&◌, ◌||◌, Option, none, some, List, [], ◌∷◌, ◌⊎◌, inl,
  inr, arith, all, Bool-cases, or_else,
}
use starfire_agent_team.Sql.Laws.{all-append, all-update, all-delete}
use starfire_agent_team.Text.{is_empty}
use starfire_agent_team.World.{World, Response}
use starfire_agent_team.Proxy.{Proxied}
use starfire_agent_team.Scheduler.{
  Schedule, Plan, due_rows, same_id, ran, outcome, compute_next_run, fire_schedule, fire_all, batch,
  tick,
}
use starfire_agent_team.Scheduler.Edits.{
  Call, CreateBody, UpdateBody, created, changed, unset, zone_or_utc, checked_next, insert_checked,
  create_schedule, some_next, next_of_row, recompute, write_changes, update_schedule,
  delete_schedule,
}

-- A request to handlers/schedules.go, or a tick of the scheduler.
pub data Event : Type 0 where
  creation : (Call → Bool) → ℕ → String → String → Option CreateBody → Event
  change : (Call → Bool) → ℕ → String → Option UpdateBody → Event
  deletion : (Call → Bool) → String → Event
  ticking :
      (starfire_agent_team.Scheduler.Call → Bool)
      → (ℕ → String)
      → (Schedule → World → Proxied)
      → (String → ℕ)
      → ℕ
      → Event

abbrev present : {A : Type 0} → Option A → Bool
present none = false
present (some a) = true

module _ {Cron Zone : Type 0} (parse : String → Option Cron) (load_location : String → Option Zone)
    (utc : Zone) (next_after : Cron → Zone → ℕ → ℕ) where
  -- The expression and the time zone are valid.
  pub schedulable : Schedule → Bool
  schedulable r = present (parse r.cron_expr) && present (load_location r.timezone)

  checked_next_valid :
      (fails : Call → Bool) (expr tz : String) (now next : ℕ)
      → checked_next parse load_location utc next_after fails expr tz now ≡ inr next
      → (present (parse expr) && present (load_location tz)) ≡ true
  unfolding checked_next compute_next_run
  checked_next_valid fails expr tz now next h = ground arith

  all-insert_checked :
      (fails : Call → Bool) (now : ℕ) (id i : String) (b : CreateBody) (s : Plan) (o : Response ⊎ ℕ)
      → checked_next parse load_location utc next_after fails b.cron_expr
          (zone_or_utc b.timezone)
          now
        ≡ o
      → all schedulable s.schedules ≡ true
      → all schedulable
          (insert_checked parse load_location utc next_after fails now id i b o s).0.schedules
        ≡ true
  unfolding schedulable created
  all-insert_checked fails now id i b s (inl refusal) e h = h
  all-insert_checked fails now id i b s (inr next) e h = ground (
    arith,
    all-append schedulable s.schedules (created now id i (zone_or_utc b.timezone) next b) h
        (checked_next_valid fails b.cron_expr (zone_or_utc b.timezone) now next e),
  )

  schedulable-create_schedule :
      (fails : Call → Bool) (now : ℕ) (id i : String) (body : Option CreateBody) (s : Plan)
      → all schedulable s.schedules ≡ true
      → all schedulable
          (create_schedule parse load_location utc next_after fails now id i body s).0.schedules
        ≡ true
  unfolding create_schedule schedulable created
  schedulable-create_schedule fails now id i none s h = h
  schedulable-create_schedule fails now id i (some b) s h =
      elim (Bool-cases (is_empty b.cron_expr || is_empty b.prompt)) [
        | inl lacking ↦ rw lacking h
        | inr full ↦ rw full (all-insert_checked fails now id i b s _ refl h)
      ]

  abbrev both_valid : String → String → Bool
  both_valid expr tz = present (parse expr) && present (load_location tz)

  -- Fields that were checked along with another row's are as good with this row's.
  valid_mixed :
      (x y : Option String) (q r : Schedule)
      → both_valid (or_else q.cron_expr x) (or_else q.timezone y) ≡ true
      → both_valid r.cron_expr r.timezone ≡ true
      → both_valid (or_else r.cron_expr x) (or_else r.timezone y) ≡ true
  valid_mixed none none q r e ok = ok
  valid_mixed (some c) none q r e ok = ground arith
  valid_mixed none (some z) q r e ok = ground arith
  valid_mixed (some c) (some z) q r e ok = e

  valid_unset :
      (x y : Option String) (r : Schedule)
      → (unset x && unset y) ≡ true
      → both_valid r.cron_expr r.timezone ≡ true
      → both_valid (or_else r.cron_expr x) (or_else r.timezone y) ≡ true
  valid_unset none none r e ok = ok
  valid_unset (some c) y r e ok = cc
  valid_unset none (some z) r e ok = cc

  checked_of_some_next :
      (fails : Call → Bool) (now : ℕ) (expr tz : String) (next : Option ℕ) (o : Response ⊎ ℕ)
      → checked_next parse load_location utc next_after fails expr tz now ≡ o
      → some_next parse load_location utc next_after fails o ≡ inr next
      → both_valid expr tz ≡ true
  checked_of_some_next fails now expr tz next (inl refusal) e h = cc
  checked_of_some_next fails now expr tz next (inr n) e h = checked_next_valid fails expr tz now n e

  -- What a change writes to a row that is schedulable is schedulable.
  recompute_valid :
      (fails : Call → Bool) (now : ℕ) (i : String) (b : UpdateBody) (s : Plan) (next : Option ℕ)
      → recompute parse load_location utc next_after fails now i b s ≡ inr next
      → all schedulable s.schedules ≡ true
      → (r : Schedule) → schedulable r ≡ true
      → schedulable (changed now b next r) ≡ true
  unfolding recompute schedulable changed
  recompute_valid fails now i b s next e h r ok =
      elim (Bool-cases (unset b.cron_expr && unset b.timezone)) [
        | inl same ↦ valid_unset b.cron_expr b.timezone r same ok
        | inr other ↦ from_row _ (rw other at e)
      ]
    where
      from_row :
          (o : Option Schedule)
          → next_of_row parse load_location utc next_after fails now b o ≡ inr next
          → schedulable (changed now b next r) ≡ true
      from_row none k = cc
      from_row (some q) k =
          valid_mixed b.cron_expr b.timezone q r
            (checked_of_some_next fails now (or_else q.cron_expr b.cron_expr)
              (or_else q.timezone b.timezone) next _ refl k)
            ok

  all-write_changes :
      (fails : Call → Bool) (now : ℕ) (i : String) (b : UpdateBody) (s : Plan)
      (o : Response ⊎ Option ℕ)
      → recompute parse load_location utc next_after fails now i b s ≡ o
      → all schedulable s.schedules ≡ true
      → all schedulable
          (write_changes parse load_location utc next_after fails now i b o s).0.schedules
        ≡ true
  all-write_changes fails now i b s (inl refusal) e h = h
  all-write_changes fails now i b s (inr next) e h = ground (
    arith,
    all-update schedulable (same_id i) (changed now b next) s.schedules
        (recompute_valid fails now i b s next e h) h,
  )

  schedulable-update_schedule :
      (fails : Call → Bool) (now : ℕ) (i : String) (body : Option UpdateBody) (s : Plan)
      → all schedulable s.schedules ≡ true
      → all schedulable
          (update_schedule parse load_location utc next_after fails now i body s).0.schedules
        ≡ true
  unfolding update_schedule schedulable changed
  schedulable-update_schedule fails now i none s h = h
  schedulable-update_schedule fails now i (some b) s h = all-write_changes fails now i b s _ refl h

  schedulable-delete_schedule :
      (fails : Call → Bool) (i : String) (s : Plan)
      → all schedulable s.schedules ≡ true
      → all schedulable (delete_schedule fails i s).0.schedules ≡ true
  unfolding delete_schedule
  schedulable-delete_schedule fails i s h =
      ground (arith, all-delete schedulable (same_id i) s.schedules)

  module _ (calls : starfire_agent_team.Scheduler.Call → Bool) (digits : ℕ → String)
      (proxy : Schedule → World → Proxied) (ended : String → ℕ) where
    schedulable-fire_schedule :
        (r : Schedule) (s : Plan)
        → all schedulable s.schedules ≡ true
        → all schedulable
            (fire_schedule parse load_location utc next_after calls digits proxy ended r
              s).schedules
          ≡ true
    unfolding fire_schedule ran schedulable
    schedulable-fire_schedule r s h = ground (
      arith,
      all-update schedulable (same_id r.id)
          (ran (ended r.id)
            (compute_next_run parse load_location utc next_after r.cron_expr r.timezone
              (ended r.id))
            (outcome digits (proxy r s.world)).0 (outcome digits (proxy r s.world)).1)
          s.schedules (λ q k. k) h,
    )

    schedulable-fire_all :
        (rows : List Schedule) (s : Plan)
        → all schedulable s.schedules ≡ true
        → all schedulable
            (fire_all parse load_location utc next_after calls digits proxy ended rows s).schedules
          ≡ true
    unfolding fire_all
    schedulable-fire_all [] s h = h
    schedulable-fire_all (r ∷ rows) s h =
        schedulable-fire_all rows
          (fire_schedule parse load_location utc next_after calls digits proxy ended r s)
          (schedulable-fire_schedule r s h)

    schedulable-tick :
        (now : ℕ) (s : Plan)
        → all schedulable s.schedules ≡ true
        → all schedulable
            (tick parse load_location utc next_after calls digits proxy ended now s).schedules
          ≡ true
    unfolding tick
    schedulable-tick now s h = elim (Bool-cases (calls due_rows)) [
      | inl down ↦ rw down h
      | inr up ↦ rw up (schedulable-fire_all (batch now s) s h)
    ]

  unfoldable pub step : Event → Plan → Plan
  step (creation fails now id i body) s =
      (create_schedule parse load_location utc next_after fails now id i body s).0
  step (change fails now i body) s =
      (update_schedule parse load_location utc next_after fails now i body s).0
  step (deletion fails i) s = (delete_schedule fails i s).0
  step (ticking calls digits proxy ended now) s =
      tick parse load_location utc next_after calls digits proxy ended now s

  unfoldable pub run : List Event → Plan → Plan
  unfolding step
  run [] s = s
  run (e ∷ events) s = run events (step e s)

  schedulable-step :
      (e : Event) (s : Plan)
      → all schedulable s.schedules ≡ true
      → all schedulable (step e s).schedules ≡ true
  unfolding step
  schedulable-step (creation fails now id i body) s h =
      schedulable-create_schedule fails now id i body s h
  schedulable-step (change fails now i body) s h = schedulable-update_schedule fails now i body s h
  schedulable-step (deletion fails i) s h = schedulable-delete_schedule fails i s h
  schedulable-step (ticking calls digits proxy ended now) s h =
      schedulable-tick calls digits proxy ended now s h

  -- In any history of ticks, and of requests that create, change and delete schedules, whichever
  -- statements fail and whatever the calls answer, every schedule keeps an expression and a time
  -- zone that are valid, if all had such ones at first.
  pub run-schedulable :
      (events : List Event) (s : Plan)
      → all schedulable s.schedules ≡ true
      → all schedulable (run events s).schedules ≡ true
  unfolding run
  run-schedulable [] s h = h
  run-schedulable (e ∷ events) s h = run-schedulable events (step e s) (schedulable-step e s h)
