-- ===== src/Scheduler/Edits.antt =====
-- handlers/schedules.go: the schedules of a workspace are listed, created, changed and deleted.
use starfire_agent_team.Prelude.{
  ℕ, String, Bool, true, false, ◌&&◌, ◌||◌, not, Option, none, some, List, [], ◌∷◌, ◌++◌, ◌⊎◌, inl,
  inr, if◌then◌else◌, ◌==◌, any, or_else, concat,
}
use starfire_agent_team.Text.{is_empty}
use starfire_agent_team.Sql.{first, select, update, delete}
use starfire_agent_team.Sql.Order.{order_asc, order_desc, limit}
use starfire_agent_team.World.{Response, reply, error, has_id}
use starfire_agent_team.Scheduler.{Schedule, Plan, CronRun, same_id, compute_next_run}

pub record CreateBody : Type 0 where
  pub name : String
  pub cron_expr : String
  pub timezone : String
  pub prompt : String
  pub enabled : Option Bool

-- A field that is not sent is `none`.
pub record UpdateBody : Type 0 where
  pub name : Option String
  pub cron_expr : Option String
  pub timezone : Option String
  pub prompt : Option String
  pub enabled : Option Bool

-- The statements of this file that can fail.
pub data Call : Type 0 where
  list_rows insert_schedule read_row modify_row remove_row read_prompt read_history : Call

abbrev in_workspace : String → Schedule → Bool
in_workspace i r = r.workspace_id == i

-- `none` for the answer 500
unfoldable pub list_schedules : (Call → Bool) → String → Plan → Option (List Schedule)
list_schedules fails i s =
    if fails list_rows
    then none
    else some (order_asc (λ r. r.created_at) (select (in_workspace i) s.schedules))

unfoldable pub created : ℕ → String → String → String → ℕ → CreateBody → Schedule
created now id i tz next b = record {
  id = id;
  workspace_id = i;
  name = b.name;
  cron_expr = b.cron_expr;
  timezone = tz;
  prompt = b.prompt;
  enabled = or_else true b.enabled;
  next_run_at = some next;
  last_run_at = none;
  run_count = 0;
  last_status = "";
  last_error = "";
  created_at = now;
  updated_at = now;
}

abbrev pub zone_or_utc : String → String
zone_or_utc tz = if is_empty tz then "UTC" else tz

-- COALESCE
abbrev pub coalesce : {A : Type 0} → Option A → Option A → Option A
coalesce none r = r
coalesce (some a) r = some a

unfoldable pub changed : ℕ → UpdateBody → Option ℕ → Schedule → Schedule
changed now b next r = record r {
  name = or_else r.name b.name;
  cron_expr = or_else r.cron_expr b.cron_expr;
  timezone = or_else r.timezone b.timezone;
  prompt = or_else r.prompt b.prompt;
  enabled = or_else r.enabled b.enabled;
  next_run_at = coalesce next r.next_run_at;
  updated_at = now;
}

abbrev pub unset : Option String → Bool
unset none = true
unset (some t) = false

module _ {Cron Zone : Type 0} (parse : String → Option Cron) (load_location : String → Option Zone)
    (utc : Zone) (next_after : Cron → Zone → ℕ → ℕ) (fails : Call → Bool) where
  -- `inl` for an answer that ends the request
  unfoldable pub checked_next : String → String → ℕ → Response ⊎ ℕ
  unfolding compute_next_run
  checked_next expr tz now = elim (load_location tz) [
    | none ↦ inl (error 400 (concat "invalid timezone: " tz))
    | some z ↦ elim (compute_next_run parse load_location utc next_after expr tz now) [
      | none ↦ inl (error 400 "invalid cron expression")
      | some next ↦ inr next
    ]
  ]

  abbrev pub insert_checked :
      ℕ → String → String → CreateBody → Response ⊎ ℕ → Plan → Plan × Response
  insert_checked now id i b (inl refusal) s = (s, refusal)
  insert_checked now id i b (inr next) s =
      if fails insert_schedule || not (any (has_id i) s.world.workspaces)
      then (s, error 500 "failed to create schedule")
      else (
        record s {
          schedules = s.schedules ++ created now id i (zone_or_utc b.timezone) next b ∷ [];
        },
        reply 201 (("id", id) ∷ ("status", "created") ∷ []),
      )

  -- The new id is an argument. A body lacks what it requires where it is empty.
  unfoldable pub create_schedule : ℕ → String → String → Option CreateBody → Plan → Plan × Response
  unfolding checked_next created
  create_schedule now id i none s = (s, error 400 "cron_expr and prompt are required")
  create_schedule now id i (some b) s =
      if is_empty b.cron_expr || is_empty b.prompt
      then (s, error 400 "cron_expr and prompt are required")
      else insert_checked now id i b (checked_next b.cron_expr (zone_or_utc b.timezone) now) s

  abbrev pub some_next : Response ⊎ ℕ → Response ⊎ Option ℕ
  some_next (inl refusal) = inl refusal
  some_next (inr next) = inr (some next)

  abbrev pub next_of_row : ℕ → UpdateBody → Option Schedule → Response ⊎ Option ℕ
  next_of_row now b none = inl (error 404 "schedule not found")
  next_of_row now b (some r) =
      some_next (checked_next (or_else r.cron_expr b.cron_expr) (or_else r.timezone b.timezone) now)

  unfoldable pub recompute : ℕ → String → UpdateBody → Plan → Response ⊎ Option ℕ
  unfolding checked_next
  recompute now i b s =
      if unset b.cron_expr && unset b.timezone
      then inr none
      else next_of_row now b (if fails read_row then none else first (same_id i) s.schedules)

  abbrev pub write_changes : ℕ → String → UpdateBody → Response ⊎ Option ℕ → Plan → Plan × Response
  write_changes now i b (inl refusal) s = (s, refusal)
  write_changes now i b (inr next) s =
      if fails modify_row
      then (s, error 500 "failed to update schedule")
      else if not (any (same_id i) s.schedules)
      then (s, error 404 "schedule not found")
      else (
        record s { schedules = update (same_id i) (changed now b next) s.schedules },
        reply 200 (("status", "updated") ∷ []),
      )

  unfoldable pub update_schedule : ℕ → String → Option UpdateBody → Plan → Plan × Response
  unfolding recompute changed
  update_schedule now i none s = (s, error 400 "invalid JSON")
  update_schedule now i (some b) s = write_changes now i b (recompute now i b s) s

module _ (fails : Call → Bool) where
  unfoldable pub delete_schedule : String → Plan → Plan × Response
  delete_schedule i s =
      if fails remove_row
      then (s, error 500 "failed to delete schedule")
      else if not (any (same_id i) s.schedules)
      then (s, error 404 "schedule not found")
      else (
        record s { schedules = delete (same_id i) s.schedules },
        reply 200 (("status", "deleted") ∷ []),
      )

  -- It fires nothing: the client posts the prompt.
  unfoldable pub run_now : String → String → Plan → Response
  run_now id i s =
      if fails read_prompt
      then error 500 "failed to read schedule"
      else elim (first (λ r. r.id == id && r.workspace_id == i) s.schedules) [
        | none ↦ error 404 "schedule not found"
        | some r ↦ reply 200 (("status", "fired") ∷ ("workspace_id", i) ∷ ("prompt", r.prompt) ∷ [])
      ]

  -- `none` for the answer 500
  unfoldable pub history : String → String → Plan → Option (List CronRun)
  history id i s =
      if fails read_history
      then none
      else some (
          limit 20 (
            order_desc (λ r. r.created_at)
              (select (λ r. r.workspace_id == i && r.schedule_id == id) s.runs)))
