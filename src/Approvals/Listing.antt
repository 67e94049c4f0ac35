-- ===== src/Approvals/Listing.antt =====
-- What the list of pending requests shows, and what it does to old ones.
use starfire_agent_team.Prelude.{
  ℕ, ◌≡◌, ◌≤◌, refl, String, Bool, true, false, ◌&&◌, ◌||◌, not, none, some, List, [], ◌∷◌, arith,
  all, ltb, is_some, length, ◌+◌, ◌<◌, sym, ◌∙◌, if◌then◌else◌,
}
use starfire_agent_team.Sql.{first, update, select, apply_when}
use starfire_agent_team.Sql.Laws.{first-update, first-append}
use starfire_agent_team.Sql.Order.{order_desc, limit, all-order_desc, all-limit, length-limit}
use starfire_agent_team.World.{World, workspace}
use starfire_agent_team.Approvals.{
  Approval, Desk, Listed, Call, expire, list, is_pending, same_id, stale, expired, expire_stale,
  list_all, join_workspaces, listed_pending, listed_at, open_request, decided,
}
use starfire_agent_team.Approvals.Final.{
  Op, step, run, Change, same, inserted, swept, ruled, Change-step,
}

-- Pending, and not older than ten minutes.
abbrev pub fresh : ℕ → Approval → Bool
fresh now r = is_pending r.status && not (ltb (r.created_at + 600) now)

-- A row whose request is fresh if it is pending, and whose workspace is on file.
abbrev sound_row : ℕ → World → Listed → Bool
sound_row now w l =
    (not (is_pending l.request.status) || fresh now l.request)
    && is_some (workspace l.request.workspace_id w)

all-expired :
    (now : ℕ) (rows : List Approval)
    → all (λ r. not (stale now r)) (update (stale now) (expired now) rows) ≡ true
unfolding update expired
all-expired now [] = refl
all-expired now (r ∷ rows) = ground (arith, all-expired now rows)

all-join_workspaces :
    (now : ℕ) (w : World) (rows : List Approval)
    → all (λ r. not (stale now r)) rows ≡ true
    → all (sound_row now w) (join_workspaces w rows) ≡ true
unfolding join_workspaces
all-join_workspaces now w [] h = refl
all-join_workspaces now w (r ∷ rows) h = ground (arith, all-join_workspaces now w rows)

shown : ℕ → World → Listed → Bool
shown now w l = fresh now l.request && is_some (workspace l.request.workspace_id w)

all-shown :
    (now : ℕ) (w : World) (rows : List Listed)
    → all (sound_row now w) rows ≡ true
    → all (shown now w) (select listed_pending rows) ≡ true
unfolding select shown
all-shown now w [] h = refl
all-shown now w (l ∷ rows) h = ground (arith, all-shown now w rows)

shown_rows :
    (now : ℕ) (w : World) (rows : List Approval) (ls : List Listed)
    → limit 50 (
        order_desc listed_at
          (select listed_pending (join_workspaces w (update (stale now) (expired now) rows))))
      ≡ ls
    → (all (shown now w) ls ≡ true) × (length ls ≤ 50)
shown_rows now w rows ls e = (
  rw (sym e) (
      all-limit (shown now w) 50 _ (
        all-order_desc (shown now w) listed_at _
        ∙ all-shown now w _ (all-join_workspaces now w _ (all-expired now rows)))),
  rw (sym e) (length-limit 50 _),
)

-- Where the statement that expires old requests succeeds, the answer lists at most 50 requests, all
-- of them pending, at most ten minutes old, and of a workspace on file.
pub list_all_sound :
    (fails : Call → Bool) (now : ℕ) (s : Desk) (ls : List Listed)
    → fails expire ≡ false
    → (list_all fails now s).1 ≡ some ls
    → (all (λ l. fresh now l.request && is_some (workspace l.request.workspace_id s.world)) ls
        ≡ true)
      × (length ls ≤ 50)
unfolding list_all expire_stale shown
list_all_sound fails now s ls ok e =
    shown_rows now s.world s.requests ls (answer (fails list) (rw ok at e))
  where
    answer : {a b : List Listed} (c : Bool) → (if c then none else some a) ≡ some b → a ≡ b
    answer true h = cc
    answer false h = cc

-- The request that an id names after a step is as old as before.
age-Change :
    (i : String) (r : Approval) {old new : List Approval}
    → Change old new
    → first (same_id i) old ≡ some r
    → (q : Approval) × (first (same_id i) new ≡ some q) × (q.created_at ≡ r.created_at)
unfolding expired decided
age-Change i r (same e) found = (r, rw e found, refl)
age-Change i r {old} (inserted new_row fresh_id e) found =
    (r, rw e (first-append (same_id i) old (new_row ∷ []) r found), refl)
age-Change i r {old} (swept now e) found = (
  apply_when (stale now) (expired now) r,
  rw (e, first-update (same_id i) (stale now) (expired now) (λ q. refl) old, found) refl,
  ground arith,
)
age-Change i r {old} (ruled k j now v by closed e) found = (
  apply_when (open_request k j) (decided now v by) r,
  rw (e, first-update (same_id i) (open_request k j) (decided now v by) (λ q. refl) old, found)
      refl,
  ground arith,
)

age-run :
    (ops : List Op) (s : Desk) (i : String) (r : Approval)
    → first (same_id i) s.requests ≡ some r
    → (q : Approval) × (first (same_id i) (run ops s).requests ≡ some q)
      × (q.created_at ≡ r.created_at)
unfolding run
age-run [] s i r found = (r, found, refl)
age-run (op ∷ ops) s i r found =
    let (q, there, age) = age-Change i r (Change-step op s) found in
    let (p, at_end, same_age) = age-run ops (step op s) i q there in (p, at_end, same_age ∙ age)

-- A request does not stay pending: whatever happens first, once the pending requests are listed more
-- than ten minutes after it was made, and the statement that expires old ones succeeds, it is on
-- file and not pending.
pub list_all_settles :
    (ops : List Op) (fails : Call → Bool) (now : ℕ) (s : Desk) (i : String) (r : Approval)
    → first (same_id i) s.requests ≡ some r
    → r.created_at + 600 < now
    → fails expire ≡ false
    → (q : Approval) × (first (same_id i) (list_all fails now (run ops s)).0.requests ≡ some q)
      × (is_pending q.status ≡ false)
unfolding list_all expire_stale expired
list_all_settles ops fails now s i r found old ok =
    let (q, there, age) = age-run ops s i r found in
    (
      apply_when (stale now) (expired now) q,
      rw
          (
            ok,
            first-update (same_id i) (stale now) (expired now) (λ p. refl) (run ops s).requests,
            there,
          )
          refl,
      ground arith,
    )
