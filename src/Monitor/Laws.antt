-- ===== src/Monitor/Laws.antt =====
-- What the monitor and the sweeps mark, and what their guards protect.
use starfire_agent_team.Prelude.{
  ℕ, String, Bool, true, false, ◌≡◌, refl, Option, none, some, List, [], ◌∷◌, arith, Bool-cases,
  inl, inr, ◌==◌, ◌&&◌, not, ◌∙◌, eq_iff, any, if◌then◌else◌, or_else,
}
use starfire_agent_team.Sql.{first, select}
use starfire_agent_team.Sql.Laws.{map_option}
use starfire_agent_team.World.StatusColumn.{
  Status, provisioning, online, offline, degraded, failed, paused, removed, one_of,
}
use starfire_agent_team.World.{Workspace, World, has_id, workspace}
use starfire_agent_team.World.Laws.{first-has_id-update, has_id_of_first}
use starfire_agent_team.World.Unique.{PrimaryKey, any-select}
use starfire_agent_team.Monitor.{
  Checker, offline_row, mark_offline, runs_in_docker, is_stale, sweep_one, sweep_ids, skips,
  sweep_online_workspaces, sweep_stale_remote_workspaces,
}

pub row-mark_offline :
    (except : List Status) (now : ℕ) (i j : String) (w : World) (o : Option Workspace)
    → first (has_id j) w.workspaces ≡ o
    → first (has_id j) (mark_offline except now i w).workspaces
      ≡ map_option (λ r. if i == j && not (one_of except r.status) then offline_row now r else r) o
unfolding mark_offline
row-mark_offline except now i j w none e =
    first-has_id-update j _ (offline_row now) (unfold offline_row in λ r. refl) w.workspaces none e
row-mark_offline except now i j w (some r) e =
    first-has_id-update j (λ r. has_id i r && not (one_of except r.status)) (offline_row now)
      (unfold offline_row in λ r. refl) w.workspaces (some r) e
    ∙ ground (arith, has_id_of_first j w.workspaces r e, eq_iff r.id j, eq_iff r.id i, eq_iff i j)

-- What one sweep does to the row of a workspace.
swept :
    List Status
    → (String → Bool)
    → (String → Bool)
    → ℕ
    → List Workspace
    → String
    → Workspace
    → Workspace
swept except skip fails now rows j r =
    if any (has_id j) rows && not (skip j) && not (fails j) && not (one_of except r.status)
    then offline_row now r
    else r

row-sweep_one :
    (except : List Status) (fails : String → Bool) (now : ℕ) (i j : String)
    (s : World × List String) (o : Option Workspace)
    → first (has_id j) s.0.workspaces ≡ o
    → first (has_id j) (sweep_one except fails now i s).0.workspaces
      ≡ map_option
          (λ r.
            if i == j && not (fails j) && not (one_of except r.status)
            then offline_row now r
            else r)
          o
unfolding sweep_one
row-sweep_one except fails now i j s none e =
    ground (arith, row-mark_offline except now i j s.0 none e, eq_iff i j)
row-sweep_one except fails now i j s (some r) e =
    ground (arith, row-mark_offline except now i j s.0 (some r) e, eq_iff i j)

swept_twice :
    (except : List Status) (skip fails : String → Bool) (now : ℕ) (rows : List Workspace)
    (x : Workspace) (j : String) (r : Workspace)
    → skip x.id ≡ false
    → swept except skip fails now rows j (
        if x.id == j && not (fails j) && not (one_of except r.status) then offline_row now r else r)
      ≡ swept except skip fails now (x ∷ rows) j r
unfolding swept offline_row
swept_twice except skip fails now rows x j r looked = ground (arith, eq_iff x.id j)

row-sweep_ids :
    (except : List Status) (skip fails : String → Bool) (now : ℕ) (rows : List Workspace)
    (j : String) (s : World × List String) (o : Option Workspace)
    → first (has_id j) s.0.workspaces ≡ o
    → first (has_id j) (sweep_ids except skip fails now rows s).0.workspaces
      ≡ map_option (swept except skip fails now rows j) o
unfolding sweep_ids swept
row-sweep_ids except skip fails now [] j s none e = e
row-sweep_ids except skip fails now [] j s (some r) e = e
row-sweep_ids except skip fails now (x ∷ rows) j s none e = elim (Bool-cases (skip x.id)) [
  | inl skipped ↦ ground (arith, row-sweep_ids except skip fails now rows j s none e)
  | inr looked ↦ ground (
    arith,
    row-sweep_ids except skip fails now rows j (sweep_one except fails now x.id s) none
        (row-sweep_one except fails now x.id j s none e),
  )
]
row-sweep_ids except skip fails now (x ∷ rows) j s (some r) e = elim (Bool-cases (skip x.id)) [
  | inl skipped ↦
      ground (arith, row-sweep_ids except skip fails now rows j s (some r) e, eq_iff x.id j)
  | inr looked ↦ ground (
    arith,
    row-sweep_ids except skip fails now rows j (sweep_one except fails now x.id s) _
        (row-sweep_one except fails now x.id j s (some r) e),
    swept_twice except skip fails now rows x j r looked,
  )
]

-- A sweep whose query leaves out what its UPDATE guards acts by the query, the test and the UPDATE.
row-sweep :
    (except : List Status) (skip fails : String → Bool) (p : Workspace → Bool) (now : ℕ) (w : World)
    (j : String) (r : Workspace) (b : Bool)
    → (p r && not (skip j) && not (fails j)) ≡ b
    → PrimaryKey w.workspaces
    → first (has_id j) w.workspaces ≡ some r
    → (p r ≡ true → one_of except r.status ≡ false)
    → first
        (has_id j)
        (sweep_ids except skip fails now (select p w.workspaces) (w, [])).0.workspaces
      ≡ some (if b then offline_row now r else r)
unfolding swept
row-sweep except skip fails p now w j r b test u e guard =
    row-sweep_ids except skip fails now (select p w.workspaces) j (w, []) (some r) e
    ∙ ground (arith, any-select j p w.workspaces r u e, guard, test)

live-unguarded :
    (s : Status)
    → one_of (online ∷ degraded ∷ []) s ≡ true
    → one_of (removed ∷ provisioning ∷ paused ∷ []) s ≡ false
live-unguarded provisioning h = cc
live-unguarded online h = refl
live-unguarded offline h = cc
live-unguarded degraded h = refl
live-unguarded failed h = cc
live-unguarded paused h = cc
live-unguarded removed h = cc

and-true : (a b : Bool) → (a && true && b) ≡ (a && b)
and-true true b = refl
and-true false b = refl

-- With ids unique, sweepOnlineWorkspaces whose query succeeds leaves in the row of every workspace j
-- what the row says alone: it goes offline exactly if it was online or degraded outside of
-- `external`, the checker reports its container as gone, and the update of the row succeeds; else it
-- is as it was.
pub row-sweep_online_workspaces :
    (fails : String → Bool) (checker : Checker) (now : ℕ) (w : World) (j : String) (r : Workspace)
    → PrimaryKey w.workspaces
    → workspace j w ≡ some r
    → workspace j (sweep_online_workspaces false fails checker now w).0
      ≡ some (
          if runs_in_docker r && not (or_else true (checker j)) && not (fails j)
          then offline_row now r
          else r)
unfolding workspace sweep_online_workspaces
row-sweep_online_workspaces fails checker now w j r u e =
    row-sweep (removed ∷ provisioning ∷ []) (skips checker) fails runs_in_docker now w j r _ refl u
      e (λ h. ground (arith, live-unguarded r.status))

-- With ids unique, the sweep of external workspaces takes a row offline exactly if it is an online
-- or degraded external one whose last sign of life is older than the limit, and its update succeeds.
pub row-sweep_stale_remote_workspaces :
    (fails : String → Bool) (stale_after now : ℕ) (w : World) (j : String) (r : Workspace)
    → PrimaryKey w.workspaces
    → workspace j w ≡ some r
    → workspace j (sweep_stale_remote_workspaces false fails stale_after now w).0
      ≡ some (if is_stale now stale_after r && not (fails j) then offline_row now r else r)
unfolding workspace sweep_stale_remote_workspaces
row-sweep_stale_remote_workspaces fails stale_after now w j r u e =
    row-sweep (removed ∷ provisioning ∷ paused ∷ []) (λ i. false) fails (is_stale now stale_after)
      now w j r _ (and-true (is_stale now stale_after r) _) u e
      (λ h. ground (arith, live-unguarded r.status))
