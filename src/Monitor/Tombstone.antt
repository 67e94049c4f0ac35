-- ===== src/Monitor/Tombstone.antt =====
-- The status guards of the monitors: no tombstone is lost, and who else is protected.
use starfire_agent_team.Prelude.{
  ℕ, String, Bool, true, false, ◌≡◌, refl, Option, none, some, List, [], ◌∷◌, arith, eq_refl,
  if◌then◌else◌,
}
use starfire_agent_team.Sql.{select}
use starfire_agent_team.World.StatusColumn.{Status, provisioning, paused, removed}
use starfire_agent_team.World.{Workspace, World, workspace}
use starfire_agent_team.World.Laws.{is_removed, removed_at-update}
use starfire_agent_team.Monitor.Key.{expired_workspace}
use starfire_agent_team.Monitor.Laws.{row-mark_offline}
use starfire_agent_team.Monitor.{
  Checker, offline_row, mark_offline, on_expiry, liveness_message, sweep_one, sweep_ids,
  sweep_online_workspaces, sweep_stale_remote_workspaces, skips, runs_in_docker, is_stale,
}

mark_offline-removed :
    (except : List Status) (now : ℕ) (i j : String) (w : World)
    → is_removed j w ≡ true
    → is_removed j (mark_offline (removed ∷ except) now i w) ≡ true
unfolding mark_offline
mark_offline-removed except now i j w h =
    removed_at-update _ (offline_row now) (unfold offline_row in λ r. refl) (λ r q t. ground arith)
      j w.workspaces h

-- No message of the key expiry subscription changes a removed workspace.
pub liveness_message-removed :
    (fails : Bool) (now : ℕ) (key j : String) (w : World)
    → is_removed j w ≡ true
    → is_removed j (liveness_message fails now key w).0 ≡ true
unfolding liveness_message on_expiry
liveness_message-removed fails now key j w h = go (expired_workspace key)
  where
    go : (o : Option String) → is_removed j (on_expiry fails now o w).0 ≡ true
    go none = h
    go (some i) = ground (arith, mark_offline-removed (paused ∷ []) now i j w h)

sweep_ids-removed :
    (except : List Status) (skip fails : String → Bool) (now : ℕ) (rows : List Workspace)
    (j : String) (s : World × List String)
    → is_removed j s.0 ≡ true
    → is_removed j (sweep_ids (removed ∷ except) skip fails now rows s).0 ≡ true
unfolding sweep_ids sweep_one
sweep_ids-removed except skip fails now [] j s h = h
sweep_ids-removed except skip fails now (x ∷ rows) j s h =
    sweep_ids-removed except skip fails now rows j
      (if skip x.id then s else sweep_one (removed ∷ except) fails now x.id s)
      (ground (arith, mark_offline-removed except now x.id j s.0 h))

-- No sweep over containers brings a removed workspace back, however long ago its query ran.
pub sweep_online_workspaces-removed :
    (query_fails : Bool) (fails : String → Bool) (checker : Checker) (now : ℕ) (j : String)
    (w : World)
    → is_removed j w ≡ true
    → is_removed j (sweep_online_workspaces query_fails fails checker now w).0 ≡ true
unfolding sweep_online_workspaces
sweep_online_workspaces-removed true fails checker now j w h = h
sweep_online_workspaces-removed false fails checker now j w h =
    sweep_ids-removed (provisioning ∷ []) (skips checker) fails now
      (select runs_in_docker w.workspaces) j (w, []) h

-- Nor does a sweep over external workspaces.
pub sweep_stale_remote_workspaces-removed :
    (query_fails : Bool) (fails : String → Bool) (stale_after now : ℕ) (j : String) (w : World)
    → is_removed j w ≡ true
    → is_removed j (sweep_stale_remote_workspaces query_fails fails stale_after now w).0 ≡ true
unfolding sweep_stale_remote_workspaces
sweep_stale_remote_workspaces-removed true fails stale_after now j w h = h
sweep_stale_remote_workspaces-removed false fails stale_after now j w h =
    sweep_ids-removed (provisioning ∷ paused ∷ []) (λ i. false) fails now
      (select (is_stale now stale_after) w.workspaces) j (w, []) h

-- A workspace that is paused after the container sweep has listed it, and before the sweep comes
-- to its UPDATE, is set offline; the UPDATEs of the liveness monitor and of the sweep over external
-- workspaces leave it paused.
pub paused_race :
    (now : ℕ) (i : String) (w : World) (r : Workspace)
    → workspace i w ≡ some r
    → r.status ≡ paused
    → (workspace i (mark_offline (removed ∷ provisioning ∷ []) now i w) ≡ some (offline_row now r))
      × (workspace i (mark_offline (removed ∷ paused ∷ []) now i w) ≡ some r)
      × (workspace i (mark_offline (removed ∷ provisioning ∷ paused ∷ []) now i w) ≡ some r)
unfolding workspace
paused_race now i w r e p = (
  ground (arith, row-mark_offline (removed ∷ provisioning ∷ []) now i i w (some r) e, eq_refl i),
  ground (arith, row-mark_offline (removed ∷ paused ∷ []) now i i w (some r) e, eq_refl i),
  ground (
    arith,
    row-mark_offline (removed ∷ provisioning ∷ paused ∷ []) now i i w (some r) e,
    eq_refl i,
  ),
)
