-- ===== src/Monitor.antt =====
-- registry/liveness.go and registry/healthsweep.go: how workspaces are found to be offline. Each
-- calls back with the workspaces that it marked; router.go makes the callback restart them.
pub mod Key
pub mod Laws
mod Tests
pub mod Tombstone
use Key.{expired_workspace}
use starfire_agent_team.Prelude.{
  ℕ, ◌+◌, ◌*◌, String, Bool, true, false, ◌&&◌, not, Option, none, some, List, [], ◌∷◌, ◌==◌,
  if◌then◌else◌, ltb, or_else,
}
use starfire_agent_team.Sql.{select, update}
use starfire_agent_team.World.StatusColumn.{
  Status, provisioning, online, offline, degraded, paused, removed, is, one_of,
}
use starfire_agent_team.World.Redis.{clear_workspace_keys}
use starfire_agent_team.World.{Workspace, World, has_id, attempt, with_workspaces, with_cache}

unfoldable pub offline_row : ℕ → Workspace → Workspace
offline_row now r = record r { status = offline; updated_at = now }

-- UPDATE … SET status = 'offline' WHERE id = $1 AND status NOT IN (…)
unfoldable pub mark_offline : List Status → ℕ → String → World → World
unfolding offline_row
mark_offline except now i w =
    with_workspaces (update (λ r. has_id i r && not (one_of except r.status)) (offline_row now)) w

-- One message of the subscription in StartLivenessMonitor: the world after it, and the workspace
-- that the handler is called for.
on_expiry : Bool → ℕ → Option String → World → World × Option String
on_expiry fails now none w = (w, none)
on_expiry fails now (some i) w =
    if fails then (w, none) else (mark_offline (removed ∷ paused ∷ []) now i w, some i)

unfoldable pub liveness_message : Bool → ℕ → String → World → World × Option String
unfolding on_expiry
liveness_message fails now key w = on_expiry fails now (expired_workspace key) w

-- The container check of a sweep: `none` for a Docker error.
abbrev pub Checker : Type 0
Checker = String → Option Bool

abbrev pub runs_in_docker : Workspace → Bool
runs_in_docker r =
    one_of (online ∷ degraded ∷ []) r.status && not (or_else "langgraph" r.runtime == "external")

abbrev pub last_sign : Workspace → ℕ
last_sign r = or_else r.updated_at r.last_heartbeat_at

abbrev pub is_stale : ℕ → ℕ → Workspace → Bool
is_stale now stale_after r =
    one_of (online ∷ degraded ∷ []) r.status
    && or_else "langgraph" r.runtime == "external"
    && ltb (last_sign r + stale_after) now

-- Marks one workspace and clears its keys; the handler is called unless the update failed.
sweep_one : List Status → (String → Bool) → ℕ → String → World × List String → World × List String
sweep_one except fails now i (w, called) =
    if fails i
    then (w, called)
    else (with_cache (clear_workspace_keys i) (mark_offline except now i w), i ∷ called)

-- The loop over the ids, `skip` being the test that goes on to the next one.
sweep_ids :
    List Status
    → (String → Bool)
    → (String → Bool)
    → ℕ
    → List Workspace
    → World × List String
    → World × List String
sweep_ids except skip fails now [] s = s
sweep_ids except skip fails now (r ∷ rows) s =
    sweep_ids except skip fails now rows
      (if skip r.id then s else sweep_one except fails now r.id s)

-- A Docker error skips, so does a running container.
abbrev skips : Checker → String → Bool
skips checker i = or_else true (checker i)

unfoldable pub sweep_online_workspaces :
    Bool → (String → Bool) → Checker → ℕ → World → World × List String
unfolding sweep_ids sweep_one
sweep_online_workspaces query_fails fails checker now w =
    if query_fails
    then (w, [])
    else sweep_ids (removed ∷ provisioning ∷ []) (skips checker) fails now
        (select runs_in_docker w.workspaces) (w, [])

unfoldable pub sweep_stale_remote_workspaces :
    Bool → (String → Bool) → ℕ → ℕ → World → World × List String
unfolding sweep_ids sweep_one
sweep_stale_remote_workspaces query_fails fails stale_after now w =
    if query_fails
    then (w, [])
    else sweep_ids (removed ∷ provisioning ∷ paused ∷ []) (λ i. false) fails now
        (select (is_stale now stale_after) w.workspaces) (w, [])
