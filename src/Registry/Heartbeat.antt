-- ===== src/Registry/Heartbeat.antt =====
-- Heartbeat and evaluateStatus of handlers/registry.go.
pub mod Laws
pub mod Tombstone
use starfire_agent_team.Registry.Payload.{HeartbeatPayload}
use starfire_agent_team.Registry.Gate.{require_workspace_token}
use starfire_agent_team.Prelude.{
  ℕ, String, Bool, true, false, Option, none, some, List, [], ◌∷◌, ◌++◌, not, ◌&&◌, ◌*◌, ◌^◌,
  if◌then◌else◌, ◌==◌, leb, ltb, or_else,
}
use starfire_agent_team.Sql.{update}
use starfire_agent_team.World.StatusColumn.{Status, online, offline, degraded, removed, is}
use starfire_agent_team.World.Redis.{refresh_ttl}
use starfire_agent_team.World.{
  Workspace, World, Response, reply, error, attempt, has_id, workspace, with_workspaces, with_cache,
  record_and_broadcast,
}
use starfire_agent_team.WsAuth

-- The calls of Heartbeat and evaluateStatus that can fail.
pub data Call : Type 0 where
  read_task update_row refresh read_status write_status broadcast : Call

-- The float64 values 0.5 and 0.1 in units of 2^-1074.
half : ℕ
half = 2 ^ 1073

tenth : ℕ
tenth = 3602879701896397 * 2 ^ 1019

-- payload.ErrorRate >= 0.5
unfoldable pub is_high : ℕ → Bool
unfolding half
is_high rate = leb half rate

-- payload.ErrorRate < 0.1
unfoldable pub is_low : ℕ → Bool
unfolding tenth
is_low rate = ltb rate tenth

beaten : ℕ → HeartbeatPayload → Workspace → Workspace
beaten now p r = record r {
  last_heartbeat_at = some now;
  last_error_rate = p.error_rate;
  last_sample_error = p.sample_error;
  active_tasks = p.active_tasks;
  uptime_seconds = p.uptime_seconds;
  current_task = some p.current_task;
  updated_at = now;
}

abbrev set_status : Status → ℕ → Workspace → Workspace
set_status s now r = record r { status = s; updated_at = now }

abbrev task_of : Option Workspace → String
task_of none = ""
task_of (some r) = or_else "" r.current_task

module _ (fails : Call → Bool) where
  abbrev write : (Workspace → Bool) → Status → ℕ → World → World
  write p s now = attempt (fails write_status) (with_workspaces (update p (set_status s now)))

  -- The writes for the status that was read: `current` is the value in the handler's hands, and
  -- the row may have changed since.
  unfoldable pub write_transition : ℕ → HeartbeatPayload → Status → World → World
  write_transition now p current w =
      if is current online && is_high p.error_rate
      then record_and_broadcast (fails broadcast) "WORKSPACE_DEGRADED" p.workspace_id
          (write (has_id p.workspace_id) degraded now w)
      else if is current degraded && is_low p.error_rate
      then record_and_broadcast (fails broadcast) "WORKSPACE_ONLINE" p.workspace_id
          (write (has_id p.workspace_id) online now w)
      else if is current offline
      then record_and_broadcast (fails broadcast) "WORKSPACE_ONLINE" p.workspace_id
          (write (λ r. has_id p.workspace_id r && is r.status offline) online now w)
      else w

  -- The status is read right before the writes.
  unfoldable pub evaluate_status : ℕ → HeartbeatPayload → World → World
  unfolding write_transition
  evaluate_status now p w = elim (if fails read_status then none else workspace p.workspace_id w) [
    | none ↦ w
    | some r ↦ write_transition now p r.status w
  ]

  -- BroadcastOnly, when the task changed
  task_updated : String → HeartbeatPayload → World → World
  task_updated before p w = if p.current_task == before then w else record w {
    events =
        w.events
        ++ record { recorded = false; kind = "TASK_UPDATED"; workspace_id = p.workspace_id } ∷ [];
  }

  beat : ℕ → HeartbeatPayload → World → World × Response
  unfolding beaten task_updated
  beat now p w =
      let before = task_of (if fails read_task then none else workspace p.workspace_id w) in
      if fails update_row
      then (w, error 500 "failed to update")
      else let w1 =
          with_workspaces
            (update (λ r. has_id p.workspace_id r && not (is r.status removed)) (beaten now p)) w in
        let w2 = attempt (fails refresh) (with_cache (refresh_ttl now p.workspace_id)) w1 in
        (task_updated before p (evaluate_status now p w2), reply 200 (("status", "ok") ∷ []))

  after_gate : ℕ → HeartbeatPayload → World × Option Response → World × Response
  unfolding beat
  after_gate now p (w, some refused) = (w, refused)
  after_gate now p (w, none) = beat now p w

module _ (sha256 : String → String) (fails : Call → Bool) (auth : WsAuth.Call → Bool) where
  unfoldable pub heartbeat : ℕ → String → Option HeartbeatPayload → World → World × Response
  unfolding after_gate
  heartbeat now header none w = (w, error 400 "bad request")
  heartbeat now header (some p) w =
      after_gate fails now p (require_workspace_token sha256 auth now header p.workspace_id w)
