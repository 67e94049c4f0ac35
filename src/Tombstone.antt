-- ===== src/Tombstone.antt =====
-- The operations of the other modules as the requests and messages of one history, in any order.
pub mod Laws
mod Tests
use starfire_agent_team.Prelude.{ℕ, String, Bool, Option, none, some, List, [], ◌∷◌}
use starfire_agent_team.World.{World, Response}
use starfire_agent_team.WsAuth
use starfire_agent_team.Registry
use starfire_agent_team.Registry.{register, update_card}
use starfire_agent_team.Registry.Payload.{RegisterPayload, HeartbeatPayload, UpdateCardPayload}
use starfire_agent_team.Registry.Heartbeat
use starfire_agent_team.Registry.Heartbeat.{heartbeat}
use starfire_agent_team.Workspaces.Delete
use starfire_agent_team.Workspaces.Delete.{delete}
use starfire_agent_team.Workspaces.Restart
use starfire_agent_team.Workspaces.Restart.{restart_by_id}
use starfire_agent_team.Monitor.{
  Checker, liveness_message, sweep_online_workspaces, sweep_stale_remote_workspaces,
}

-- What the platform handles: requests to the registry, deletes, expired Redis keys, sweeps and
-- automatic restarts, each with the calls that fail in it.
pub data Step : Type 0 where
  registration :
      (Registry.Call → Bool)
      → (WsAuth.Call → Bool)
      → ℕ
      → Option String
      → Option RegisterPayload
      → Step
  beat_of :
      (Registry.Heartbeat.Call → Bool)
      → (WsAuth.Call → Bool)
      → String
      → Option HeartbeatPayload
      → Step
  card : (Registry.Call → Bool) → (WsAuth.Call → Bool) → String → Option UpdateCardPayload → Step
  deletion : (Delete.Call → Bool) → Bool → ℕ → Bool → String → Step
  expiry : Bool → String → Step
  container_sweep : Bool → (String → Bool) → Checker → Step
  remote_sweep : Bool → (String → Bool) → ℕ → Step
  automatic_restart : (Restart.Call → Bool) → ℕ → Bool → Bool → String → Step

-- A request whose walk over the tree does not end leaves the state, as it has written nothing yet.
abbrev answered : World → Option (World × Response) → World
answered w none = w
answered w (some (v, answer)) = v

abbrev restarted : World → Option World → World
restarted w none = w
restarted w (some v) = v

module _ (sha256 : String → String) where
  unfoldable pub step : ℕ → Step → World → World
  step now (registration fails auth new_id random p) w =
      (register sha256 fails auth now new_id random p w).0
  step now (beat_of fails auth header p) w = (heartbeat sha256 fails auth now header p w).0
  step now (card fails auth header p) w = (update_card sha256 fails auth now header p w).0
  step now (deletion fails docker fuel confirm i) w =
      answered w (delete fails docker fuel now confirm i w)
  step now (expiry fails key) w = (liveness_message fails now key w).0
  step now (container_sweep query_fails fails checker) w =
      (sweep_online_workspaces query_fails fails checker now w).0
  step now (remote_sweep query_fails fails stale_after) w =
      (sweep_stale_remote_workspaces query_fails fails stale_after now w).0
  step now (automatic_restart fails fuel docker busy i) w =
      restarted w (restart_by_id fails fuel now docker busy i w)

  -- Steps with the times at which they run.
  unfoldable pub run : List (ℕ × Step) → World → World
  unfolding step
  run [] w = w
  run ((now, s) ∷ rest) w = run rest (step now s w)
