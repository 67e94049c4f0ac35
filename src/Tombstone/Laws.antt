-- ===== src/Tombstone/Laws.antt =====
-- Removed workspaces through histories.
use starfire_agent_team.Prelude.{ℕ, String, true, ◌≡◌, List, [], ◌∷◌, Option-cases, inl, inr, arith}
use starfire_agent_team.World.{World}
use starfire_agent_team.World.Laws.{is_removed}
use starfire_agent_team.Registry.Tombstone.{register-removed, update_card-removed}
use starfire_agent_team.Registry.Heartbeat.Tombstone.{heartbeat-removed}
use starfire_agent_team.Workspaces.Delete.{delete}
use starfire_agent_team.Workspaces.Delete.Laws.{delete-removed}
use starfire_agent_team.Workspaces.Restart.{restart_by_id}
use starfire_agent_team.Workspaces.Restart.Laws.{restart_by_id-removed}
use starfire_agent_team.Monitor.Tombstone.{
  liveness_message-removed, sweep_online_workspaces-removed, sweep_stale_remote_workspaces-removed,
}
use starfire_agent_team.Tombstone.{
  Step, registration, beat_of, card, deletion, expiry, container_sweep, remote_sweep,
  automatic_restart, step, run,
}

module _ (sha256 : String → String) where
  step-removed :
      (now : ℕ) (s : Step) (j : String) (w : World)
      → is_removed j w ≡ true
      → is_removed j (step sha256 now s w) ≡ true
  unfolding step
  step-removed now (registration fails auth new_id random p) j w h =
      register-removed sha256 fails auth now new_id random p j w h
  step-removed now (beat_of fails auth header p) j w h =
      heartbeat-removed sha256 fails auth now header p j w h
  step-removed now (card fails auth header p) j w h =
      update_card-removed sha256 fails auth now header p j w h
  step-removed now (deletion fails docker fuel confirm i) j w h =
      elim (Option-cases (delete fails docker fuel now confirm i w)) [
        | inl endless ↦ ground (arith, endless)
        | inr ((v, answer), e) ↦
            ground (arith, e, delete-removed fails docker confirm fuel now i j w v answer e h)
      ]
  step-removed now (expiry fails key) j w h = liveness_message-removed fails now key j w h
  step-removed now (container_sweep query_fails fails checker) j w h =
      sweep_online_workspaces-removed query_fails fails checker now j w h
  step-removed now (remote_sweep query_fails fails stale_after) j w h =
      sweep_stale_remote_workspaces-removed query_fails fails stale_after now j w h
  step-removed now (automatic_restart fails fuel docker busy i) j w h =
      elim (Option-cases (restart_by_id fails fuel now docker busy i w)) [
        | inl endless ↦ ground (arith, endless)
        | inr (v, e) ↦
            ground (arith, e, restart_by_id-removed fails fuel now docker busy i j w v e h)
      ]

  -- In a history of registrations, heartbeats, card updates, deletes, key expiries, sweeps and
  -- automatic restarts, each run without another in between its own statements, a removed
  -- workspace stays removed, whatever is requested, by whom, and whichever statements fail.
  pub run-removed :
      (steps : List (ℕ × Step)) (j : String) (w : World)
      → is_removed j w ≡ true
      → is_removed j (run sha256 steps w) ≡ true
  unfolding run
  run-removed [] j w h = h
  run-removed ((now, s) ∷ rest) j w h =
      run-removed rest j (step sha256 now s w) (step-removed now s j w h)
