-- ===== src/Registry/Tests.antt =====
-- The laws of the registry at requests of `root`, which has a token, and of `gone`, which is removed.
use starfire_agent_team.Prelude.{true, false, Bool, ◌≡◌, refl, ◌↔◌, none, some, ◌^◌, String}
use starfire_agent_team.World.{workspace}
use starfire_agent_team.Samples.{sha, family}
use starfire_agent_team.WsAuth
use starfire_agent_team.WsAuth.{issue_token, live_of}
use starfire_agent_team.Sql.{first}
use starfire_agent_team.Registry
use starfire_agent_team.Registry.Payload.{RegisterPayload, HeartbeatPayload}
use starfire_agent_team.Registry.Gate.{
  require_workspace_token, validate_caller_token, validate_discovery_caller,
}
use starfire_agent_team.Registry.Gate.Laws.{Passes, gates_iff}
use starfire_agent_team.Registry.{Call, register, upsert, broadcast}
use starfire_agent_team.Registry.Laws.{
  after_register, registered_answer, workspace-register, token-register,
}
use starfire_agent_team.Registry.Heartbeat.{heartbeat, is_high, write_transition}
use starfire_agent_team.Registry.Heartbeat.Laws.{next, map_status, status_of, status-heartbeat}

abbrev agent : String → RegisterPayload
agent i = record { id = i; url = "http://10.0.0.9:8000"; agent_card = "{}" }

-- Every error rate is 1.0.
abbrev failing : String → HeartbeatPayload
failing i = record {
  workspace_id = i;
  error_rate = 2 ^ 1074;
  sample_error = "timeout";
  active_tasks = 1;
  uptime_seconds = 60;
  current_task = "";
}

gates_iff_example :
    (((require_workspace_token sha WsAuth.healthy 5 "Bearer secret" "root" family).1 ≡ none)
      ↔ Passes sha WsAuth.healthy 5 "Bearer secret" "root" family)
    × (((validate_caller_token sha WsAuth.healthy 5 "Bearer secret" "root" family).1 ≡ none)
        ↔ Passes sha WsAuth.healthy 5 "Bearer secret" "root" family)
    × (((validate_discovery_caller sha WsAuth.healthy 5 "Bearer secret" "root" family).1 ≡ none)
        ↔ Passes sha WsAuth.healthy 5 "Bearer secret" "root" family)
gates_iff_example = gates_iff sha WsAuth.healthy 5 "Bearer secret" "root" family

workspace-register_example :
    workspace "root"
      (register sha Registry.Laws.no_failure WsAuth.healthy 200 2
        (some "fresh")
        (some (agent "root"))
        family).0
    ≡ some (after_register 200 (agent "root") (workspace "root" family))
workspace-register_example =
    workspace-register sha WsAuth.healthy 200 2 (some "fresh") (agent "root") family

-- Only the broadcast fails.
abbrev mute : Call → Bool
mute broadcast = true
mute _ = false

abbrev no_failure : Registry.Heartbeat.Call → Bool
no_failure _ = false

status-heartbeat_example :
    status_of (
      workspace "root"
        (heartbeat sha Registry.Heartbeat.Laws.no_failure WsAuth.healthy 200 "Bearer secret"
          (some (failing "root"))
          family).0)
    ≡ map_status (next (2 ^ 1074)) (status_of (workspace "root" family))
unfolding require_workspace_token WsAuth.has_any_live_token starfire_agent_team.Sql.count
    WsAuth.bearer_token_from_header starfire_agent_team.Text.trim_space
    starfire_agent_team.Text.drop_chars WsAuth.validate_token first
status-heartbeat_example =
    status-heartbeat sha WsAuth.healthy 200 "Bearer secret" (failing "root") family refl
