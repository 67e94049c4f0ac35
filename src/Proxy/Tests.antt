-- ===== src/Proxy/Tests.antt =====
-- The laws of the proxy at concrete requests.
use starfire_agent_team.Prelude.{String, Bool, true, false, ◌≡◌, refl, none, some, ◌⊎◌}
use starfire_agent_team.World.{Workspace, World, workspace}
use starfire_agent_team.Samples.{sha, family}
use starfire_agent_team.WsAuth
use starfire_agent_team.Access
use starfire_agent_team.Access.{can_communicate}
use starfire_agent_team.Registry.Gate.Laws.{Passes}
use starfire_agent_team.Proxy.{
  Call, offline_write, GoError, Reply, answer, unreachable, is_upstream_busy_error, looks_dead,
  forwarded, proxy_a2a_request, proxy_a2a, is_system_caller,
}
use starfire_agent_team.Proxy.Laws.{Trusted, proxy_sound}
use starfire_agent_team.Proxy.Settled.{Settled}

abbrev no_failure : Call → Bool
no_failure _ = false

abbrev echo : String → String → Reply
echo url body = answer 200 body

proxy_sound_example :
    Trusted "mid" "leaf"
    ⊎ (Passes sha WsAuth.healthy 5 "" "mid" family
        × (can_communicate Access.healthy "mid" "leaf" family ≡ true))
unfolding proxy_a2a is_system_caller starfire_agent_team.Registry.Gate.validate_caller_token
    WsAuth.has_any_live_token starfire_agent_team.Sql.count
    starfire_agent_team.Proxy.proxy_a2a_request can_communicate workspace
    starfire_agent_team.Sql.first starfire_agent_team.World.Redis.get_cached_url
proxy_sound_example =
    proxy_sound no_failure true false echo (some true) sha WsAuth.healthy Access.healthy 5 "" "mid"
      "leaf" (some "{}") family "http://127.0.0.1:8001" refl

abbrev cut_off : GoError
cut_off = record { deadline_exceeded = false; eof = true; message = "EOF" }

abbrev lost : String → String → Reply
lost url body = unreachable cut_off

docker_error_kills : looks_dead no_failure true none "mid" family ≡ true
unfolding looks_dead workspace starfire_agent_team.Sql.first
docker_error_kills = refl

system_callers : is_system_caller "webhook:github" ≡ true
unfolding is_system_caller
system_callers = refl
