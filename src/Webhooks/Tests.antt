-- ===== src/Webhooks/Tests.antt =====
-- The webhook of GitHub at concrete requests.
use starfire_agent_team.Prelude.{
  String, Bool, true, false, ◌≡◌, refl, Option, none, some, inr, if◌then◌else◌, ◌==◌, concat,
}
use starfire_agent_team.Text.{is_empty, take_chars}
use starfire_agent_team.Json.{Json}
use starfire_agent_team.World.{World}
use starfire_agent_team.Samples.{family}
use starfire_agent_team.Access
use starfire_agent_team.Proxy.{Call, Reply, answer}
use starfire_agent_team.Webhooks.{
  GithubCommentEvent, max_proxy_request_body, target_of, build_github_a2a_payload, github,
  webhook_proxy,
}
use starfire_agent_team.Webhooks.Laws.{Signed, Created, github_authentic}

abbrev no_failure : Call → Bool
no_failure _ = false

abbrev echo : String → String → Reply
echo url body = answer 200 body

abbrev proxy : String → String → World → starfire_agent_team.Proxy.Proxied
proxy i body w = webhook_proxy no_failure true false echo (some true) Access.healthy 5 i body w

abbrev toy_hmac : String → String → String
toy_hmac secret body = concat secret body

abbrev plain : String → Option String
plain s = some s

abbrev opened : GithubCommentEvent
opened = record {
  workspace_id = "leaf";
  action = "created";
  repository = record { full_name = "acme/app" };
  sender = record { login = "ann" };
  subject = record { number = "7" };
  comment = record { body = " look "; html_url = "https://github.com/acme/app/issues/7" };
}

abbrev unmarshal : String → String → Option GithubCommentEvent
unmarshal event body = if body == "{}" then some opened else none

abbrev marshal : Json → String
marshal j = "{}"

refused_without_secret :
    (github toy_hmac plain unmarshal marshal proxy "  " "leaf" "sha256={}" "issue_comment" "d1"
      (some "{}")
      family).response.code
    ≡ 503
unfolding github starfire_agent_team.Text.trim_space
refused_without_secret = refl

github_authentic_example :
    (sent body named : String) × (payload : Json) × (some "{}" ≡ some sent)
    × (body ≡ take_chars max_proxy_request_body sent)
    × Signed toy_hmac plain "key" "sha256=key{}" body
    × Created unmarshal "issue_comment" body named
    × (build_github_a2a_payload unmarshal "issue_comment" "d1" body ≡ inr (named, payload))
    × (is_empty (target_of "" named) ≡ false)
    × (github toy_hmac plain unmarshal marshal proxy "key" "" "sha256=key{}" "issue_comment" "d1"
          (some "{}")
          family
        ≡ proxy (target_of "" named) (marshal payload) family)
unfolding github starfire_agent_team.Text.trim_space starfire_agent_team.Text.drop_chars take_chars
    starfire_agent_team.Proxy.proxy_a2a_request starfire_agent_team.Proxy.is_system_caller
    starfire_agent_team.World.Redis.get_cached_url starfire_agent_team.World.workspace
    starfire_agent_team.Sql.first
github_authentic_example =
    github_authentic toy_hmac plain unmarshal marshal proxy "key" "" "sha256=key{}" "issue_comment"
      "d1" (some "{}") family "http://127.0.0.1:8001" refl
