-- ===== src/WsAuth/Tests.antt =====
-- The laws of tokens at the token of `root`.
use starfire_agent_team.Prelude.{false, ◌≡◌, ◌≢◌, refl, String, true-ne-false, eq_iff}
use starfire_agent_team.Sql.{first}
use starfire_agent_team.Text.{is_empty}
use starfire_agent_team.Samples.{sha, family}
use starfire_agent_team.WsAuth.{healthy, validate_token, bearer_token_from_header}
use starfire_agent_team.WsAuth.Laws.{validate_token_bound}

root-ne-mid : ◌≢◌ {A = String} "root" "mid"
root-ne-mid e = true-ne-false ((eq_iff "root" "mid").1 e) refl

validate_token_bound_example : (validate_token sha healthy 6 "mid" "secret" family).1 ≡ false
unfolding validate_token first
validate_token_bound_example =
    validate_token_bound sha healthy 5 6 "root" "mid" "secret" family root-ne-mid refl

header_read : bearer_token_from_header "Bearer  abc " ≡ "abc"
unfolding bearer_token_from_header starfire_agent_team.Text.trim_space
    starfire_agent_team.Text.drop_chars
header_read = refl
