-- ===== src/Registry/Gate.antt =====
-- The bearer-token gates of handlers/registry.go (requireWorkspaceToken), handlers/a2a_proxy.go
-- (validateCallerToken) and handlers/discovery.go (validateDiscoveryCaller). `some r` is an answer
-- already written; `none` lets the handler go on.
pub mod Laws
use starfire_agent_team.Prelude.{ℕ, String, Bool, true, false, Option, none, some, if◌then◌else◌}
use starfire_agent_team.Text.{is_empty}
use starfire_agent_team.World.{World, Response, error}
use starfire_agent_team.WsAuth
use starfire_agent_team.WsAuth.{has_any_live_token, validate_token, bearer_token_from_header}

module _ (sha256 : String → String) (auth : WsAuth.Call → Bool) where
  judge : String → World × Bool → World × Option Response
  judge invalid (w, true) = (w, none)
  judge invalid (w, false) = (w, some (error 401 invalid))

  -- What a workspace with live tokens has to present.
  unfoldable pub bearer_check :
      String → String → ℕ → String → String → World → World × Option Response
  unfolding judge
  bearer_check missing invalid now header i w =
      let token = bearer_token_from_header header in
      if is_empty token
      then (w, some (error 401 missing))
      else judge invalid (validate_token sha256 auth now i token w)

  unfoldable pub require_workspace_token : ℕ → String → String → World → World × Option Response
  unfolding bearer_check
  require_workspace_token now header i w = elim (has_any_live_token auth i w) [
    | none ↦ (w, none)
    | some false ↦ (w, none)
    | some true ↦
        bearer_check "missing workspace auth token" "invalid workspace auth token" now header i w
  ]

  unfoldable pub validate_caller_token : ℕ → String → String → World → World × Option Response
  unfolding bearer_check
  validate_caller_token now header i w = elim (has_any_live_token auth i w) [
    | none ↦ (w, none)
    | some false ↦ (w, none)
    | some true ↦
        bearer_check "missing caller auth token" "invalid caller auth token" now header i w
  ]

  unfoldable pub validate_discovery_caller : ℕ → String → String → World → World × Option Response
  unfolding bearer_check
  validate_discovery_caller now header i w = elim (has_any_live_token auth i w) [
    | none ↦ (w, none)
    | some false ↦ (w, none)
    | some true ↦
        bearer_check "missing workspace auth token" "invalid workspace auth token" now header i w
  ]
