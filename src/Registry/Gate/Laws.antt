-- ===== src/Registry/Gate/Laws.antt =====
-- Which requests the token gates let through, and what they leave alone.
use starfire_agent_team.Prelude.{
  ℕ, String, Bool, true, false, ◌≡◌, ◌≢◌, ◌⊎◌, ◌↔◌, none, some, arith,
}
use starfire_agent_team.Text.{is_empty}
use starfire_agent_team.World.{World, Response}
use starfire_agent_team.WsAuth
use starfire_agent_team.WsAuth.{has_any_live_token, validate_token, bearer_token_from_header}
use starfire_agent_team.Registry.Gate.{
  require_workspace_token, validate_caller_token, validate_discovery_caller,
}

module _ (sha256 : String → String) (auth : WsAuth.Call → Bool) where
  workspaces-validate_token :
      (now : ℕ) (i token : String) (w : World)
      → (validate_token sha256 auth now i token w).0.workspaces ≡ w.workspaces
  unfolding validate_token
  workspaces-validate_token now i token w = ground arith

  -- A gate changes no workspace row.
  pub workspaces-require_workspace_token :
      (now : ℕ) (header i : String) (w : World)
      → (require_workspace_token sha256 auth now header i w).0.workspaces ≡ w.workspaces
  unfolding require_workspace_token
  workspaces-require_workspace_token now header i w =
      ground (arith, workspaces-validate_token now i (bearer_token_from_header header) w)

  pub workspaces-validate_discovery_caller :
      (now : ℕ) (header i : String) (w : World)
      → (validate_discovery_caller sha256 auth now header i w).0.workspaces ≡ w.workspaces
  unfolding validate_discovery_caller
  workspaces-validate_discovery_caller now header i w =
      ground (arith, workspaces-validate_token now i (bearer_token_from_header header) w)

  pub workspaces-validate_caller_token :
      (now : ℕ) (header i : String) (w : World)
      → (validate_caller_token sha256 auth now header i w).0.workspaces ≡ w.workspaces
  unfolding validate_caller_token
  workspaces-validate_caller_token now header i w =
      ground (arith, workspaces-validate_token now i (bearer_token_from_header header) w)

  validate_token-empty :
      (now : ℕ) (i token : String) (w : World)
      → is_empty token ≡ true
      → (validate_token sha256 auth now i token w).1 ≡ false
  unfolding validate_token
  validate_token-empty now i token w h = ground arith

  pub code-validate_discovery_caller :
      (now : ℕ) (header i : String) (w : World) (answer : Response)
      → (validate_discovery_caller sha256 auth now header i w).1 ≡ some answer
      → answer.code ≡ 401
  unfolding validate_discovery_caller
  code-validate_discovery_caller now header i w answer e = ground arith

  -- Whether a bearer token lets a caller pass: the workspace has no live token on file, or the
  -- check for one failed, or the token in the header is valid for this workspace.
  abbrev pub Passes : ℕ → String → String → World → Type 0
  Passes now header i w =
      (has_any_live_token auth i w ≢ some true)
      ⊎ ((validate_token sha256 auth now i (bearer_token_from_header header) w).1 ≡ true)

  -- Each of the three gates lets a request through exactly when the workspace has no live token on
  -- file, or the check for one failed, or the bearer token is valid for that very workspace.
  pub gates_iff :
      (now : ℕ) (header i : String) (w : World)
      → (((require_workspace_token sha256 auth now header i w).1 ≡ none) ↔ Passes now header i w)
        × (((validate_caller_token sha256 auth now header i w).1 ≡ none) ↔ Passes now header i w)
        × (((validate_discovery_caller sha256 auth now header i w).1 ≡ none)
            ↔ Passes now header i w)
  unfolding require_workspace_token validate_caller_token validate_discovery_caller
  gates_iff now header i w =
      let bare = validate_token-empty now i (bearer_token_from_header header) w in
      (
        (λ h. ground (arith, bare), λ h. ground (arith, bare)),
        (λ h. ground (arith, bare), λ h. ground (arith, bare)),
        (λ h. ground (arith, bare), λ h. ground (arith, bare)),
      )
