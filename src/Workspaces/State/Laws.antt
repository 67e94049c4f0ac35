-- ===== src/Workspaces/State/Laws.antt =====
-- What the polling answer reveals, and to whom.
use starfire_agent_team.Prelude.{
  ℕ, String, Bool, true, false, ◌≡◌, ◌⊎◌, inl, inr, some, arith, Option-cases,
}
use starfire_agent_team.World.StatusColumn.{Status, paused, removed, is}
use starfire_agent_team.World.{Workspace, World, workspace}
use starfire_agent_team.WsAuth
use starfire_agent_team.WsAuth.{has_any_live_token, validate_token, bearer_token_from_header}
use starfire_agent_team.Workspaces.State.{state, get_state}

module _ (sha256 : String → String) (query_fails : Bool) (auth : WsAuth.Call → Bool) where
  workspaces-validate_token :
      (now : ℕ) (i token : String) (w : World)
      → (validate_token sha256 auth now i token w).0.workspaces ≡ w.workspaces
  unfolding validate_token
  workspaces-validate_token now i token w = ground arith

  -- A status is answered only for a workspace on file that is not removed, together with whether it
  -- is paused; and only where the workspace is known to have no live token, or the bearer token is
  -- valid for it: the check fails closed.
  pub get_state_sound :
      (now : ℕ) (header i : String) (w : World) (s : Status) (p : Bool)
      → (get_state sha256 query_fails auth now header i w).1 ≡ state s p
      → ((r : Workspace) × (workspace i w ≡ some r)
          × (r.status ≡ s)
          × (is s removed ≡ false)
          × (p ≡ is s paused))
        × ((has_any_live_token auth i w ≡ some false)
            ⊎ ((validate_token sha256 auth now i (bearer_token_from_header header) w).1 ≡ true))
  unfolding get_state workspace
  get_state_sound now header i w s p e = elim (Option-cases (workspace i w)) [
    | inl missing ↦ absurd (
        ground
          (arith, missing, workspaces-validate_token now i (bearer_token_from_header header) w))
    | inr (r, found) ↦ (
      (
        r,
        found,
        ground (arith, found, workspaces-validate_token now i (bearer_token_from_header header) w),
        ground (arith, found, workspaces-validate_token now i (bearer_token_from_header header) w),
        ground (arith, found, workspaces-validate_token now i (bearer_token_from_header header) w),
      ),
      ground (arith, found, workspaces-validate_token now i (bearer_token_from_header header) w),
    )
  ]
