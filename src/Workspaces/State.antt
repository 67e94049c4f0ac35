-- ===== src/Workspaces/State.antt =====
-- State of handlers/workspace.go: the answer to an agent that polls its own status.
pub mod Laws
use starfire_agent_team.Prelude.{
  ℕ, String, Bool, true, false, Option, none, some, List, [], ◌∷◌, if◌then◌else◌,
}
use starfire_agent_team.Text.{is_empty}
use starfire_agent_team.World.StatusColumn.{Status, paused, removed, is}
use starfire_agent_team.World.{Workspace, World, Response, error, workspace}
use starfire_agent_team.WsAuth
use starfire_agent_team.WsAuth.{has_any_live_token, validate_token, bearer_token_from_header}

-- {status, paused, deleted} of the body; the status is missing after a hard delete.
pub data Answer : Type 0 where
  refused : Response → Answer
  gone : Option Status → Answer
  state : Status → Bool → Answer

abbrev answer_for : Option Workspace → Answer
answer_for none = gone none
answer_for (some r) =
    if is r.status removed then gone (some removed) else state r.status (is r.status paused)

module _ (sha256 : String → String) (query_fails : Bool) (auth : WsAuth.Call → Bool) where
  answer_row : String → World → Answer
  answer_row i w =
      if query_fails then refused (error 500 "query failed") else answer_for (workspace i w)

  after_token : String → World × Bool → World × Answer
  after_token i (w, false) = (w, refused (error 401 "invalid workspace auth token"))
  after_token i (w, true) = (w, answer_row i w)

  -- Unlike the gates of the registry this one refuses when the check for a live token fails.
  unfoldable pub get_state : ℕ → String → String → World → World × Answer
  unfolding after_token answer_row
  get_state now header i w = elim (has_any_live_token auth i w) [
    | none ↦ (w, refused (error 500 "auth check failed"))
    | some false ↦ (w, answer_row i w)
    | some true ↦
        let token = bearer_token_from_header header in
        (if is_empty token
          then (w, refused (error 401 "missing workspace auth token"))
          else after_token i (validate_token sha256 auth now i token w))
  ]
