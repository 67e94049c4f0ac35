-- ===== src/Registry/Laws.antt =====
-- What a registration stores and answers.
use starfire_agent_team.Prelude.{
  ℕ, String, Bool, true, false, ◌≡◌, refl, Option, none, some, arith, List, [], ◌∷◌, ◌++◌, ◌&&◌,
  not, eq_refl, if◌then◌else◌, ◌∙◌, ap, any,
}
use starfire_agent_team.Sql.{first}
use starfire_agent_team.Sql.Laws.{count_pos}
use starfire_agent_team.World.StatusColumn.{online, removed, is}
use starfire_agent_team.World.{
  Workspace, World, Response, reply, has_id, with_workspaces, record_and_broadcast, workspace,
}
use starfire_agent_team.World.Laws.{first-has_id-update, has_id_of_first}
use starfire_agent_team.WsAuth
use starfire_agent_team.WsAuth.{issue_token, has_any_live_token, live_of}
use starfire_agent_team.Registry.Payload.{RegisterPayload}
use starfire_agent_team.Registry.{
  Call, is_provisioner_url, inserted, registered, upsert_workspace, announce, first_token,
  with_token, register,
}
use starfire_agent_team.Registry.Tombstone.{workspaces-announce, workspaces-first_token}

abbrev pub no_failure : Call → Bool
no_failure _ = false

-- The row that a registration leaves, by the row that it found.
abbrev pub after_register : ℕ → RegisterPayload → Option Workspace → Workspace
after_register now p none = inserted now p
after_register now p (some r) = if is r.status removed then r else record r {
  url = if is_provisioner_url r.url then r.url else some p.url;
  agent_card = p.agent_card;
  status = online;
  last_heartbeat_at = some now;
  updated_at = now;
}

first-insert :
    (i : String) (new : Workspace) (rows : List Workspace)
    → first (has_id i) rows ≡ none
    → has_id i new ≡ true
    → first (has_id i) (rows ++ new ∷ []) ≡ some new
unfolding first
first-insert i new [] e h = ground arith
first-insert i new (r ∷ rows) e h = ground (arith, first-insert i new rows)

row-upsert :
    (now : ℕ) (p : RegisterPayload) (rows : List Workspace) (o : Option Workspace)
    → first (has_id p.id) rows ≡ o
    → first (has_id p.id) (upsert_workspace now p rows) ≡ some (after_register now p o)
unfolding upsert_workspace registered
row-upsert now p rows none e =
    rw (e, upsert_workspace) (first-insert p.id (inserted now p) rows e (eq_refl p.id))
row-upsert now p rows (some r) e =
    rw (e, upsert_workspace)
      (first-has_id-update p.id (λ q. has_id p.id q && not (is q.status removed)) (registered now p)
          (λ q. refl) rows (some r) e
        ∙ ground (arith, has_id_of_first p.id rows r e))

module _ (sha256 : String → String) (auth : WsAuth.Call → Bool) where
  -- A registration of which no statement fails leaves in its row: for a new id, a workspace that is
  -- online at the reported URL; for one on file, the same workspace online with the new card and
  -- the reported URL, unless the URL on file is a provisioner's; for a removed one, the row as it
  -- was.
  pub workspace-register :
      (now new_id : ℕ) (random : Option String) (p : RegisterPayload) (w : World)
      → workspace p.id (register sha256 no_failure auth now new_id random (some p) w).0
        ≡ some (after_register now p (workspace p.id w))
  unfolding register workspace
  workspace-register now new_id random p w =
      ap (first (has_id p.id)) (
        workspaces-first_token sha256 no_failure auth new_id random p.id _
        ∙ workspaces-announce sha256 no_failure auth now p _)
      ∙ row-upsert now p w.workspaces (first (has_id p.id) w.workspaces) refl

  tokens-announce :
      (now : ℕ) (p : RegisterPayload) (w : World)
      → (announce sha256 no_failure auth now p w).tokens ≡ w.tokens
  unfolding announce record_and_broadcast
  tokens-announce now p w = ground arith

abbrev pub registered_answer : Option String → Response
registered_answer none = reply 200 (("status", "registered") ∷ [])
registered_answer (some token) = reply 200 (("status", "registered") ∷ ("auth_token", token) ∷ [])

module _ (sha256 : String → String) (new_id : ℕ) (i : String) (x w : World)
    (e : x.tokens ≡ w.tokens) where
  first_token_lem :
      (random : Option String)
      → ((first_token sha256 no_failure WsAuth.healthy new_id random i x).0.tokens ≡ (
          if any (live_of i) w.tokens
          then w.tokens
          else (issue_token sha256 WsAuth.healthy new_id random i w).0.tokens))
        × ((first_token sha256 no_failure WsAuth.healthy new_id random i x).1
            ≡ registered_answer (
                if any (live_of i) w.tokens
                then none
                else (issue_token sha256 WsAuth.healthy new_id random i w).1))
  unfolding first_token with_token issue_token has_any_live_token
  first_token_lem none = (
    ground (arith, count_pos (live_of i) x.tokens),
    ground (arith, count_pos (live_of i) x.tokens),
  )
  first_token_lem (some r) = (
    ground (arith, count_pos (live_of i) x.tokens),
    ground (arith, count_pos (live_of i) x.tokens),
  )

-- A registration of which no statement fails returns no token where the workspace already has a
-- live one, and then leaves the tokens on file as they were; where it has none, it stores and
-- returns the token that it issues, if the issue succeeds.
pub token-register :
    (sha256 : String → String) (now new_id : ℕ) (random : Option String) (p : RegisterPayload)
    (w : World)
    → let v = register sha256 no_failure WsAuth.healthy now new_id random (some p) w in
      let u = issue_token sha256 WsAuth.healthy new_id random p.id w in
      (v.0.tokens ≡ (if any (live_of p.id) w.tokens then w.tokens else u.0.tokens))
      × (v.1 ≡ registered_answer (if any (live_of p.id) w.tokens then none else u.1))
unfolding register
token-register sha256 now new_id random p w =
    first_token_lem sha256 new_id p.id _ w
      (tokens-announce sha256 WsAuth.healthy now p (with_workspaces (upsert_workspace now p) w))
      random
