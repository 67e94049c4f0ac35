-- ===== src/Registry/Tombstone.antt =====
-- The #73 guard of Register: a late registration does not resurrect a removed workspace.
use starfire_agent_team.Prelude.{ℕ, String, Bool, true, ◌≡◌, refl, Option, none, some, arith, List}
use starfire_agent_team.Sql.{first}
use starfire_agent_team.World.{
  Workspace, World, Response, has_id, with_workspaces, record_and_broadcast,
}
use starfire_agent_team.World.Laws.{removed_at, removed_at-update, removed_at-insert, is_removed}
use starfire_agent_team.WsAuth
use starfire_agent_team.WsAuth.{issue_token, has_any_live_token}
use starfire_agent_team.Registry.Payload.{RegisterPayload, UpdateCardPayload}
use starfire_agent_team.Registry.Gate.{require_workspace_token}
use starfire_agent_team.Registry.Gate.Laws.{workspaces-require_workspace_token}
use starfire_agent_team.Registry.{
  Call, inserted, registered, upsert_workspace, announce, first_token, with_token, register,
  store_card, after_gate, update_card,
}

upsert_workspace-removed :
    (now : ℕ) (p : RegisterPayload) (i : String) (rows : List Workspace) (o : Option Workspace)
    → first (has_id p.id) rows ≡ o
    → removed_at i rows ≡ true
    → removed_at i (upsert_workspace now p rows) ≡ true
unfolding upsert_workspace
upsert_workspace-removed now p i rows none e h =
    rw (e, upsert_workspace) (removed_at-insert (inserted now p) i rows h)
upsert_workspace-removed now p i rows (some r) e h =
    rw (e, upsert_workspace)
      (removed_at-update _ (registered now p) (λ q. refl) (λ q t d. ground arith) i rows h)

module _ (sha256 : String → String) (fails : Call → Bool) (auth : WsAuth.Call → Bool) where
  pub workspaces-announce :
      (now : ℕ) (p : RegisterPayload) (w : World)
      → (announce sha256 fails auth now p w).workspaces ≡ w.workspaces
  unfolding announce record_and_broadcast
  workspaces-announce now p w = ground arith

  pub workspaces-first_token :
      (new_id : ℕ) (random : Option String) (i : String) (w : World)
      → (first_token sha256 fails auth new_id random i w).0.workspaces ≡ w.workspaces
  unfolding first_token issue_token with_token
  workspaces-first_token new_id none i w = ground arith
  workspaces-first_token new_id (some r) i w = ground arith

  -- A removed workspace stays removed through any registration, its own included, whichever
  -- statements fail.
  pub register-removed :
      (now new_id : ℕ) (random : Option String) (p : Option RegisterPayload) (i : String)
      (w : World)
      → is_removed i w ≡ true
      → is_removed i (register sha256 fails auth now new_id random p w).0 ≡ true
  unfolding register
  register-removed now new_id random none i w h = h
  register-removed now new_id random (some p) i w h = ground (
    arith,
    workspaces-first_token new_id random p.id
        (announce sha256 fails auth now p (with_workspaces (upsert_workspace now p) w)),
    workspaces-announce now p (with_workspaces (upsert_workspace now p) w),
    upsert_workspace-removed now p i w.workspaces (first (has_id p.id) w.workspaces) refl h,
  )

  removed-after_gate :
      (now : ℕ) (p : UpdateCardPayload) (i : String) (g : World × Option Response)
      → removed_at i g.0.workspaces ≡ true
      → removed_at i (after_gate sha256 fails auth now p g).0.workspaces ≡ true
  unfolding after_gate store_card record_and_broadcast
  removed-after_gate now p i (w, some refused) h = h
  removed-after_gate now p i (w, none) h = ground (
    arith,
    removed_at-update (has_id p.workspace_id)
        (λ r. record r { agent_card = p.agent_card; updated_at = now }) (λ r. refl) (λ r q t. t) i
        w.workspaces h,
  )

  pub update_card-removed :
      (now : ℕ) (header : String) (p : Option UpdateCardPayload) (i : String) (w : World)
      → is_removed i w ≡ true
      → is_removed i (update_card sha256 fails auth now header p w).0 ≡ true
  unfolding update_card
  update_card-removed now header none i w h = h
  update_card-removed now header (some p) i w h =
      removed-after_gate now p i (require_workspace_token sha256 auth now header p.workspace_id w)
        (rw workspaces-require_workspace_token h)
