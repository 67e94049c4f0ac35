-- ===== src/Registry.antt =====
-- handlers/registry.go: agents register, send heartbeats and update their card. A request body that
-- ShouldBindJSON refuses is `none`. Which statement fails is the argument `fails`, for wsauth `auth`.
pub mod Payload
pub mod Gate
pub mod Heartbeat
pub mod Laws
pub mod Tombstone
mod Tests
use Payload.{RegisterPayload, UpdateCardPayload}
use Gate.{require_workspace_token}
use starfire_agent_team.Prelude.{
  ℕ, String, Bool, true, false, Option, none, some, List, [], ◌∷◌, ◌++◌, not, ◌&&◌, if◌then◌else◌,
  ◌==◌,
}
use starfire_agent_team.Sql.{first, update}
use starfire_agent_team.Text.{has_prefix}
use starfire_agent_team.World.StatusColumn.{Status, online, removed, is}
use starfire_agent_team.World.Redis.{set_online, cache_url, cache_internal_url}
use starfire_agent_team.World.{
  Workspace, World, Response, reply, error, attempt, has_id, workspace, with_workspaces, with_cache,
  record_and_broadcast,
}
use starfire_agent_team.WsAuth
use starfire_agent_team.WsAuth.{issue_token, has_any_live_token}

-- The calls of Postgres, Redis and the broadcaster in Register and UpdateCard that can fail.
pub data Call : Type 0 where
  upsert liveness read_url cache cache_internal broadcast update_card_row : Call

-- url LIKE 'http://127.0.0.1%', false on NULL
abbrev pub is_provisioner_url : Option String → Bool
is_provisioner_url none = false
is_provisioner_url (some u) = has_prefix u "http://127.0.0.1"

abbrev inserted : ℕ → RegisterPayload → Workspace
inserted now p = record {
  id = p.id;
  name = p.id;
  role = none;
  tier = 1;
  runtime = some "langgraph";
  status = online;
  agent_card = p.agent_card;
  url = some p.url;
  parent_id = none;
  forwarded_to = none;
  last_heartbeat_at = some now;
  last_error_rate = 0;
  last_sample_error = "";
  active_tasks = 0;
  uptime_seconds = 0;
  current_task = none;
  awareness_namespace = none;
  workspace_dir = none;
  workspace_access = "none";
  updated_at = now;
}

registered : ℕ → RegisterPayload → Workspace → Workspace
registered now p r = record r {
  url = if is_provisioner_url r.url then r.url else some p.url;
  agent_card = p.agent_card;
  status = online;
  last_heartbeat_at = some now;
  updated_at = now;
}

-- INSERT … ON CONFLICT (id) DO UPDATE … WHERE status IS DISTINCT FROM 'removed'
unfoldable pub upsert_workspace : ℕ → RegisterPayload → List Workspace → List Workspace
unfolding registered
upsert_workspace now p rows = elim (first (has_id p.id) rows) [
  | none ↦ rows ++ inserted now p ∷ []
  | some r ↦ update (λ q. has_id p.id q && not (is q.status removed)) (registered now p) rows
]

-- The URL to cache: a provisioner's URL in the row wins over the reported one.
preferred_url : String → Option Workspace → String
preferred_url reported none = reported
preferred_url reported (some r) = elim r.url [
  | none ↦ reported
  | some u ↦ if has_prefix u "http://127.0.0.1" then u else reported
]

module _ (sha256 : String → String) (fails : Call → Bool) (auth : WsAuth.Call → Bool) where
  -- The Redis writes and the broadcast that follow the upsert.
  pub announce : ℕ → RegisterPayload → World → World
  unfolding preferred_url
  announce now p w =
      let row = if fails read_url then none else workspace p.id w in
      let cached = preferred_url p.url row in
      let w1 = attempt (fails liveness) (with_cache (set_online now p.id)) w in
      let w2 = attempt (fails cache) (with_cache (cache_url now p.id cached)) w1 in
      let w3 = attempt (fails cache_internal) (with_cache (cache_internal_url now p.id p.url)) w2 in
      record_and_broadcast (fails broadcast) "WORKSPACE_ONLINE" p.id w3

  with_token : World × Option String → World × Response
  with_token (w, none) = (w, reply 200 (("status", "registered") ∷ []))
  with_token (w, some token) =
      (w, reply 200 (("status", "registered") ∷ ("auth_token", token) ∷ []))

  -- A first token, where the workspace has none that is live.
  pub first_token : ℕ → Option String → String → World → World × Response
  unfolding with_token
  first_token new_id random i w = elim (has_any_live_token auth i w) [
    | some false ↦ with_token (issue_token sha256 auth new_id random i w)
    | _ ↦ with_token (w, none)
  ]

  unfoldable pub register :
      ℕ → ℕ → Option String → Option RegisterPayload → World → World × Response
  unfolding announce first_token
  register now new_id random none w = (w, error 400 "bad request")
  register now new_id random (some p) w =
      if fails upsert
      then (w, error 500 "failed to register")
      else first_token new_id random p.id
          (announce now p (with_workspaces (upsert_workspace now p) w))

  store_card : ℕ → UpdateCardPayload → World → World × Response
  store_card now p w = if fails update_card_row then (w, error 500 "failed to update card") else (
    record_and_broadcast (fails broadcast) "AGENT_CARD_UPDATED" p.workspace_id (
        with_workspaces
          (update (has_id p.workspace_id)
            (λ r. record r { agent_card = p.agent_card; updated_at = now }))
          w),
    reply 200 (("status", "updated") ∷ []),
  )

  after_gate : ℕ → UpdateCardPayload → World × Option Response → World × Response
  unfolding store_card
  after_gate now p (w, some refused) = (w, refused)
  after_gate now p (w, none) = store_card now p w

  unfoldable pub update_card : ℕ → String → Option UpdateCardPayload → World → World × Response
  unfolding after_gate
  update_card now header none w = (w, error 400 "bad request")
  update_card now header (some p) w =
      after_gate now p (require_workspace_token sha256 auth now header p.workspace_id w)
