-- ===== src/Agents.antt =====
-- handlers/agent.go: which agent runs in a workspace. Answers of driver errors are without their
-- texts.
pub mod Laws
mod Tests
use starfire_agent_team.Prelude.{
  ℕ, String, Bool, true, false, ◌&&◌, not, Option, none, some, List, [], ◌∷◌, ◌++◌, if◌then◌else◌,
  ◌==◌, any, ltb,
}
use starfire_agent_team.Text.{is_empty}
use starfire_agent_team.Sql.{first, update, count}
use starfire_agent_team.World.{World, Response, reply, error, has_id, record_and_broadcast}

pub data AgentStatus : Type 0 where
  active replaced removed : AgentStatus

-- A row of `agents`.
pub record Agent : Type 0 where
  pub id : String
  pub workspace_id : String
  pub model : String
  pub status : AgentStatus
  pub removed_at : Option ℕ
  pub removal_reason : String
  pub created_at : ℕ

pub record Roster : Type 0 where
  pub world : World
  pub agents : List Agent

-- The statements of this file that can fail.
pub data Call : Type 0 where
  find_workspace count_agents insert_agent update_agents announce announce_target : Call

abbrev pub is_active : AgentStatus → Bool
is_active active = true
is_active _ = false

-- WHERE workspace_id = $1 AND status = 'active'
abbrev pub runs_in : String → Agent → Bool
runs_in i a = a.workspace_id == i && is_active a.status

abbrev pub new_agent : ℕ → String → String → String → Agent
new_agent now id i model = record {
  id = id;
  workspace_id = i;
  model = model;
  status = active;
  removed_at = none;
  removal_reason = "";
  created_at = now;
}

abbrev pub end_agent : ℕ → AgentStatus → String → Agent → Agent
end_agent now status reason a = record a {
  status = status;
  removed_at = some now;
  removal_reason = reason;
}

abbrev pub move_to : String → Agent → Agent
move_to target a = record a { workspace_id = target }

module _ (fails : Call → Bool) where
  unfoldable pub insert_new :
      ℕ → String → String → String → String → Response → Roster → Roster × Response
  insert_new now id i kind model refusal s = if fails insert_agent then (s, refusal) else (
    record {
      world = record_and_broadcast (fails announce) kind i s.world;
      agents = s.agents ++ new_agent now id i model ∷ [];
    },
    reply (if kind == "AGENT_ASSIGNED" then 201 else 200)
        (("agent_id", id) ∷ ("model", model) ∷ []),
  )

  -- A workspace that can get an agent: it is on file, and has none.
  unfoldable pub vacancy : Response → Response → String → Roster → Option Response
  vacancy missing occupied i s =
      if fails find_workspace
      then some (error 500 "lookup failed")
      else if not (any (has_id i) s.world.workspaces)
      then some missing
      else if fails count_agents
      then some (error 500 "lookup failed")
      else if ltb 0 (count (runs_in i) s.agents)
      then some occupied
      else none

  abbrev pub assign_after :
      ℕ → String → String → String → Option Response → Roster → Roster × Response
  assign_after now id i model (some refusal) s = (s, refusal)
  assign_after now id i model none s =
      insert_new now id i "AGENT_ASSIGNED" model (error 500 "failed to assign agent") s

  -- The new id is an argument; `none` and an empty model are a body that does not bind.
  unfoldable pub assign : ℕ → String → String → Option String → Roster → Roster × Response
  unfolding vacancy
  assign now id i none s = (s, error 400 "bad body")
  assign now id i (some model) s =
      if is_empty model
      then (s, error 400 "bad body")
      else assign_after now id i model
          (vacancy (error 404 "workspace not found")
            (error 409 "workspace already has an active agent, use PATCH to replace") i s)
          s

  -- UPDATE agents SET … WHERE workspace_id = $1 AND status = 'active' RETURNING …
  abbrev pub updated_agents : (Agent → Agent) → String → Roster → Roster
  updated_agents f i s = record s { agents = update (runs_in i) f s.agents }

  unfoldable pub replace : ℕ → String → String → Option String → Roster → Roster × Response
  replace now id i none s = (s, error 400 "bad body")
  replace now id i (some model) s =
      if is_empty model
      then (s, error 400 "bad body")
      else if fails update_agents
      then (s, error 500 "failed to replace agent")
      else if not (any (runs_in i) s.agents)
      then (s, error 404 "no active agent to replace")
      else insert_new now id i "AGENT_REPLACED" model (error 500 "failed to assign replacement")
          (updated_agents (end_agent now replaced "model_replaced") i s)

  unfoldable pub remove : ℕ → String → Roster → Roster × Response
  remove now i s =
      if fails update_agents
      then (s, error 500 "failed to remove agent")
      else elim (first (runs_in i) s.agents) [
        | none ↦ (s, error 404 "no active agent to remove")
        | some a ↦ (
          record {
            world = record_and_broadcast (fails announce) "AGENT_REMOVED" i s.world;
            agents = update (runs_in i) (end_agent now removed "manual_removal") s.agents;
          },
          reply 200 (("status", "removed") ∷ ("agent_id", a.id) ∷ []),
        )
      ]

  unfoldable pub moved : String → String → Option Agent → Roster → Roster × Response
  moved i target none s = (s, error 404 "no active agent in source workspace")
  moved i target (some a) s = (
    record {
      world =
          record_and_broadcast (fails announce_target) "AGENT_MOVED" target
            (record_and_broadcast (fails announce) "AGENT_MOVED" i s.world);
      agents = update (runs_in i) (move_to target) s.agents;
    },
    reply 200 (
        ("agent_id", a.id)
        ∷ ("model", a.model)
        ∷ ("from_workspace", i)
        ∷ ("to_workspace", target)
        ∷ []),
  )

  abbrev pub move_after : String → String → Option Response → Roster → Roster × Response
  move_after i target (some refusal) s = (s, refusal)
  move_after i target none s =
      if fails update_agents
      then (s, error 500 "failed to move agent")
      else moved i target (first (runs_in i) s.agents) s

  unfoldable pub move : String → Option String → Roster → Roster × Response
  unfolding vacancy
  move i none s = (s, error 400 "bad body")
  move i (some target) s =
      if is_empty target
      then (s, error 400 "bad body")
      else move_after i target
          (vacancy (error 404 "target workspace not found")
            (error 409 "target workspace already has an active agent") target s)
          s
