-- ===== src/Registry/Payload.antt =====
-- The request bodies of models/workspace.go that the registry reads.
use starfire_agent_team.Prelude.{ℕ, String}

pub record RegisterPayload : Type 0 where
  pub id : String
  pub url : String
  pub agent_card : String

-- The error rate as in World.Workspace; a negative one acts as 0.
pub record HeartbeatPayload : Type 0 where
  pub workspace_id : String
  pub error_rate : ℕ
  pub sample_error : String
  pub active_tasks : ℕ
  pub uptime_seconds : ℕ
  pub current_task : String

pub record UpdateCardPayload : Type 0 where
  pub workspace_id : String
  pub agent_card : String
