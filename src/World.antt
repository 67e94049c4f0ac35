-- ===== src/World.antt =====
-- The state that the handlers of platform/internal/handlers share: the tables `workspaces`
-- (models/workspace.go), `workspace_auth_tokens` and `structure_events`, and the Redis keys
-- (db/redis.go). A call of Postgres or Redis that fails changes nothing: `attempt`.
pub mod StatusColumn
pub mod Redis
pub mod Laws
pub mod Unique
use StatusColumn.{Status}
use Redis.{Cache}
use starfire_agent_team.Prelude.{
  ℕ, ◌≡◌, String, Bool, true, Option, none, some, List, [], ◌∷◌, ◌++◌, if◌then◌else◌, ◌==◌,
}
use starfire_agent_team.Sql.{first, update}

-- A row of `workspaces`. The error rate is a float64 in units of 2^-1074, the last bit of the
-- smallest one; the agent card is the JSON text. Timestamps are seconds. Columns that every query
-- reads through COALESCE(…, '') hold "" for NULL.
pub record Workspace : Type 0 where
  pub id : String
  pub name : String
  pub role : Option String
  pub tier : ℕ
  pub runtime : Option String
  pub status : Status
  pub agent_card : String
  pub url : Option String
  pub parent_id : Option String
  pub forwarded_to : Option String
  pub last_heartbeat_at : Option ℕ
  pub last_error_rate : ℕ
  pub last_sample_error : String
  pub active_tasks : ℕ
  pub uptime_seconds : ℕ
  pub current_task : Option String
  pub awareness_namespace : Option String
  pub workspace_dir : Option String
  pub workspace_access : String
  pub updated_at : ℕ

-- A row of `workspace_auth_tokens`.
pub record Token : Type 0 where
  pub id : ℕ
  pub workspace_id : String
  pub token_hash : String
  pub prefix : String
  pub revoked : Bool
  pub last_used_at : Option ℕ

-- An event as it is broadcast: its type and the workspace that it is about. `recorded` tells
-- RecordAndBroadcast, which also writes `structure_events`, from BroadcastOnly.
pub record Event : Type 0 where
  pub recorded : Bool
  pub kind : String
  pub workspace_id : String

-- What the platform asks of Docker: the calls of provisioner.Stop and RemoveVolume, and a start of
-- `go provisionWorkspace`.
pub data Command : Type 0 where
  stop remove_volume provision : String → Command

pub record World : Type 0 where
  pub workspaces : List Workspace
  pub tokens : List Token
  pub cache : Cache
  pub events : List Event
  pub commands : List Command

-- What a handler writes as its answer: the HTTP status and the members of the JSON body that a
-- caller acts on, without the texts of driver errors.
pub record Response : Type 0 where
  pub code : ℕ
  pub fields : List (String × String)

abbrev pub reply : ℕ → List (String × String) → Response
reply code fields = record { code = code; fields = fields }

abbrev pub error : ℕ → String → Response
error code text = reply code (("error", text) ∷ [])

abbrev pub attempt {ℓ} : {A : Type ℓ} → Bool → (A → A) → A → A
attempt failed f a = if failed then a else f a

abbrev pub order : List Command → World → World
order cs w = record w { commands = w.commands ++ cs }

-- WHERE id = $1
abbrev pub has_id : String → Workspace → Bool
has_id i r = r.id == i

-- SELECT … FROM workspaces WHERE id = $1
unfoldable pub workspace : String → World → Option Workspace
workspace i w = first (has_id i) w.workspaces

abbrev pub with_workspaces : (List Workspace → List Workspace) → World → World
with_workspaces f w = record w { workspaces = f w.workspaces }

abbrev pub with_cache : (Cache → Cache) → World → World
with_cache f w = record w { cache = f w.cache }

-- The insert and the broadcast stand or fall together.
unfoldable pub record_and_broadcast : Bool → String → String → World → World
record_and_broadcast failed kind i w = if failed then w else record w {
  events = w.events ++ record { recorded = true; kind = kind; workspace_id = i } ∷ [];
}
