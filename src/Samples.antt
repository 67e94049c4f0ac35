-- ===== src/Samples.antt =====
-- Worlds that the tests of several modules run on: four workspaces, of which `root` is the parent
-- of `mid`, `mid` of `leaf`, and `gone` is removed; and one live token of `root`.
use starfire_agent_team.Prelude.{String, Option, none, some, List, [], ◌∷◌, concat, false}
use starfire_agent_team.World.StatusColumn.{Status, online, offline, degraded, paused, removed}
use starfire_agent_team.World.Redis.{Cache}
use starfire_agent_team.World.{Workspace, Token, World}

-- An injective stand-in for the hex text of a SHA-256 hash.
abbrev pub sha : String → String
sha s = concat "hash of " s

abbrev pub row : String → Status → Option String → Workspace
row i s parent = record {
  id = i;
  name = concat "the " i;
  role = none;
  tier = 1;
  runtime = some "langgraph";
  status = s;
  agent_card = "{}";
  url = some "http://127.0.0.1:8001";
  parent_id = parent;
  forwarded_to = none;
  last_heartbeat_at = some 100;
  last_error_rate = 0;
  last_sample_error = "";
  active_tasks = 0;
  uptime_seconds = 50;
  current_task = none;
  awareness_namespace = none;
  workspace_dir = none;
  workspace_access = "none";
  updated_at = 90;
}

abbrev pub empty_cache : Cache
empty_cache = record { liveness = λ i. none; url = λ i. none; internal_url = λ i. none }

abbrev pub root_token : Token
root_token = record {
  id = 1;
  workspace_id = "root";
  token_hash = "hash of secret";
  prefix = "secret";
  revoked = false;
  last_used_at = none;
}

abbrev pub world_of : List Workspace → World
world_of rows = record {
  workspaces = rows;
  tokens = root_token ∷ [];
  cache = empty_cache;
  events = [];
  commands = [];
}

abbrev pub with_mid : Status → World
with_mid s = world_of (
    row "root" online none
    ∷ row "mid" s (some "root")
    ∷ row "leaf" degraded (some "mid")
    ∷ row "gone" removed none
    ∷ [])

abbrev pub family : World
family = with_mid offline

abbrev pub paused_family : World
paused_family = with_mid paused
