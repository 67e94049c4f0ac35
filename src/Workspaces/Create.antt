-- ===== src/Workspaces/Create.antt =====
-- Create and Update of handlers/workspace.go, and ValidateWorkspaceAccess of
-- provisioner/provisioner.go. The templates on disk are two parameters: `config_of` is the text of
-- a template's config.yaml, `none` where it cannot be read, and `exists` is os.Stat of a template's
-- directory. Canvas positions are not modelled.
pub mod DefaultConfig
pub mod Laws
pub mod Housed
pub mod Readback
mod Tests
pub use DefaultConfig.{CreatePayload}
use DefaultConfig.{ensure_default_config}
use starfire_agent_team.Prelude.{
  ℕ, String, Bool, true, false, ◌&&◌, ◌||◌, not, Option, none, some, List, [], ◌∷◌, ◌++◌, ◌==◌,
  if◌then◌else◌, or_else, concat, eqb,
}
use starfire_agent_team.Sql.{update}
use starfire_agent_team.Text.{is_empty, split_lines}
use starfire_agent_team.World.StatusColumn.{provisioning, online}
use starfire_agent_team.World.Redis.{cache_url}
use starfire_agent_team.World.{
  Workspace, World, provision, Response, reply, error, attempt, order, has_id, with_workspaces,
  with_cache, record_and_broadcast,
}
use starfire_agent_team.Json.{Json, null, text, Members, lookup}
use starfire_agent_team.Workspaces.Restart.{runtime_line}
use starfire_agent_team.Workspaces.Dir.{validate_workspace_dir}

pub data Call : Type 0 where
  insert_row announce write_url write_online cache announce_online : Call

-- What `go provisionWorkspace` is called with: a template's directory below configs, or the text of
-- a config.yaml.
pub record Launch : Type 0 where
  pub template_path : Option String
  pub config_file : Option String
  pub payload : CreatePayload

-- `true` for a nil error.
unfoldable pub validate_workspace_access : String → String → Bool
validate_workspace_access access path =
    if is_empty access || access == "none"
    then true
    else if access == "read_only" || access == "read_write"
    then not (is_empty path)
    else false

abbrev pub workspace_awareness_namespace : String → String
workspace_awareness_namespace i = concat "workspace:" i

-- NULL for ""
abbrev pub nullable : String → Option String
nullable s = if is_empty s then none else some s

abbrev pub first_filled : String → String → String
first_filled s d = if is_empty s then d else s

abbrev pub template_runtime : Option String → String
template_runtime none = ""
template_runtime (some content) = or_else "" (runtime_line (split_lines content))

unfoldable pub created_row : ℕ → String → CreatePayload → Workspace
created_row now i p = record {
  id = i;
  name = p.name;
  role = nullable p.role;
  tier = p.tier;
  runtime = some p.runtime;
  status = provisioning;
  agent_card = "null";
  url = none;
  parent_id = p.parent_id;
  forwarded_to = none;
  last_heartbeat_at = none;
  last_error_rate = 0;
  last_sample_error = "";
  active_tasks = 0;
  uptime_seconds = 0;
  current_task = none;
  awareness_namespace = some (workspace_awareness_namespace i);
  workspace_dir = nullable p.workspace_dir;
  workspace_access = first_filled p.workspace_access "none";
  updated_at = now;
}

abbrev pub online_at : ℕ → String → Workspace → Workspace
online_at now u r = record r { url = some u; status = online; updated_at = now }

abbrev pub online_as_is : ℕ → Workspace → Workspace
online_as_is now r = record r { status = online; updated_at = now }

module _ (config_of : String → Option String) where
  -- The tier and the runtime that Create fills in.
  unfoldable pub with_defaults : CreatePayload → CreatePayload
  with_defaults p = record p {
    tier = if eqb p.tier 0 then 1 else p.tier;
    runtime =
        first_filled
          (if is_empty p.runtime && not (is_empty p.template)
            then template_runtime (config_of p.template)
            else p.runtime)
          "langgraph";
  }

module _ (digits : ℕ → String) (quoted : String → String) (exists : String → Bool) where
  unfoldable pub launch : CreatePayload → Launch
  launch p =
      let generated : Launch = record {
        template_path = none;
        config_file = some (ensure_default_config digits quoted p);
        payload = p;
      } in
      if is_empty p.template
      then generated
      else if exists p.template
      then record { template_path = some p.template; config_file = none; payload = p }
      else if exists (concat p.runtime "-default")
      then record {
        template_path = some (concat p.runtime "-default");
        config_file = none;
        payload = p;
      }
      else generated

module _ (fails : Call → Bool) (has_provisioner : Bool) where
  -- The row, and the event that announces it.
  abbrev pub inserted : ℕ → String → CreatePayload → World → World
  inserted now i p w =
      record_and_broadcast (fails announce) "WORKSPACE_PROVISIONING" i
        (with_workspaces (λ rows. rows ++ created_row now i p ∷ []) w)

  unfoldable pub made_external : ℕ → String → CreatePayload → World → World
  made_external now i p w = record_and_broadcast (fails announce_online) "WORKSPACE_ONLINE" i (
      if is_empty p.url
      then attempt (fails write_online) (with_workspaces (update (has_id i) (online_as_is now))) w
      else attempt (fails cache) (with_cache (cache_url now i p.url))
          (attempt (fails write_url) (with_workspaces (update (has_id i) (online_at now p.url))) w))

  -- The id is the new UUID; `clean` is filepath.Clean.
  unfoldable pub create_checked :
      (String → String) → ℕ → String → CreatePayload → World → World × Response
  unfolding validate_workspace_dir validate_workspace_access created_row made_external
  create_checked clean now i p w =
      if not (is_empty p.workspace_dir) && not (validate_workspace_dir clean p.workspace_dir)
      then (w, error 400 "bad workspace_dir")
      else if not
          (validate_workspace_access (first_filled p.workspace_access "none") p.workspace_dir)
      then (w, error 400 "bad workspace_access")
      else if fails insert_row
      then (w, error 500 "failed to create workspace")
      else if p.external
      then (
        made_external now i p (inserted now i p w),
        reply 201 (("id", i) ∷ ("status", "online") ∷ ("external", "true") ∷ []),
      )
      else (
        order (if has_provisioner then provision i ∷ [] else []) (inserted now i p w),
        reply 201 (
            ("id", i)
            ∷ ("status", "provisioning")
            ∷ ("awareness_namespace", workspace_awareness_namespace i)
            ∷ ("workspace_access", first_filled p.workspace_access "none")
            ∷ []),
      )

  -- A body that does not bind is `none`; the name is required.
  unfoldable pub create :
      (String → Option String)
      → (String → String)
      → ℕ
      → String
      → Option CreatePayload
      → World
      → World × Response
  unfolding create_checked with_defaults
  create config_of clean now i none w = (w, error 400 "bad body")
  create config_of clean now i (some p) w =
      if is_empty p.name
      then (w, error 400 "bad body")
      else create_checked clean now i (with_defaults config_of p) w
