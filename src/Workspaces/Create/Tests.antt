-- ===== src/Workspaces/Create/Tests.antt =====
-- Creation, patches and provisioning at concrete workspaces.
use starfire_agent_team.Prelude.{
  ℕ, String, Bool, true, false, ◌≡◌, refl, ◌⊎◌, Option, none, some, List, [], ◌∷◌,
}
use starfire_agent_team.Text.{
  is_empty, is_space, trim_left, trim_right, trim_space, split_lines, contains_char,
}
use starfire_agent_team.World.StatusColumn.{online}
use starfire_agent_team.World.{Workspace, workspace}
use starfire_agent_team.Samples.{family}
use starfire_agent_team.Json.{Json, null, text, empty, member}
use starfire_agent_team.Crypto.{Bytes}
use starfire_agent_team.Secrets.{Vault, merged, served}
use starfire_agent_team.Monitor.{Checker, offline_row, sweep_online_workspaces}
use starfire_agent_team.Workspaces.Dir.{validate_workspace_dir}
use starfire_agent_team.Workspaces.Restart.{runtime_line}
use starfire_agent_team.Workspaces.Create.{CreatePayload, Launch, with_defaults, create}
use starfire_agent_team.Workspaces.Create.DefaultConfig.{ensure_default_config, runtime_name}
use starfire_agent_team.Workspaces.Create.Laws.{external_swept}
use starfire_agent_team.Workspaces.Create.Readback.{runtime_of_default_config}
use starfire_agent_team.Workspaces.Provision.{build_provisioner_config, env_vars_of}
use starfire_agent_team.Workspaces.Provision.Laws.{bundle_of, env_vars_of_lem}
use starfire_agent_team.Workspaces.Mounts.{Request, creation, patch, run, run-mounts}

abbrev works {ℓ} : {A : Type ℓ} → A → Bool
works _ = false

abbrev clean : String → String
clean s = s

abbrev no_template : String → Option String
no_template s = none

abbrev remote : CreatePayload
remote = record {
  name = "remote";
  role = "";
  template = "";
  tier = 0;
  model = "";
  runtime = "";
  external = true;
  url = "http://203.0.113.7:8000";
  workspace_dir = "";
  workspace_access = "";
  parent_id = none;
}

abbrev with_dir : CreatePayload
with_dir = record remote {
  external = false;
  workspace_dir = "/srv/code";
  workspace_access = "read_only";
}

abbrev no_container : Checker
no_container i = some false

external_swept_example :
    let out = (create works true no_template clean 5 "new" (some remote) family).0 in
    (r : Workspace) × (workspace "new" out ≡ some r)
    × (r.runtime ≡ some "langgraph")
    × (r.status ≡ online)
    × (workspace "new" (sweep_online_workspaces false works no_container 9 out).0
        ≡ some (offline_row 9 r))
unfolding create
external_swept_example =
    external_swept works true clean no_template 5 9 "new" remote works no_container family refl refl
      refl refl (refl, (refl, (refl, (refl, tt)))) refl refl refl refl refl

abbrev as_column : Json → Option (Option String)
as_column null = some none
as_column (text s) = some (some s)
as_column _ = none

abbrev as_int : Json → Option ℕ
as_int _ = none

abbrev requests : List Request
requests =
    creation works true no_template 5 "new" (some with_dir)
    ∷ patch works 6 "new" (some (member "workspace_dir" (text "/srv/other") empty))
    ∷ patch works 7 "new" (some (member "workspace_dir" (text "/etc") empty))
    ∷ []

abbrev restarted : Launch
restarted = record { template_path = none; config_file = none; payload = remote }

run-mounts_example :
    let c =
      build_provisioner_config works "/home/agents" "new" restarted
        (λ k. none)
        "workspace:new"
        (run clean as_column as_int requests family) in
    (c.workspace_path ≡ "/home/agents") ⊎ (validate_workspace_dir clean c.workspace_path ≡ true)
run-mounts_example =
    run-mounts clean as_column as_int refl (λ s. refl) requests family works "/home/agents" "new"
      restarted (λ k. none) "workspace:new" refl refl refl

abbrev vault : Vault
vault = record {
  secrets =
      record {
        workspace_id = "root";
        secret = record {
          key = "TOKEN";
          encrypted_value = 7 ∷ [];
          encryption_version = 0;
          created_at = 1;
          updated_at = 1;
        };
      }
      ∷ [];
  globals = [];
}

abbrev no_cipher : Bytes → Bytes → Bytes → Option Bytes
no_cipher key nonce value = none

env_vars_of_lem_example :
    env_vars_of no_cipher [] works "root" vault
    ≡ bundle_of (served (merged no_cipher [] works "root" vault))
env_vars_of_lem_example = env_vars_of_lem no_cipher [] works "root" vault

abbrev one : ℕ → String
one n = "1"

abbrev star : String → String
star s = "*"

abbrev coder : CreatePayload
coder = record remote { name = "a: b"; runtime = "claude-code" }

runtime_of_default_config_example :
    runtime_line (split_lines (ensure_default_config one star coder)) ≡ some (runtime_name coder)
unfolding contains_char trim_space
runtime_of_default_config_example =
    runtime_of_default_config one star (λ n. refl) (λ s. refl) coder refl refl

default_tier : (with_defaults no_template remote).tier ≡ 1
unfolding with_defaults
default_tier = refl

etc_is_refused :
    (create works true no_template clean 5 "new"
      (some (record with_dir { workspace_dir = "/etc/ssh" }))
      family).1.code
    ≡ 400
unfolding create starfire_agent_team.Text.contains
etc_is_refused = refl

access_needs_dir :
    (create works true no_template clean 5 "new"
      (some (record remote { workspace_access = "read_only" }))
      family).1.code
    ≡ 400
unfolding create
access_needs_dir = refl
