-- ===== src/Workspaces/Provision.antt =====
-- provisionWorkspace, loadAwarenessNamespace and buildProvisionerConfig of
-- handlers/workspace_provision.go. The container's start is the parameter `start`, its URL on the
-- host, "" for none, or an error's text. The path of the plugins and AWARENESS_URL are left out.
pub mod Laws
use starfire_agent_team.Prelude.{
  ℕ, String, Bool, true, false, ◌||◌, Option, none, some, List, [], ◌∷◌, if◌then◌else◌, or_else,
  ◌⊎◌, inl, inr,
}
use starfire_agent_team.Sql.{update}
use starfire_agent_team.Text.{is_empty}
use starfire_agent_team.World.StatusColumn.{failed}
use starfire_agent_team.World.Redis.{cache_url, cache_internal_url}
use starfire_agent_team.World.{
  Workspace, World, attempt, has_id, workspace, with_workspaces, with_cache, record_and_broadcast,
}
use starfire_agent_team.Crypto.{Bytes}
use starfire_agent_team.Secrets.{Secret, Vault, put, plaintext, secrets_of}
use starfire_agent_team.Secrets
use starfire_agent_team.Discovery.{internal_url}
use starfire_agent_team.Workspaces.Create.{
  Launch, CreatePayload, workspace_awareness_namespace, first_filled,
}

pub data Call : Type 0 where
  namespace_row mount_row write_failed write_url cache cache_internal broadcast : Call

-- provisioner.WorkspaceConfig
pub record WorkspaceConfig : Type 0 where
  pub workspace_id : String
  pub template_path : Option String
  pub config_file : Option String
  pub workspace_path : String
  pub workspace_access : String
  pub tier : ℕ
  pub runtime : String
  pub env_vars : String → Option Bytes
  pub awareness_namespace : String

module _ (open_ : Bytes → Bytes → Bytes → Option Bytes) (key : Bytes) where
  -- One of the two loops over secrets, `none` from the first that cannot be decrypted.
  unfoldable pub add_env : List Secret → (String → Option Bytes) → Option (String → Option Bytes)
  add_env [] env = some env
  add_env (s ∷ rows) env = elim (plaintext open_ key s) [
    | none ↦ none
    | some p ↦ add_env rows (put s.key p env)
  ]

  abbrev pub then_own :
      List Secret → Option (String → Option Bytes) → Option (String → Option Bytes)
  then_own rows none = none
  then_own rows (some env) = add_env rows env

  -- Global secrets, then those of the workspace.
  unfoldable pub env_vars_of :
      (Secrets.Call → Bool) → String → Vault → Option (String → Option Bytes)
  unfolding add_env secrets_of
  env_vars_of fails i v =
      then_own (if fails Secrets.own_rows then [] else secrets_of i v)
        (add_env (if fails Secrets.global_rows then [] else v.globals) (λ k. none))

abbrev pub namespace_of : String → Option Workspace → String
namespace_of i none = workspace_awareness_namespace i
namespace_of i (some r) =
    first_filled (or_else "" r.awareness_namespace) (workspace_awareness_namespace i)

-- The two values that the row gives where the payload has none.
abbrev pub stored_dir : Option Workspace → String
stored_dir none = ""
stored_dir (some r) = or_else "" r.workspace_dir

abbrev pub stored_access : Option Workspace → String
stored_access none = ""
stored_access (some r) = r.workspace_access

module _ (fails : Call → Bool) where
  abbrev pub readable : Call → String → World → Option Workspace
  readable call i w = if fails call then none else workspace i w

  unfoldable pub load_awareness_namespace : String → World → String
  load_awareness_namespace i w = namespace_of i (readable namespace_row i w)

  -- `host_dir` is WORKSPACE_DIR.
  unfoldable pub build_provisioner_config :
      String → String → Launch → (String → Option Bytes) → String → World → WorkspaceConfig
  build_provisioner_config host_dir i l env namespace w =
      let row = readable mount_row i w in
      let path = first_filled l.payload.workspace_dir (stored_dir row) in
      let access = first_filled l.payload.workspace_access (stored_access row) in
      record {
        workspace_id = i;
        template_path = l.template_path;
        config_file = l.config_file;
        workspace_path = first_filled path host_dir;
        workspace_access = first_filled access "none";
        tier = l.payload.tier;
        runtime = l.payload.runtime;
        env_vars = env;
        awareness_namespace = namespace;
      }

  abbrev pub failed_row : ℕ → Workspace → Workspace
  failed_row now r = record r { status = failed; updated_at = now }

  abbrev pub failed_with : ℕ → String → Workspace → Workspace
  failed_with now e r = record r { status = failed; last_sample_error = e; updated_at = now }

  unfoldable pub undecryptable : ℕ → String → World → World
  undecryptable now i w =
      attempt (fails write_failed) (with_workspaces (update (has_id i) (failed_row now)))
        (record_and_broadcast (fails broadcast) "WORKSPACE_PROVISION_FAILED" i w)

  abbrev pub with_url : String → Workspace → Workspace
  with_url u r = record r { url = some u }

  unfoldable pub started : ℕ → String → String ⊎ String → World → World
  started now i (inl e) w =
      record_and_broadcast (fails broadcast) "WORKSPACE_PROVISION_FAILED" i
        (attempt (fails write_failed) (with_workspaces (update (has_id i) (failed_with now e))) w)
  started now i (inr u) w =
      if is_empty u
      then w
      else attempt (fails cache_internal) (with_cache (cache_internal_url now i (internal_url i))) (
          attempt (fails cache) (with_cache (cache_url now i u))
            (attempt (fails write_url) (with_workspaces (update (has_id i) (with_url u))) w))

  module _ (open_ : Bytes → Bytes → Bytes → Option Bytes) (key : Bytes)
      (start : WorkspaceConfig → String ⊎ String) where
    abbrev pub provisioned :
        ℕ → String → String → Launch → Option (String → Option Bytes) → World → World
    provisioned now host_dir i l none w = undecryptable now i w
    provisioned now host_dir i l (some env) w =
        started now i
          (start (build_provisioner_config host_dir i l env (load_awareness_namespace i w) w)) w

    unfoldable pub provision_workspace :
        (Secrets.Call → Bool) → ℕ → String → String → Launch → Vault → World → World
    unfolding env_vars_of load_awareness_namespace build_provisioner_config undecryptable started
    provision_workspace secrets_fail now host_dir i l v w =
        provisioned now host_dir i l (env_vars_of open_ key secrets_fail i v) w
