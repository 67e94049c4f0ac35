-- ===== src/Workspaces/Restart.antt =====
-- Restart and RestartByID of handlers/workspace_restart.go. The choice of a template is not modelled;
-- `config` is the text of config.yaml in the container, `none` where it cannot be read.
pub mod Laws
use starfire_agent_team.Prelude.{
  ℕ, String, Bool, true, false, ◌&&◌, ◌||◌, not, Option, none, some, List, [], ◌∷◌, ◌==◌,
  if◌then◌else◌, or_else,
}
use starfire_agent_team.Sql.{update}
use starfire_agent_team.Text.{is_empty, has_prefix, trim_space, drop_chars, split_lines}
use starfire_agent_team.World.StatusColumn.{Status, provisioning, paused, removed, is, one_of}
use starfire_agent_team.World.{
  Workspace, World, Command, stop, provision, Response, reply, error, attempt, order, has_id,
  workspace, with_workspaces, record_and_broadcast,
}
use starfire_agent_team.Workspaces.Tree.{Query, paused_parent, is_parent_paused}

pub data Call : Type 0 where
  lookup write_runtime write_status broadcast : Call
  walk : Query → Call

-- The first line that starts with `runtime:`, once trimmed; what follows, trimmed.
unfoldable pub runtime_line : List String → Option String
runtime_line [] = none
runtime_line (line ∷ lines) =
    let later = runtime_line lines in
    (if has_prefix (trim_space line) "runtime:"
      then some (trim_space (drop_chars 8 (trim_space line)))
      else later)

-- COALESCE(runtime, 'langgraph')
abbrev pub runtime_of : Workspace → String
runtime_of r = or_else "langgraph" r.runtime

abbrev differs : String → String → Bool
differs a b = not (is_empty a) && not (a == b)

-- The runtime to store, where config.yaml names another one.
changed_runtime : Option String → Workspace → Option String
changed_runtime none r = none
changed_runtime (some text) r = elim (runtime_line (split_lines text)) [
  | none ↦ none
  | some parsed ↦ if differs parsed (runtime_of r) then some parsed else none
]

reset_row : ℕ → Workspace → Workspace
reset_row now r = record r { status = provisioning; url = some ""; updated_at = now }

module _ (fails : Call → Bool) where
  store_runtime : String → Option String → World → World
  store_runtime i none w = w
  store_runtime i (some runtime) w =
      attempt (fails write_runtime)
        (with_workspaces (update (has_id i) (λ r. record r { runtime = some runtime }))) w

  -- Stop, reset to provisioning, announce, start.
  unfoldable pub reprovision : ℕ → String → World → World
  unfolding reset_row
  reprovision now i w = order (provision i ∷ []) (
      record_and_broadcast (fails broadcast) "WORKSPACE_PROVISIONING" i (
        attempt (fails write_status) (with_workspaces (update (has_id i) (reset_row now)))
          (order (stop i ∷ []) w)))

  restart_row :
      ℕ → ℕ → Bool → Option String → String → Workspace → World → Option (World × Response)
  unfolding store_runtime changed_runtime
  restart_row fuel now has_provisioner config i r w =
      elim (is_parent_paused (λ q. fails (walk q)) fuel i w) [
        | none ↦ none
        | some (some parent) ↦ some (w, error 409 (paused_parent parent))
        | some none ↦
            if has_provisioner
            then some (
              reprovision now i (store_runtime i (changed_runtime config r) w),
              reply 200 (("status", "provisioning") ∷ []),
            )
            else some (w, error 503 "provisioner not available")
      ]

  unfoldable pub restart : ℕ → ℕ → Bool → Option String → String → World → Option (World × Response)
  unfolding restart_row
  restart fuel now has_provisioner config i w =
      if fails lookup then some (w, error 500 "lookup failed") else elim (workspace i w) [
        | none ↦ some (w, error 404 "workspace not found")
        | some r ↦ restart_row fuel now has_provisioner config i r w
      ]

  -- status NOT IN ('removed', 'paused')
  abbrev pub restartable : Status → Bool
  restartable s = not (one_of (removed ∷ paused ∷ []) s)

  restart_found : ℕ → ℕ → String → Workspace → World → Option World
  restart_found fuel now i r w =
      if not (restartable r.status) || runtime_of r == "external"
      then some w
      else elim (is_parent_paused (λ q. fails (walk q)) fuel i w) [
        | none ↦ none
        | some (some parent) ↦ some w
        | some none ↦ some (reprovision now i w)
      ]

  -- `busy`: the lock of the workspace is held by another restart.
  unfoldable pub restart_by_id : ℕ → ℕ → Bool → Bool → String → World → Option World
  unfolding restart_found
  restart_by_id fuel now has_provisioner busy i w =
      if not has_provisioner || busy || fails lookup
      then some w
      else elim (workspace i w) [ none ↦ some w | some r ↦ restart_found fuel now i r w ]
