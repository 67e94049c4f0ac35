-- ===== src/Workspaces/Pause.antt =====
-- Pause and Resume of handlers/workspace_restart.go, over the workspace and all its descendants.
pub mod Laws
use starfire_agent_team.Prelude.{
  ℕ, String, Bool, true, false, ◌&&◌, not, Option, none, some, List, [], ◌∷◌, if◌then◌else◌,
}
use starfire_agent_team.Sql.{update}
use starfire_agent_team.World.StatusColumn.{Status, provisioning, paused, removed, is, one_of}
use starfire_agent_team.World.Redis.{clear_workspace_keys}
use starfire_agent_team.World.{
  Workspace, World, Command, stop, provision, Response, reply, error, attempt, order, has_id,
  workspace, with_workspaces, with_cache, record_and_broadcast,
}
use starfire_agent_team.Workspaces.Tree.{Query, paused_parent, descendants, is_parent_paused}

pub data Call : Type 0 where
  lookup descendant_query write_status broadcast : Call
  walk : Query → Call

-- status NOT IN ('removed', 'paused')
abbrev pub pausable : Status → Bool
pausable s = not (one_of (removed ∷ paused ∷ []) s)

abbrev pub is_paused : Status → Bool
is_paused s = is s paused

paused_row : ℕ → Workspace → Workspace
paused_row now r = record r { status = paused; url = some ""; updated_at = now }

resumed_row : ℕ → Workspace → Workspace
resumed_row now r = record r { status = provisioning; updated_at = now }

-- The rows of the query, none of them where it fails.
abbrev or_no_rows : Bool → Option (List Workspace) → Option (List Workspace)
or_no_rows true found = some []
or_no_rows false found = found

module _ (fails : Call → Bool) (has_provisioner : Bool) where
  pause_one : ℕ → String → World → World
  unfolding paused_row
  pause_one now i w = record_and_broadcast (fails broadcast) "WORKSPACE_PAUSED" i (
      with_cache (clear_workspace_keys i) (
        attempt (fails write_status) (with_workspaces (update (has_id i) (paused_row now)))
          (if has_provisioner then order (stop i ∷ []) w else w)))

  pause_all : ℕ → List Workspace → World → World
  pause_all now [] w = w
  pause_all now (r ∷ rest) w = pause_all now rest (pause_one now r.id w)

  pause_found : ℕ → Workspace → Option (List Workspace) → World → Option (World × Response)
  pause_found now r none w = none
  pause_found now r (some found) w =
      some (pause_all now (r ∷ found) w, reply 200 (("status", "paused") ∷ []))

  pause_row : ℕ → ℕ → String → Workspace → World → Option (World × Response)
  pause_row fuel now i r w =
      if pausable r.status
      then pause_found now r
          (or_no_rows (fails descendant_query) (descendants fuel pausable i w.workspaces)) w
      else some (w, error 404 "workspace not found or already paused")

  unfoldable pub pause : ℕ → ℕ → String → World → Option (World × Response)
  unfolding pause_row pause_found pause_all pause_one
  pause fuel now i w =
      if fails lookup then some (w, error 500 "lookup failed") else elim (workspace i w) [
        | none ↦ some (w, error 404 "workspace not found or already paused")
        | some r ↦ pause_row fuel now i r w
      ]

  resume_one : ℕ → String → World → World
  unfolding resumed_row
  resume_one now i w = order (provision i ∷ []) (
      record_and_broadcast (fails broadcast) "WORKSPACE_PROVISIONING" i
        (attempt (fails write_status) (with_workspaces (update (has_id i) (resumed_row now))) w))

  resume_all : ℕ → List Workspace → World → World
  resume_all now [] w = w
  resume_all now (r ∷ rest) w = resume_all now rest (resume_one now r.id w)

  resume_found : ℕ → Workspace → Option (List Workspace) → World → Option (World × Response)
  resume_found now r none w = none
  resume_found now r (some found) w =
      some (resume_all now (r ∷ found) w, reply 200 (("status", "provisioning") ∷ []))

  resume_row : ℕ → ℕ → String → Workspace → World → Option (World × Response)
  resume_row fuel now i r w = elim (is_parent_paused (λ q. fails (walk q)) fuel i w) [
    | none ↦ none
    | some (some parent) ↦ some (w, error 409 (paused_parent parent))
    | some none ↦
        resume_found now r
          (or_no_rows (fails descendant_query) (descendants fuel is_paused i w.workspaces)) w
  ]

  resume_if_paused : ℕ → ℕ → String → Workspace → World → Option (World × Response)
  resume_if_paused fuel now i r w =
      if not (is_paused r.status)
      then some (w, error 404 "workspace not found or not paused")
      else if has_provisioner
      then resume_row fuel now i r w
      else some (w, error 503 "provisioner not available")

  unfoldable pub resume : ℕ → ℕ → String → World → Option (World × Response)
  unfolding resume_if_paused resume_row resume_found resume_all resume_one
  resume fuel now i w =
      if fails lookup then some (w, error 500 "lookup failed") else elim (workspace i w) [
        | none ↦ some (w, error 404 "workspace not found or not paused")
        | some r ↦ resume_if_paused fuel now i r w
      ]
