-- ===== src/Workspaces/Tree.antt =====
-- The hierarchy as the handlers walk it: the recursive queries of Delete, Pause and Resume downwards,
-- and isParentPaused of handlers/workspace_restart.go upwards. Both run for ever on a cycle of
-- parents; here they run on fuel, and `none` says that it ran out.
pub mod Laws
pub mod Ends
pub mod Ancestors
use starfire_agent_team.Prelude.{
  concat, ℕ, zero, suc, String, Bool, true, false, ◌&&◌, Option, none, some, List, [], ◌∷◌, ◌++◌,
  if◌then◌else◌, some_eq,
}
use starfire_agent_team.Sql.{select}
use starfire_agent_team.World.StatusColumn.{Status, paused, is}
use starfire_agent_team.World.{Workspace, World, workspace}

-- WHERE parent_id = $1 AND …status…
abbrev pub child_of : (Status → Bool) → String → Workspace → Bool
child_of p i r = some_eq r.parent_id i && p r.status

unfoldable pub children : (Status → Bool) → String → List Workspace → List Workspace
children p i rows = select (child_of p i) rows

-- The join of the table with one level of the recursion.
unfoldable pub next_level : (Status → Bool) → List Workspace → List Workspace → List Workspace
next_level p rows [] = []
next_level p rows (d ∷ ds) = children p d.id rows ++ next_level p rows ds

abbrev prepend : List Workspace → Option (List Workspace) → Option (List Workspace)
prepend level none = none
prepend level (some below) = some (level ++ below)

-- UNION ALL, level by level, until a level is empty.
unfoldable pub levels :
    ℕ → (Status → Bool) → List Workspace → List Workspace → Option (List Workspace)
levels fuel p rows [] = some []
levels zero p rows (d ∷ ds) = none
levels (suc fuel) p rows (d ∷ ds) =
    prepend (d ∷ ds) (levels fuel p rows (next_level p rows (d ∷ ds)))

-- WITH RECURSIVE descendants AS (…) SELECT … FROM descendants
unfoldable pub descendants : ℕ → (Status → Bool) → String → List Workspace → Option (List Workspace)
descendants fuel p i rows = levels fuel p rows (children p i rows)

abbrev pub parent_of : Option Workspace → Option String
parent_of none = none
parent_of (some r) = r.parent_id

-- The two queries of a step of isParentPaused: the parent of a workspace, and what the parent is.
pub data Query : Type 0 where
  parent_row ancestor_row : String → Query

-- The name of the nearest paused ancestor, if there is one. A query that fails ends the walk as a
-- missing row does.
unfoldable pub is_parent_paused : (Query → Bool) → ℕ → String → World → Option (Option String)
is_parent_paused fails zero i w = none
is_parent_paused fails (suc fuel) i w =
    elim (if fails (parent_row i) then none else parent_of (workspace i w)) [
      | none ↦ some none
      | some q ↦ elim (if fails (ancestor_row q) then none else workspace q w) [
        | none ↦ some none
        | some r ↦
            if is r.status paused then some (some r.name) else is_parent_paused fails fuel q w
      ]
    ]

-- What a refusal says of the ancestor.
abbrev pub paused_parent : String → String
paused_parent name = concat "parent workspace \"" (concat name "\" is paused — resume it first")
