-- ===== src/Access.antt =====
-- registry/access.go: who may talk to whom, by the hierarchy of workspaces.
pub mod Laws
mod Tests
use starfire_agent_team.Prelude.{
  String, Bool, true, false, ◌||◌, Option, none, some, if◌then◌else◌, ◌==◌, some_eq,
}
use starfire_agent_team.World.{Workspace, World, workspace}

pub record WorkspaceRef : Type 0 where
  pub id : String
  pub parent_id : Option String

-- The two queries of `CanCommunicate` that can fail.
pub data Lookup : Type 0 where
  caller target : Lookup

abbrev ref : Option Workspace → Option WorkspaceRef
ref none = none
ref (some r) = some (record { id = r.id; parent_id = r.parent_id })

-- `none` for a query error and for sql.ErrNoRows alike
pub get_workspace_ref : Bool → String → World → Option WorkspaceRef
get_workspace_ref failed i w = if failed then none else ref (workspace i w)

abbrev pub same_parent : Option String → Option String → Bool
same_parent (some p) (some q) = p == q
same_parent none none = true
same_parent _ _ = false

abbrev by_hierarchy : Option WorkspaceRef → Option WorkspaceRef → Bool
by_hierarchy none _ = false
by_hierarchy (some c) none = false
by_hierarchy (some c) (some t) =
    same_parent c.parent_id t.parent_id || some_eq t.parent_id c.id || some_eq c.parent_id t.id

unfoldable pub can_communicate : (Lookup → Bool) → String → String → World → Bool
unfolding get_workspace_ref
can_communicate fails a b w =
    if a == b
    then true
    else by_hierarchy (get_workspace_ref (fails caller) a w) (get_workspace_ref (fails target) b w)

-- No query fails.
abbrev pub healthy : Lookup → Bool
healthy _ = false
