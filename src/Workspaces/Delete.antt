-- ===== src/Workspaces/Delete.antt =====
-- Delete of handlers/workspace.go: the cascade over all descendants. Which statement fails is the
-- argument `fails`; `none` is a recursive query that does not end. The table canvas_layouts is not
-- modelled.
pub mod Laws
use starfire_agent_team.Prelude.{
  ◌||◌, ℕ, String, Bool, true, false, ◌&&◌, not, Option, none, some, List, [], ◌∷◌, ◌++◌, map, any,
  ◌==◌, if◌then◌else◌,
}
use starfire_agent_team.Sql.{update}
use starfire_agent_team.World.StatusColumn.{Status, removed, is}
use starfire_agent_team.World.Redis.{clear_workspace_keys}
use starfire_agent_team.World.{
  Workspace, World, Command, stop, remove_volume, Response, reply, error, attempt, order,
  with_workspaces, with_cache, record_and_broadcast,
}
use starfire_agent_team.Workspaces.Tree.{children, descendants}

pub data Call : Type 0 where
  child_query descendant_query mark broadcast : Call

-- status != 'removed'
abbrev pub alive : Status → Bool
alive s = not (is s removed)

abbrev pub ids : List Workspace → List String
ids = map λ r. r.id

-- id = ANY($1)
abbrev pub one_of_ids : List String → Workspace → Bool
one_of_ids is_ r = any (λ i. r.id == i) is_

set_removed : ℕ → Workspace → Workspace
set_removed now r = record r { status = removed; updated_at = now }

abbrev is_nil : List Workspace → Bool
is_nil [] = true
is_nil (r ∷ rows) = false

module _ (fails : Call → Bool) (has_provisioner : Bool) where
  unfoldable pub mark_removed : ℕ → List String → World → World
  unfolding set_removed
  mark_removed now all w =
      attempt (fails mark) (with_workspaces (update (one_of_ids all) (set_removed now))) w

  -- Stop the container, remove the volume, clear the Redis keys, tell the clients.
  tear_down : String → World → World
  tear_down i w =
      let w1 = if has_provisioner then order (stop i ∷ remove_volume i ∷ []) w else w in
      record_and_broadcast (fails broadcast) "WORKSPACE_REMOVED" i
        (with_cache (clear_workspace_keys i) w1)

  tear_down_all : List String → World → World
  tear_down_all [] w = w
  tear_down_all (i ∷ rest) w = tear_down_all rest (tear_down i w)

  cascade : ℕ → String → List Workspace → World → World × Response
  unfolding tear_down tear_down_all
  cascade now i found w = (
    tear_down i (tear_down_all (ids found) (mark_removed now (i ∷ ids found) w)),
    reply 200 (("status", "removed") ∷ []),
  )

  found_below : ℕ → String → List Workspace → World → Option (List Workspace)
  found_below fuel i direct w =
      if is_nil direct || fails descendant_query
      then some []
      else descendants fuel alive i w.workspaces

  unfoldable pub delete : ℕ → ℕ → Bool → String → World → Option (World × Response)
  unfolding cascade found_below
  delete fuel now confirm i w =
      let direct = children alive i w.workspaces in
      if fails child_query
      then some (w, error 500 "failed to check children")
      else if not (is_nil direct) && not confirm
      then some (w, reply 409 (("status", "confirmation_required") ∷ []))
      else elim (found_below fuel i direct w) [
        | none ↦ none
        | some found ↦ some (cascade now i found w)
      ]
