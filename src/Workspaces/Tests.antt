-- ===== src/Workspaces/Tests.antt =====
-- The laws of the lifecycle at the family of four.
use starfire_agent_team.Prelude.{
  ◌≢◌, Option, ◌≤◌, ℕ, ◌≡◌, refl, none, some, List, [], ◌∷◌, arith, String, inl, inr, if◌then◌else◌,
  ◌==◌, ◌<◌, true-ne-false, subst, eq_iff, Bool-cases, or_else, ap,
}
use starfire_agent_team.Sql.{first, select}
use starfire_agent_team.World.StatusColumn.{Status, online, offline, paused}
use starfire_agent_team.World.{World, Workspace, workspace}
use starfire_agent_team.Samples.{row, world_of, family, paused_family}
use starfire_agent_team.Workspaces.Tree.{children, parent_of, is_parent_paused}
use starfire_agent_team.Workspaces.Tree.Laws.{Below, child, deeper}
use starfire_agent_team.Workspaces.Tree.Ends.{IsRankedTo}
use starfire_agent_team.Workspaces.Tree.Ancestors.{
  PausedAbove, parent, IsRanked, distance, no_query_fails, is_parent_paused_total,
}
use starfire_agent_team.Workspaces.Delete.{alive}

-- How deep a workspace of the family is.
abbrev pub depth : String → ℕ
depth i = if i == "root" then 0 else if i == "mid" then 1 else 2

leaf-Below_root : Below alive family.workspaces "root" "leaf"
unfolding children select
leaf-Below_root = deeper "mid" "leaf" (child "mid" refl) refl

abbrev below_root : List Workspace
below_root = row "mid" offline (some "root") ∷ row "leaf" Status.degraded (some "mid") ∷ []

pub family-IsRankedTo : IsRankedTo depth 2 family.workspaces
family-IsRankedTo = (
  λ q e. absurd (true-ne-false e refl),
  ground arith,
  (
    λ q e. subst (λ x. depth x < 1) ((eq_iff "root" q).0 e) (ground arith),
    ground arith,
    (
      λ q e. subst (λ x. depth x < 2) ((eq_iff "mid" q).0 e) (ground arith),
      ground arith,
      (λ q e. absurd (true-ne-false e refl), ground arith, tt),
    ),
  ),
)

abbrev pub leaf-PausedAbove : PausedAbove paused_family "the mid" "leaf"
unfolding workspace first
leaf-PausedAbove = parent "mid" (row "mid" paused (some "root")) refl refl refl refl

pub leaf-distance : distance leaf-PausedAbove ≤ 5
unfolding leaf-PausedAbove
leaf-distance = ground arith

abbrev pair : World
pair = world_of (row "root" online none ∷ row "mid" online (some "root") ∷ [])

pair-IsRanked : IsRanked depth pair
unfolding workspace first
pair-IsRanked i q e = elim (Bool-cases ("mid" == i)) [
  | inl mid ↦
      subst (λ x. parent_of (workspace x pair) ≡ some q → depth q < depth x)
        ((eq_iff "mid" i).0 mid)
        (λ found. subst (λ x. depth x < 1) (ap (or_else "") found) (ground arith)) e
  | inr other ↦ absurd (ground arith)
]

-- A workspace that is its own parent.
abbrev knot : World
knot = world_of (row "root" online (some "root") ∷ [])

is_parent_paused_total_example :
    ◌≢◌ {A = Option (Option String)} (is_parent_paused no_query_fails 2 "mid" pair) none
is_parent_paused_total_example =
    is_parent_paused_total no_query_fails depth pair pair-IsRanked 2 "mid" (ground arith)
