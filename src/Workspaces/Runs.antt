-- ===== src/Workspaces/Runs.antt =====
-- The laws of deletes and pauses at the family of four.
use starfire_agent_team.Prelude.{arith, true, ◌≡◌, refl, Option, none, some, String, inr}
use starfire_agent_team.Sql.{first, select}
use starfire_agent_team.World.StatusColumn.{degraded, Status, online}
use starfire_agent_team.World.{World, Response, workspace}
use starfire_agent_team.World.Laws.{is_removed}
use starfire_agent_team.Samples.{row, family}
use starfire_agent_team.Workspaces.Tree.{children}
use starfire_agent_team.Workspaces.Tree.Laws.{Below, child, deeper}
use starfire_agent_team.Workspaces.Delete.{alive, delete}
use starfire_agent_team.Workspaces.Delete
use starfire_agent_team.Workspaces.Tests.{depth, family-IsRankedTo}
use starfire_agent_team.Workspaces.Delete.Laws.{delete_subtree, validate_token-delete}
use starfire_agent_team.Workspaces.Pause.{pause, pausable}
use starfire_agent_team.Workspaces.Pause
use starfire_agent_team.Workspaces.Pause.Laws.{pause_subtree, is_paused_at}

-- The world of a result, the family where there is none.
abbrev world_after : Option (World × Response) → World
world_after none = family
world_after (some (v, answer)) = v

abbrev or_family : Option World → World
or_family none = family
or_family (some v) = v

abbrev deleted : Option (World × Response)
deleted = delete Delete.Laws.no_failure true 5 300 true "root" family

leaf-Below_root : Below alive family.workspaces "root" "leaf"
unfolding children select
leaf-Below_root = deeper "mid" "leaf" (child "mid" refl) refl

delete_subtree_example :
    (out : World × Response) × (delete Delete.Laws.no_failure true 5 300 true "root" family
      ≡ some out)
    × (is_removed "leaf" out.0 ≡ true)
unfolding workspace first
delete_subtree_example =
    delete_subtree true 5 300 "root" "leaf" family (row "leaf" Status.degraded (some "mid")) depth 2
      family-IsRankedTo (ground arith) (inr leaf-Below_root) refl

leaf-Below-pausable : Below pausable family.workspaces "root" "leaf"
unfolding children select
leaf-Below-pausable = deeper "mid" "leaf" (child "mid" refl) refl

pause_subtree_example :
    (out : World × Response) × (pause Pause.Laws.no_failure true 5 300 "root" family ≡ some out)
    × (is_paused_at "leaf" out.0 ≡ true)
unfolding workspace first
pause_subtree_example =
    pause_subtree true 5 300 "root" "leaf" family (row "root" online none)
      (row "leaf" degraded (some "mid")) depth 2 family-IsRankedTo (ground arith) refl refl
      (inr leaf-Below-pausable) refl

abbrev unchanged : String → String
unchanged s = s
