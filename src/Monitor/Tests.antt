-- ===== src/Monitor/Tests.antt =====
-- The laws of the monitors at workspaces of which some have stopped.
use starfire_agent_team.Prelude.{false, Bool, ◌≡◌, refl, none, some, String, ◌==◌, not}
use starfire_agent_team.Sql.{first}
use starfire_agent_team.World.StatusColumn.{online}
use starfire_agent_team.World.{Workspace, workspace}
use starfire_agent_team.Samples.{row, family}
use starfire_agent_team.Monitor.{Checker, offline_row, sweep_online_workspaces}
use starfire_agent_team.World.Unique.{PrimaryKey}
use starfire_agent_team.Monitor.Laws.{row-sweep_online_workspaces}

-- Only the container of `root` has stopped.
abbrev root_stopped : Checker
root_stopped i = some (not (i == "root"))

abbrev no_failure : String → Bool
no_failure i = false

family-PrimaryKey : PrimaryKey family.workspaces
family-PrimaryKey = (refl, (refl, (refl, (refl, tt))))

row-sweep_online_workspaces_example :
    workspace "root" (sweep_online_workspaces false no_failure root_stopped 300 family).0
    ≡ some (offline_row 300 (row "root" online none))
unfolding workspace first
row-sweep_online_workspaces_example =
    row-sweep_online_workspaces no_failure root_stopped 300 family "root" (row "root" online none)
      family-PrimaryKey refl

abbrev remote : Workspace
remote = record (row "far" online none) { runtime = some "external" }
