-- ===== src/Agents/Tests.antt =====
-- Agents of the family of four.
use starfire_agent_team.Prelude.{◌≡◌, refl, arith, some, List, [], ◌∷◌, Bool, true, false}
use starfire_agent_team.Samples.{family}
use starfire_agent_team.World.{error}
use starfire_agent_team.Sql.{count}
use starfire_agent_team.Agents.{Roster, Call, insert_agent, runs_in, assign, replace, move}
use starfire_agent_team.Agents.Laws.{
  Event, assigning, replacing, removal, moving, OneActive, run, run-OneActive,
}

abbrev healthy : Call → Bool
healthy _ = false

abbrev no_insert : Call → Bool
no_insert insert_agent = true
no_insert _ = false

abbrev roster : Roster
roster = record { world = family; agents = [] }

abbrev staffed : Roster
staffed = (assign healthy 1 "a1" "root" (some "sonnet") roster).0

roster-OneActive : OneActive roster.agents
unfolding OneActive count
roster-OneActive i = omega arith

abbrev events : List Event
events =
    assigning healthy 1 "a1" "root" (some "sonnet")
    ∷ replacing healthy 2 "a2" "root" (some "opus")
    ∷ moving healthy "root" (some "mid")
    ∷ removal healthy 3 "mid"
    ∷ []

run-OneActive_example : OneActive (run events roster).agents
run-OneActive_example = run-OneActive events roster roster-OneActive

occupied :
    (assign healthy 2 "a2" "root" (some "opus") staffed).1
    ≡ error 409 "workspace already has an active agent, use PATCH to replace"
unfolding assign count starfire_agent_team.Agents.insert_new
    starfire_agent_team.World.record_and_broadcast
occupied = refl

-- A replacement that cannot be stored leaves the workspace without an agent.
lost : count (runs_in "root") (replace no_insert 2 "a2" "root" (some "opus") staffed).0.agents ≡ 0
unfolding count replace assign starfire_agent_team.Agents.insert_new starfire_agent_team.Sql.update
lost = refl

relocated : count (runs_in "mid") (move healthy "root" (some "mid") staffed).0.agents ≡ 1
unfolding count move assign starfire_agent_team.Agents.insert_new
    starfire_agent_team.World.record_and_broadcast starfire_agent_team.Agents.moved
    starfire_agent_team.Sql.first starfire_agent_team.Sql.update
relocated = refl
