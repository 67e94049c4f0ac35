-- ===== src/Access/Tests.antt =====
-- The laws of the access check at concrete rows.
use starfire_agent_team.Prelude.{true, false, Bool, ◌≡◌, refl, ◌↔◌}
use starfire_agent_team.Samples.{family}
use starfire_agent_team.Access.{can_communicate, healthy, Lookup, caller, target}
use starfire_agent_team.Access.Laws.{Linked, can_communicate_iff}

can_communicate_iff_example :
    (can_communicate healthy "root" "mid" family ≡ true) ↔ Linked family "root" "mid"
can_communicate_iff_example = can_communicate_iff family "root" "mid"

-- The query for the target fails.
abbrev target_fails : Lookup → Bool
target_fails caller = false
target_fails target = true

-- A grandparent is not in reach.
no_grandparent : can_communicate healthy "leaf" "root" family ≡ false
unfolding can_communicate starfire_agent_team.World.workspace starfire_agent_team.Sql.first
no_grandparent = refl
