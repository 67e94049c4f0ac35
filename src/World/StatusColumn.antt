-- ===== src/World/StatusColumn.antt =====
-- The values of `workspaces.status`, and the SQL tests on them.
use starfire_agent_team.Prelude.{ℕ, Bool, List, any, eqb}

pub data Status : Type 0 where
  provisioning online offline degraded failed paused removed : Status

abbrev status_code : Status → ℕ
status_code provisioning = 0
status_code online = 1
status_code offline = 2
status_code degraded = 3
status_code failed = 4
status_code paused = 5
status_code removed = 6

-- status = $1
abbrev pub is : Status → Status → Bool
is s t = eqb (status_code s) (status_code t)

-- status IN (…)
abbrev pub one_of : List Status → Status → Bool
one_of ss s = any (is s) ss
