-- ===== src/KeyMemory/Tests.antt =====
-- Keys of the family in Samples.
use starfire_agent_team.Prelude.{Bool, false, ◌≡◌, refl, some, none, List, [], ◌∷◌}
use starfire_agent_team.Samples.{family}
use starfire_agent_team.KeyMemory.{Row, SetBody, Call, not_found, get, set}

abbrev healthy : Call → Bool
healthy _ = false

abbrev stored : List Row
stored =
    record { workspace_id = "mid"; key = "plan"; value = "1"; expires_at = none; updated_at = 5 }
    ∷ []

abbrev plan : SetBody
plan = record { key = "plan"; value = "2"; ttl_seconds = some 60 }

-- Ten thousand million seconds overflow, and the value is gone at once.
overflow :
    get healthy 200 "mid" "plan"
      (set healthy some 100 "mid"
        (some (record plan { ttl_seconds = some 10000000000 }))
        family
        stored).0
    ≡ not_found
unfolding get starfire_agent_team.Sql.first set starfire_agent_team.Sql.update
overflow = refl
