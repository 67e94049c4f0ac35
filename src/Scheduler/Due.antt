-- ===== src/Scheduler/Due.antt =====
-- What a tick leaves due.
use starfire_agent_team.Prelude.{
  ℕ, String, Bool, true, ◌||◌, not, Option, none, some, List, any, all, ltb, ◌==◌, or_else,
}
use starfire_agent_team.World.{World}
use starfire_agent_team.Scheduler.{Schedule, due}

-- Every due row is among those that are still to fire.
pending : ℕ → List Schedule → List Schedule → Bool
pending now todo = all (λ r. not (due now r) || any (λ q. q.id == r.id) todo)

module _ {Cron Zone : Type 0} (parse : String → Option Cron) (load_location : String → Option Zone)
    (utc : Zone) (next_after : Cron → Zone → ℕ → ℕ) where
  -- After a time, a valid expression has a next one, which is later.
  abbrev pub has_next : String → String → ℕ → Bool
  has_next expr tz t = elim (parse expr) [
    | none ↦ true
    | some c ↦ ltb t (next_after c (or_else utc (load_location tz)) t)
  ]
