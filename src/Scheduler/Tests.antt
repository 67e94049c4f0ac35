-- ===== src/Scheduler/Tests.antt =====
-- A tick over two schedules, with a cron library that knows one expression: in an hour.
use starfire_agent_team.Prelude.{
  ℕ, ◌+◌, ◌≡◌, refl, String, Bool, true, false, Option, none, some, List, [], ◌∷◌, all,
  if◌then◌else◌, ◌==◌,
}
use starfire_agent_team.World.{World, error}
use starfire_agent_team.Samples.{family}
use starfire_agent_team.Proxy.{Proxied, refused}
use starfire_agent_team.Scheduler.{Schedule, Plan, Call, tick, ran, compute_next_run}
use starfire_agent_team.Scheduler.Edits
use starfire_agent_team.Scheduler.Edits.{CreateBody, UpdateBody, run_now, list_schedules}
use starfire_agent_team.Scheduler.Valid.{
  Event, creation, change, ticking, schedulable, run, run-schedulable,
}

abbrev healthy : Call → Bool
healthy _ = false

abbrev hourly : String → Option ℕ
hourly s = if s == "@hourly" then some 3600 else none

abbrev one_zone : String → Option ℕ
one_zone s = none

abbrev plus : ℕ → ℕ → ℕ → ℕ
plus c z t = t + c + 1

abbrev no_digits : ℕ → String
no_digits n = "404"

abbrev no_agent : Schedule → World → Proxied
no_agent r w = refused w (error 502 "failed to reach workspace agent")

abbrev schedule : String → String → Schedule
schedule i expr = record {
  id = i;
  workspace_id = "root";
  name = i;
  cron_expr = expr;
  timezone = "UTC";
  prompt = "report";
  enabled = true;
  next_run_at = some 90;
  last_run_at = none;
  run_count = 0;
  last_status = "";
  last_error = "";
  created_at = 1;
  updated_at = 1;
}

abbrev plan : Plan
plan = record {
  world = family;
  schedules = schedule "s1" "@hourly" ∷ schedule "s2" "bad" ∷ [];
  runs = [];
}

abbrev sound : Edits.Call → Bool
sound _ = false

abbrev utc_only : String → Option ℕ
utc_only s = if s == "UTC" then some 0 else none

abbrev new_schedule : CreateBody
new_schedule = record {
  name = "daily";
  cron_expr = "@hourly";
  timezone = "";
  prompt = "report";
  enabled = none;
}

abbrev to : String → UpdateBody
to expr = record {
  name = none;
  cron_expr = some expr;
  timezone = none;
  prompt = none;
  enabled = none;
}

abbrev empty_plan : Plan
empty_plan = record { world = family; schedules = []; runs = [] }

-- A schedule is created, a change to an invalid expression is refused, and a tick fires it.
abbrev events : List Event
events =
    creation sound 10 "s1" "root" (some new_schedule)
    ∷ change sound 20 "s1" (some (to "bad"))
    ∷ ticking healthy no_digits no_agent (λ i. 4000) 3700
    ∷ []

run-schedulable_example :
    all
      (schedulable hourly utc_only 0 plus)
      (run hourly utc_only 0 plus events empty_plan).schedules
    ≡ true
run-schedulable_example = run-schedulable hourly utc_only 0 plus events empty_plan refl

fired_once :
    list_schedules sound "root" (run hourly utc_only 0 plus events empty_plan)
    ≡ some (
        record (schedule "s1" "@hourly") {
          name = "daily";
          next_run_at = some 7601;
          last_run_at = some 4000;
          run_count = 1;
          last_status = "error";
          last_error = "failed to reach workspace agent";
          created_at = 10;
          updated_at = 4000;
        }
        ∷ [])
unfolding run list_schedules starfire_agent_team.Sql.Order.order_asc starfire_agent_team.Sql.select
    starfire_agent_team.Sql.update starfire_agent_team.Sql.first starfire_agent_team.Scheduler.tick
    starfire_agent_team.Scheduler.Edits.create_schedule
    starfire_agent_team.Scheduler.Edits.update_schedule starfire_agent_team.Sql.Order.limit
fired_once = refl
