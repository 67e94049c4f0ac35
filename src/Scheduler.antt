-- ===== src/Scheduler.antt =====
-- scheduler/scheduler.go: schedules that send a prompt to a workspace when they are due. The cron
-- library and the time zones are the parameters `parse`, `load_location` and `next_after`, where 0 is
-- the zero time that the library returns for an expression that no time satisfies; `proxy` is the
-- scheduler's A2AProxy. The firings of a tick run side by side in the program, and as one step each
-- here.
pub mod Due
pub mod Edits
pub mod Valid
mod Tests
use starfire_agent_team.Prelude.{
  ℕ, ◌+◌, ◌-◌, String, Bool, true, false, ◌&&◌, ◌||◌, not, Option, none, some, List, [], ◌∷◌, ◌++◌,
  if◌then◌else◌, ◌==◌, leb, ltb, or_else, concat,
}
use starfire_agent_team.Text.{text_length, take_chars}
use starfire_agent_team.Sql.{select, update}
use starfire_agent_team.Sql.Order.{order_asc, limit}
use starfire_agent_team.World.{World, record_and_broadcast}
use starfire_agent_team.Proxy.{Proxied}
use starfire_agent_team.Delegation.{error_text}

-- A row of `workspace_schedules`.
pub record Schedule : Type 0 where
  pub id : String
  pub workspace_id : String
  pub name : String
  pub cron_expr : String
  pub timezone : String
  pub prompt : String
  pub enabled : Bool
  pub next_run_at : Option ℕ
  pub last_run_at : Option ℕ
  pub run_count : ℕ
  pub last_status : String
  pub last_error : String
  pub created_at : ℕ
  pub updated_at : ℕ

-- An activity of the type cron_run.
pub record CronRun : Type 0 where
  pub workspace_id : String
  pub summary : String
  pub schedule_id : String
  pub prompt : String
  pub status : String
  pub created_at : ℕ

pub record Plan : Type 0 where
  pub world : World
  pub schedules : List Schedule
  pub runs : List CronRun

-- The statements of this file that can fail.
pub data Call : Type 0 where
  due_rows : Call
  update_row insert_run announce : String → Call

abbrev pub batch_limit : ℕ
batch_limit = 50

abbrev pub run_time : Schedule → ℕ
run_time r = or_else 0 r.next_run_at

-- enabled = true AND next_run_at IS NOT NULL AND next_run_at <= now()
abbrev pub due : ℕ → Schedule → Bool
due now r = r.enabled && elim r.next_run_at [ none ↦ false | some t ↦ leb t now ]

abbrev pub same_id : String → Schedule → Bool
same_id i r = r.id == i

abbrev truncate : String → ℕ → String
truncate s max = if leb (text_length s) max then s else concat (take_chars (max - 3) s) "..."

pub ran : ℕ → Option ℕ → String → String → Schedule → Schedule
ran now next status problem r = record r {
  last_run_at = some now;
  next_run_at = next;
  run_count = r.run_count + 1;
  last_status = status;
  last_error = problem;
  updated_at = now;
}

-- Decimal digits are the parameter `digits`.
abbrev pub outcome : (ℕ → String) → Proxied → String × String
outcome digits p =
    if p.is_error
    then ("error", error_text p.response)
    else if ltb p.response.code 200 || leb 300 p.response.code
    then ("error", concat "HTTP " (digits p.response.code))
    else ("ok", "")

-- The rows that the query of a tick returns.
abbrev pub batch : ℕ → Plan → List Schedule
batch now s = limit batch_limit (order_asc run_time (select (due now) s.schedules))

module _ {Cron Zone : Type 0} (parse : String → Option Cron) (load_location : String → Option Zone)
    (utc : Zone) (next_after : Cron → Zone → ℕ → ℕ) where
  -- `none` for an invalid expression
  unfoldable pub compute_next_run : String → String → ℕ → Option ℕ
  compute_next_run expr tz after = elim (parse expr) [
    | none ↦ none
    | some c ↦ some (next_after c (or_else utc (load_location tz)) after)
  ]

  module _ (fails : Call → Bool) (digits : ℕ → String) (proxy : Schedule → World → Proxied)
      (ended : String → ℕ) where
    -- One schedule, whose call ends at the time `ended id`.
    unfoldable pub fire_schedule : Schedule → Plan → Plan
    unfolding compute_next_run ran
    fire_schedule r s =
        let p = proxy r s.world in
        let now = ended r.id in
        let result = outcome digits p in
        let next = compute_next_run r.cron_expr r.timezone now in
        record {
          world =
              record_and_broadcast (fails (announce r.id)) "CRON_EXECUTED" r.workspace_id p.world;
          schedules =
              if fails (update_row r.id)
              then s.schedules
              else update (same_id r.id) (ran now next result.0 result.1) s.schedules;
          runs =
              if fails (insert_run r.id)
              then s.runs
              else s.runs
                ++ record {
                  workspace_id = r.workspace_id;
                  summary = concat "Cron: " r.name;
                  schedule_id = r.id;
                  prompt = truncate r.prompt 200;
                  status = result.0;
                  created_at = now;
                }
                  ∷ [];
        }

    unfoldable pub fire_all : List Schedule → Plan → Plan
    unfolding fire_schedule
    fire_all [] s = s
    fire_all (r ∷ rows) s = fire_all rows (fire_schedule r s)

    unfoldable pub tick : ℕ → Plan → Plan
    unfolding fire_all
    tick now s = if fails due_rows then s else fire_all (batch now s) s
