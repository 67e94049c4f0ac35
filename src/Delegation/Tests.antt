-- ===== src/Delegation/Tests.antt =====
-- Delegations between the workspaces of the family in Samples.
use starfire_agent_team.Prelude.{
  String, Bool, true, false, ◌≡◌, refl, Option, some, none, List, [], ◌∷◌,
}
use starfire_agent_team.Sql.{first}
use starfire_agent_team.World.{World, error}
use starfire_agent_team.Samples.{family}
use starfire_agent_team.Proxy.{Proxied, refused}
use starfire_agent_team.Delegation.{
  Activity, Log, Dispatch, DelegateBody, Call, tracks, delegate, execute_delegation, hit,
}
use starfire_agent_team.Json.{Json, text, array, object, item, end, member, empty}
use starfire_agent_team.Delegation.Answer.{extract_response_text}
use starfire_agent_team.Delegation.Outcome.{status-execute_delegation}
use starfire_agent_team.Delegation.Idempotent.{Report, reported, delegate_once}
use starfire_agent_team.Delegation.Reports.{update_status_of}

abbrev healthy : Call → Bool
healthy _ = false

abbrev any_uuid : String → Bool
any_uuid s = true

abbrev job : String → Dispatch
job target = record { source_id = "mid"; target_id = target; delegation_id = "d1"; task = "sum up" }

abbrev tracked : String → Activity
tracked target = record {
  workspace_id = "mid";
  method = "delegate";
  source_id = "mid";
  target_id = target;
  summary = "";
  delegation_id = some "d1";
  response = none;
  status = "pending";
  error_detail = "";
  idempotency_key = some "k";
  created_at = 5;
}

abbrev log : String → Log
log target = record { world = family; activities = tracked target ∷ [] }

abbrev no_json : String → Option Json
no_json s = none

-- The first attempt meets a restart, the second one an answer, an HTTP error.
abbrev restarted : Bool → World → Proxied
restarted false w = refused w (error 503 "restarting")
restarted true w = record {
  world = w;
  posted = some "http://leaf";
  restarting = false;
  is_error = false;
  response = error 500 "crash";
}

status-execute_delegation_example :
    (q : Activity) × (first
        (tracks "mid" "d1")
        (execute_delegation healthy no_json 7
          (job "leaf")
          restarted
          false
          (λ w. w)
          (log "leaf")).activities
      ≡ some q)
    × (q.status ≡ "completed")
unfolding first
status-execute_delegation_example =
    status-execute_delegation healthy no_json 7 (job "leaf") restarted false (λ w. w) (log "leaf")
      (tracked "leaf") refl refl

abbrev ask : DelegateBody
ask = record { target_id = "leaf"; task = "sum up"; idempotency_key = "k" }

abbrev idle : Log
idle = record { world = family; activities = [] }

abbrev reports : List Report
reports = record { delegation_id = "d1"; status = "completed"; detail = "" } ∷ []

delegate_once_example :
    (status : String) × (target : String) × (delegate healthy any_uuid 9 "d2" "mid"
        (some ask)
        (reported healthy "mid" reports (delegate healthy any_uuid 8 "d1" "mid" (some ask) idle).0)
      ≡ (
        reported healthy "mid" reports (delegate healthy any_uuid 8 "d1" "mid" (some ask) idle).0,
        hit "d1" status target,
        none,
      ))
delegate_once_example =
    delegate_once healthy healthy healthy any_uuid 8 9 "d1" "d2" "mid" ask ask reports idle refl
      refl refl refl refl refl refl refl refl refl

-- A late report turns a failed delegation into a completed one that keeps its error.
failed_log : Log
failed_log = record {
  world = family;
  activities = record (tracked "leaf") { status = "failed"; error_detail = "x" } ∷ [];
}

late_report :
    (first
      (tracks "mid" "d1")
      (update_status_of healthy 9 "mid" "d1"
        (some (record { status = "completed"; error_text = ""; response_preview = "" }))
        failed_log).0.activities)
    ≡ some (record (tracked "leaf") { status = "completed"; error_detail = "x" })
unfolding first update_status_of failed_log starfire_agent_team.Sql.update
late_report = refl

reply_text :
    extract_response_text
      (λ s. some (
        object (
          member "result"
            (object (
              member "parts"
                (array (
                  item
                    (object (member "kind" (text "text") (member "text" (text "hello") empty)))
                    end))
                empty))
            empty)))
      "raw"
    ≡ "hello"
unfolding extract_response_text
reply_text = refl
