-- ===== src/Delegation.antt =====
-- handlers/delegation.go: tasks that a workspace hands to another one, tracked in `activity_logs`.
-- uuid.Parse is the parameter `is_uuid`; a new UUID comes in as an argument.
pub mod Answer
pub mod Outcome
pub mod Idempotent
pub mod Reports
mod Tests
use Answer.{extract_response_text}
use starfire_agent_team.Json.{Json}
use starfire_agent_team.Prelude.{
  ℕ, ◌+◌, String, Bool, true, false, ◌&&◌, ◌||◌, not, Option, none, some, List, [], ◌∷◌, ◌++◌,
  if◌then◌else◌, ◌==◌, eqb, leb, any, some_eq, concat,
}
use starfire_agent_team.Text.{is_empty, text_length, take_chars}
use starfire_agent_team.Sql.{select, first, update, delete}
use starfire_agent_team.Sql.Order.{order_desc, limit}
use starfire_agent_team.World.{World, Response, reply, error, has_id, record_and_broadcast}
use starfire_agent_team.Proxy.{Proxied}

-- A row of `activity_logs`; `delegation_id` is request_body->>'delegation_id', `response` the text and
-- the delegation id of response_body. Columns that are read through COALESCE(…, '') hold "" for NULL.
pub record Activity : Type 0 where
  pub workspace_id : String
  pub method : String
  pub source_id : String
  pub target_id : String
  pub summary : String
  pub delegation_id : Option String
  pub response : Option (String × String)
  pub status : String
  pub error_detail : String
  pub idempotency_key : Option String
  pub created_at : ℕ

pub record Log : Type 0 where
  pub world : World
  pub activities : List Activity

pub record DelegateBody : Type 0 where
  pub target_id : String
  pub task : String
  pub idempotency_key : String

pub record RecordBody : Type 0 where
  pub target_id : String
  pub task : String
  pub delegation_id : String

pub record StatusBody : Type 0 where
  pub status : String
  pub error_text : String
  pub response_preview : String

-- `go executeDelegation(…)` with its arguments.
pub record Dispatch : Type 0 where
  pub source_id : String
  pub target_id : String
  pub delegation_id : String
  pub task : String

-- The statements of this file that can fail.
pub data Call : Type 0 where
  lookup release insert winner announce update_status announce_status result announce_result list :
      Call

-- s[:max] + "...", over ASCII
abbrev pub truncate : String → ℕ → String
truncate s max = if leb (text_length s) max then s else concat (take_chars max s) "..."

-- workspace_id = $1 AND idempotency_key = $2
abbrev pub keyed : String → String → Activity → Bool
keyed i k a = a.workspace_id == i && some_eq a.idempotency_key k

abbrev pub is_failed : Activity → Bool
is_failed a = a.status == "failed"

-- workspace_id = $3 AND method = 'delegate' AND request_body->>'delegation_id' = $4
abbrev pub tracks : String → String → Activity → Bool
tracks i d a = a.workspace_id == i && a.method == "delegate" && some_eq a.delegation_id d

-- A row whose NULL id cannot be scanned, or is empty, counts as absent.
abbrev pub with_delegation : Option Activity → Option (Activity × String)
with_delegation none = none
with_delegation (some a) = elim a.delegation_id [
  | none ↦ none
  | some d ↦ if is_empty d then none else some (a, d)
]

unfoldable pub existing : Bool → String → String → Log → Option (Activity × String)
existing failed i k s =
    if is_empty k || failed then none else with_delegation (first (keyed i k) s.activities)

pub with_status : String → String → Activity → Activity
with_status status detail a = record a {
  status = status;
  error_detail = if is_empty detail then a.error_detail else detail;
}

abbrev pub key_or_null : String → Option String
key_or_null k = if is_empty k then none else some k

abbrev key_taken : String → Option String → List Activity → Bool
key_taken i none rows = false
key_taken i (some k) rows = any (keyed i k) rows

pub delegated : ℕ → String → String → String → Option String → String → Activity
delegated now i target d key status = record {
  workspace_id = i;
  method = "delegate";
  source_id = i;
  target_id = target;
  summary = concat "Delegating to " target;
  delegation_id = some d;
  response = none;
  status = status;
  error_detail = "";
  idempotency_key = key;
  created_at = now;
}

pub result_row :
    ℕ → String → String → String → Option (String × String) → String → String → Activity
result_row now i target summary response status detail = record {
  workspace_id = i;
  method = "delegate_result";
  source_id = i;
  target_id = target;
  summary = summary;
  delegation_id = none;
  response = response;
  status = status;
  error_detail = detail;
  idempotency_key = none;
  created_at = now;
}

abbrev pub tell : Bool → String → String → Log → Log
tell failed kind i s = record s { world = record_and_broadcast failed kind i s.world }

-- The insert fails too where the workspace is not on file, or its key is taken.
abbrev pub refuses : Activity → Log → Bool
refuses a s =
    not (any (has_id a.workspace_id) s.world.workspaces)
    || key_taken a.workspace_id a.idempotency_key s.activities

abbrev pub hit : String → String → String → Response
hit d status target = reply 200 (
    ("delegation_id", d)
    ∷ ("status", status)
    ∷ ("target_id", target)
    ∷ ("idempotent_hit", "true")
    ∷ [])

abbrev started : String → String → DelegateBody → Option Dispatch
started d i b =
    some (record { source_id = i; target_id = b.target_id; delegation_id = d; task = b.task })

-- err.Error() of a proxyA2AError
abbrev pub error_text : Response → String
error_text r = first_error r.fields
  where
    first_error : List (String × String) → String
    first_error [] = "proxy a2a error"
    first_error ((k, v) ∷ fs) =
        let rest = first_error fs in if k == "error" && not (is_empty v) then v else rest

unfoldable pub is_transient_proxy_error : Response → Bool
is_transient_proxy_error r = eqb r.code 503 || eqb r.code 502

abbrev pub body_of : Response → String
body_of r = first_body r.fields
  where
    first_body : List (String × String) → String
    first_body [] = ""
    first_body ((k, v) ∷ fs) = let rest = first_body fs in if k == "body" then v else rest

failure_row : ℕ → Dispatch → String → Activity
unfolding result_row
failure_row now d why = result_row now d.source_id d.target_id "Delegation failed" none "failed" why

success_row : ℕ → Dispatch → String → Activity
unfolding result_row
success_row now d answer =
    result_row now d.source_id d.target_id
      (concat "Delegation completed (" (concat (truncate answer 80) ")"))
      (some (answer, d.delegation_id)) "completed" ""

abbrev pub in_world : Log → World → Log
in_world s w = record s { world = w }

module _ (fails : Call → Bool) where
  unfoldable pub insert_row : Call → Activity → Log → Log
  insert_row call a s =
      if fails call || refuses a s then s else record s { activities = s.activities ++ a ∷ [] }

  unfoldable pub update_delegation_status : String → String → String → String → Log → Log
  unfolding with_status
  update_delegation_status i d status detail s =
      if fails update_status
      then s
      else record s { activities = update (tracks i d) (with_status status detail) s.activities }

  -- The background call and the answer 202; `stored` is trackingOK.
  unfoldable pub dispatch :
      Bool → String → String → DelegateBody → Log → Log × Response × Option Dispatch
  dispatch stored d i b s = (
    tell (fails announce) "DELEGATION_SENT" i s,
    reply 202 (
        ("delegation_id", d)
        ∷ ("status", "delegated")
        ∷ ("target_id", b.target_id)
        ∷ (if stored
            then []
            else ("warning", "delegation dispatched but status tracking unavailable") ∷ [])),
    started d i b,
  )

  -- From the insert on.
  unfoldable pub store_and_dispatch :
      ℕ → String → String → DelegateBody → Log → Log × Response × Option Dispatch
  unfolding delegated dispatch
  store_and_dispatch now d i b s =
      let a = delegated now i b.target_id d (key_or_null b.idempotency_key) "pending" in
      if not (fails insert || refuses a s)
      then dispatch true d i b (record s { activities = s.activities ++ a ∷ [] })
      else elim (existing (fails winner) i b.idempotency_key s) [
        | some (won, id) ↦ (s, hit id won.status b.target_id, none)
        | none ↦ dispatch false d i b s
      ]

  -- The release of the key of a failed delegation.
  unfoldable pub release_key : String → String → Log → Log
  release_key i k s =
      if fails release
      then s
      else record s { activities = delete (λ a. keyed i k a && is_failed a) s.activities }

  unfoldable pub delegate :
      (String → Bool)
      → ℕ
      → String
      → String
      → Option DelegateBody
      → Log
      → Log × Response × Option Dispatch
  unfolding existing store_and_dispatch release_key
  delegate is_uuid now d i none s = (s, error 400 "bad body", none)
  delegate is_uuid now d i (some b) s =
      if not (is_uuid b.target_id)
      then (s, error 400 "target_id must be a valid UUID", none)
      else elim (existing (fails lookup) i b.idempotency_key s) [
        | none ↦ store_and_dispatch now d i b s
        | some (a, id) ↦
            let released = store_and_dispatch now d i b (release_key i b.idempotency_key s) in
            if is_failed a then released else (s, hit id a.status a.target_id, none)
      ]

  fail_delegation : ℕ → Dispatch → String → Log → Log
  unfolding insert_row update_delegation_status failure_row
  fail_delegation now d why s = tell (fails announce_result) "DELEGATION_FAILED" d.source_id (
      insert_row result (failure_row now d why)
        (update_delegation_status d.source_id d.delegation_id "failed" why s))

  complete_delegation : ℕ → Dispatch → String → Log → Log
  unfolding insert_row update_delegation_status success_row
  complete_delegation now d answer s =
      tell (fails announce_result) "DELEGATION_COMPLETE" d.source_id (
        update_delegation_status d.source_id d.delegation_id "completed" ""
          (insert_row result (success_row now d answer) s))

  -- What follows the last attempt.
  unfoldable pub finish : (String → Option Json) → ℕ → Dispatch → Proxied → Log → Log
  unfolding fail_delegation complete_delegation
  finish unmarshal now d p s =
      if p.is_error
      then fail_delegation now d (error_text p.response) s
      else complete_delegation now d (extract_response_text unmarshal (body_of p.response)) s

  -- Before the first attempt.
  unfoldable pub dispatched : Dispatch → Log → Log
  unfolding update_delegation_status
  dispatched d s =
      tell (fails announce_status) "DELEGATION_STATUS" d.source_id
        (update_delegation_status d.source_id d.delegation_id "dispatched" "" s)

  -- `send` is proxyA2ARequest at the time of the first and of the second attempt, `pause` what others
  -- do to the world in the 8 seconds between, and `cancelled` tells that the context ended first.
  unfoldable pub execute_delegation :
      (String → Option Json)
      → ℕ
      → Dispatch
      → (Bool → World → Proxied)
      → Bool
      → (World → World)
      → Log
      → Log
  unfolding dispatched finish is_transient_proxy_error
  execute_delegation unmarshal now d send cancelled pause s =
      let sent = dispatched d s in
      let one = send false sent.world in
      let two = send true (pause one.world) in
      if one.is_error && is_transient_proxy_error one.response && not cancelled
      then finish unmarshal now d two (in_world sent two.world)
      else finish unmarshal now d one (in_world sent one.world)
