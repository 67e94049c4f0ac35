-- ===== src/Delegation/Reports.antt =====
-- handlers/delegation.go: the delegations that agents start themselves and report (Record,
-- UpdateStatus), and the list of a workspace's delegations.
use starfire_agent_team.Prelude.{
  ℕ, String, Bool, ◌&&◌, ◌||◌, not, Option, none, some, List, [], ◌∷◌, ◌++◌, if◌then◌else◌, ◌==◌,
  concat, map,
}
use starfire_agent_team.Sql.{select}
use starfire_agent_team.Sql.Order.{order_desc, limit}
use starfire_agent_team.World.{Response, reply, error}
use starfire_agent_team.Delegation.{
  Activity, Log, RecordBody, StatusBody, Call, insert, announce, result, announce_result, list,
  truncate, delegated, result_row, refuses, insert_row, update_delegation_status, tell,
}

module _ (fails : Call → Bool) (now : ℕ) where
  unfoldable pub record_delegation :
      (String → Bool) → String → Option RecordBody → Log → Log × Response
  unfolding delegated
  record_delegation is_uuid i none s = (s, error 400 "bad body")
  record_delegation is_uuid i (some b) s =
      let a = delegated now i b.target_id b.delegation_id none "dispatched" in
      if not (is_uuid b.target_id)
      then (s, error 400 "target_id must be a valid UUID")
      else if fails insert || refuses a s
      then (s, error 500 "failed to record delegation")
      else (
        tell (fails announce) "DELEGATION_SENT" i
            (record s { activities = s.activities ++ a ∷ [] }),
        reply 202 (("delegation_id", b.delegation_id) ∷ ("status", "recorded") ∷ []),
      )

  reported_row : String → String → String → Activity
  unfolding result_row
  reported_row i d preview =
      result_row now i "" (concat "Delegation completed (" (concat (truncate preview 80) ")"))
        (some (preview, d)) "completed" ""

  unfoldable pub update_status_of : String → String → Option StatusBody → Log → Log × Response
  unfolding insert_row update_delegation_status reported_row
  update_status_of i d none s = (s, error 400 "bad body")
  update_status_of i d (some b) s =
      let updated = update_delegation_status fails i d b.status b.error_text s in
      let answer = reply 200 (("status", b.status) ∷ ("delegation_id", d) ∷ []) in
      if b.status == "completed"
      then (
        tell (fails announce_result) "DELEGATION_COMPLETE" i
            (insert_row fails result (reported_row i d b.response_preview) updated),
        answer,
      )
      else if b.status == "failed"
      then (tell (fails announce_result) "DELEGATION_FAILED" i updated, answer)
      else (s, error 400 "status must be 'completed' or 'failed'")

abbrev is_delegation : String → Activity → Bool
is_delegation i a = a.workspace_id == i && (a.method == "delegate" || a.method == "delegate_result")

-- An entry of the list; fields that the answer leaves out are "".
pub record Listed : Type 0 where
  pub source_id : String
  pub target_id : String
  pub summary : String
  pub status : String
  pub delegation_id : String
  pub error_text : String
  pub response_preview : String
  pub created_at : ℕ

abbrev response_text : Option (String × String) → String
response_text none = ""
response_text (some r) = r.0

-- COALESCE(request_body->>'delegation_id', response_body->>'delegation_id', '')
abbrev any_id : Option String → Option (String × String) → String
any_id (some d) r = d
any_id none none = ""
any_id none (some r) = r.1

listed : Activity → Listed
listed a = record {
  source_id = a.source_id;
  target_id = a.target_id;
  summary = a.summary;
  status = a.status;
  delegation_id = any_id a.delegation_id a.response;
  error_text = a.error_detail;
  response_preview = truncate (response_text a.response) 300;
  created_at = a.created_at;
}

-- `none` for the answer 500
unfoldable pub list_delegations : (Call → Bool) → String → Log → Option (List Listed)
unfolding listed
list_delegations fails i s =
    if fails list
    then none
    else some (
        map listed
          (limit 50 (order_desc (λ a. a.created_at) (select (is_delegation i) s.activities))))
