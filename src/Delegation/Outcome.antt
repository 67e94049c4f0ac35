-- ===== src/Delegation/Outcome.antt =====
-- How a delegation ends.
use starfire_agent_team.Prelude.{
  ℕ, ◌≡◌, refl, ◌∙◌, String, Bool, true, false, ◌&&◌, ◌||◌, not, Option, some, [], ◌∷◌, arith,
  if◌then◌else◌, ◌==◌, Bool-cases, inl, inr, eqb,
}
use starfire_agent_team.Text.{is_empty}
use starfire_agent_team.Sql.{first}
use starfire_agent_team.Sql.Laws.{first-update, first-append, first_sound}
use starfire_agent_team.World.{World, Response, error, record_and_broadcast}
use starfire_agent_team.Access.{Lookup, can_communicate, healthy}
use starfire_agent_team.Access.Laws.{can_communicate_fail_closed}
use starfire_agent_team.Proxy
use starfire_agent_team.Proxy.{Proxied, Reply, is_system_caller, proxy_a2a_request, refused}
use starfire_agent_team.Json.{Json}
use starfire_agent_team.Delegation.Answer.{extract_response_text}
use starfire_agent_team.Delegation.{
  Activity, Log, Dispatch, Call, update_status, tracks, with_status, refuses, insert_row, in_world,
  update_delegation_status, dispatched, finish, announce_status, execute_delegation,
  is_transient_proxy_error, error_text, body_of, result, failure_row, success_row, fail_delegation,
  complete_delegation,
}

module _ (fails : Call → Bool) (works : fails update_status ≡ false) (e : Dispatch) where
  abbrev mine : Activity → Bool
  mine = tracks e.source_id e.delegation_id

  tracked_update :
      (status detail : String) (s : Log) (r : Activity)
      → first mine s.activities ≡ some r
      → first mine
          (update_delegation_status fails e.source_id e.delegation_id status detail s).activities
        ≡ some (with_status status detail r)
  unfolding update_delegation_status with_status
  tracked_update status detail s r found = ground (
    arith,
    works,
    first-update mine mine (with_status status detail) (λ a. refl) s.activities,
    tracked r,
  )
    where
      tracked : (q : Activity) → first mine s.activities ≡ some q → mine q ≡ true
      tracked q found_q = first_sound mine s.activities q found_q

  tracked_insert :
      (call : Call) (a : Activity) (s : Log) (r : Activity)
      → first mine s.activities ≡ some r
      → first mine (insert_row fails call a s).activities ≡ some r
  unfolding insert_row
  tracked_insert call a s r found = elim (Bool-cases (fails call || refuses a s)) [
    | inl k ↦ rw k found
    | inr k ↦ rw k (first-append mine s.activities (a ∷ []) r found)
  ]

  verdict : Proxied → String
  verdict p = if p.is_error then "failed" else "completed"

  failed_row :
      (now : ℕ) (why : String) (s : Log) (r : Activity)
      → first mine s.activities ≡ some r
      → first mine (fail_delegation fails now e why s).activities
        ≡ some (with_status "failed" why r)
  unfolding fail_delegation
  failed_row now why s r found =
      tracked_insert result (failure_row now e why)
        (update_delegation_status fails e.source_id e.delegation_id "failed" why s)
        (with_status "failed" why r) (tracked_update "failed" why s r found)

  completed_row :
      (now : ℕ) (answer : String) (s : Log) (r : Activity)
      → first mine s.activities ≡ some r
      → first mine (complete_delegation fails now e answer s).activities
        ≡ some (with_status "completed" "" r)
  unfolding complete_delegation
  completed_row now answer s r found =
      tracked_update "completed" "" (insert_row fails result (success_row now e answer) s) r
        (tracked_insert result (success_row now e answer) s r found)

  finished :
      (unmarshal : String → Option Json) (now : ℕ) (p : Proxied) (s : Log) (r : Activity)
      → first mine s.activities ≡ some r
      → (q : Activity) × (first mine (finish fails unmarshal now e p s).activities ≡ some q)
        × (q.status ≡ (if p.is_error then "failed" else "completed"))
  unfolding finish with_status
  finished unmarshal now p s r found =
      let answer = extract_response_text unmarshal (body_of p.response) in
      elim (Bool-cases p.is_error) [
        | inl k ↦ (
          with_status "failed" (error_text p.response) r,
          rw k (failed_row now (error_text p.response) s r found),
          rw k refl,
        )
        | inr k ↦
            (with_status "completed" "" r, rw k (completed_row now answer s r found), rw k refl)
      ]

-- The attempt that counts: the second one where the first met a transient error and the context is
-- alive, else the first.
abbrev pub last_attempt : (Bool → World → Proxied) → Bool → (World → World) → World → Proxied
last_attempt send cancelled pause w =
    let one = send false w in
    let two = send true (pause one.world) in
    if one.is_error && (eqb one.response.code 503 || eqb one.response.code 502) && not cancelled
    then two
    else one

-- A delegation that is on file ends, where its updates succeed, as failed if the last attempt to
-- reach the target met an error of the proxy, and as completed if the target answered, whatever its
-- HTTP status. The last attempt is the first one, or, where that met 502 or 503 and the context is
-- alive, the one after the pause.
pub status-execute_delegation :
    (fails : Call → Bool) (unmarshal : String → Option Json) (now : ℕ) (e : Dispatch)
    (send : Bool → World → Proxied) (cancelled : Bool) (pause : World → World) (s : Log)
    (r : Activity)
    → fails update_status ≡ false
    → first (tracks e.source_id e.delegation_id) s.activities ≡ some r
    → (q : Activity) × (first
          (tracks e.source_id e.delegation_id)
          (execute_delegation fails unmarshal now e send cancelled pause s).activities
        ≡ some q)
      × (q.status ≡ (
          if (last_attempt send cancelled pause (dispatched fails e s).world).is_error
          then "failed"
          else "completed"))
unfolding execute_delegation is_transient_proxy_error dispatched
status-execute_delegation fails unmarshal now e send cancelled pause s r works found =
    elim (Bool-cases (one.is_error && is_transient_proxy_error one.response && not cancelled)) [
      | inl k ↦ rw k (finished fails works e unmarshal now two (in_world sent two.world) _ tracked)
      | inr k ↦ rw k (finished fails works e unmarshal now one (in_world sent one.world) _ tracked)
    ]
  where
    sent : Log
    sent = dispatched fails e s

    one : Proxied
    one = send false sent.world

    two : Proxied
    two = send true (pause one.world)

    tracked :
        first (tracks e.source_id e.delegation_id) sent.activities
        ≡ some (with_status "dispatched" "" r)
    tracked = tracked_update fails works e "dispatched" "" s r found

links-record_and_broadcast :
    (failed : Bool) (kind i a b : String) (w : World)
    → can_communicate healthy a b (record_and_broadcast failed kind i w)
      ≡ can_communicate healthy a b w
unfolding record_and_broadcast can_communicate starfire_agent_team.World.workspace
links-record_and_broadcast true kind i a b w = refl
links-record_and_broadcast false kind i a b w = refl

links-dispatched :
    (fails : Call → Bool) (e : Dispatch) (a b : String) (s : Log)
    → can_communicate healthy a b (dispatched fails e s).world ≡ can_communicate healthy a b s.world
unfolding dispatched update_delegation_status
links-dispatched fails e a b s = elim (Bool-cases (fails update_status)) [
  | inl k ↦ rw k (links-record_and_broadcast (fails announce_status) _ _ a b s.world)
  | inr k ↦ rw k (links-record_and_broadcast (fails announce_status) _ _ a b s.world)
]

-- An error that is not transient is not met with a second attempt.
once :
    (fails : Call → Bool) (unmarshal : String → Option Json) (now : ℕ) (e : Dispatch)
    (send : Bool → World → Proxied) (cancelled : Bool) (pause : World → World) (s : Log)
    (p : Proxied)
    → send false (dispatched fails e s).world ≡ p
    → (p.is_error && is_transient_proxy_error p.response && not cancelled) ≡ false
    → execute_delegation fails unmarshal now e send cancelled pause s
      ≡ finish fails unmarshal now e p (in_world (dispatched fails e s) p.world)
unfolding execute_delegation
once fails unmarshal now e send cancelled pause s p k h = rw (k, h) refl

denial : Response
denial = error 403 "access denied: workspaces cannot communicate per hierarchy rules"

module _ (fails : Call → Bool) (unmarshal : String → Option Json) (now : ℕ) (e : Dispatch)
    (proxy_fails : Bool → Proxy.Call → Bool) (has_provisioner in_docker : Bool)
    (agent : Bool → String → String → Reply) (running : Bool → Option Bool)
    (links : Bool → Lookup → Bool) (at : Bool → ℕ) (body : String) where
  -- The attempts by proxyA2ARequest, each with what fails and what the agent does at its time.
  abbrev pub by_proxy : Bool → World → Proxied
  by_proxy retry w =
      proxy_a2a_request (proxy_fails retry) has_provisioner in_docker (agent retry) (running retry)
        (links retry) (at retry) e.source_id e.target_id (some body) w

  refused_first :
      (w : World)
      → is_empty e.source_id ≡ false
      → (e.source_id == e.target_id) ≡ false
      → is_system_caller e.source_id ≡ false
      → can_communicate healthy e.source_id e.target_id w ≡ false
      → by_proxy false w ≡ refused w denial
  unfolding proxy_a2a_request denial
  refused_first w named other agent_id denied = rw (named, other, agent_id, still_denied) refl
    where
      still_denied : can_communicate (links false) e.source_id e.target_id w ≡ false
      still_denied =
          ground (arith, can_communicate_fail_closed (links false) w e.source_id e.target_id)

  -- A delegation to a workspace that the access check does not let its source reach ends, where its
  -- updates succeed, as failed with the error of the access check; it is not attempted again.
  pub denied-execute_delegation :
      (cancelled : Bool) (pause : World → World) (s : Log) (r : Activity)
      → fails update_status ≡ false
      → first (tracks e.source_id e.delegation_id) s.activities ≡ some r
      → is_empty e.source_id ≡ false
      → (e.source_id == e.target_id) ≡ false
      → is_system_caller e.source_id ≡ false
      → can_communicate healthy e.source_id e.target_id s.world ≡ false
      → (q : Activity) × (first
            (tracks e.source_id e.delegation_id)
            (execute_delegation fails unmarshal now e by_proxy cancelled pause s).activities
          ≡ some q)
        × (q.status ≡ "failed")
        × (q.error_detail ≡ "access denied: workspaces cannot communicate per hierarchy rules")
  unfolding finish with_status is_transient_proxy_error denial dispatched
  denied-execute_delegation cancelled pause s r works found named other agent_id denied = (
    with_status "failed" (error_text denial) (with_status "dispatched" "" r),
    rw
        (once fails unmarshal now e by_proxy cancelled pause s (refused sent.world denial)
          first_answer refl)
        (failed_row fails works e now (error_text denial) sent (with_status "dispatched" "" r)
          (tracked_update fails works e "dispatched" "" s r found)),
    refl,
    refl,
  )
    where
      sent : Log
      sent = dispatched fails e s

      first_answer : by_proxy false sent.world ≡ refused sent.world denial
      first_answer =
          refused_first sent.world named other agent_id
            (links-dispatched fails e e.source_id e.target_id s ∙ denied)
