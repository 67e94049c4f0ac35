-- ===== src/Approvals.antt =====
-- handlers/approvals.go: requests for the approval of an action, and the decisions on them.
pub mod Final
pub mod Listing
mod Tests
use starfire_agent_team.Prelude.{
  ℕ, ◌+◌, String, Bool, true, false, ◌&&◌, ◌||◌, not, Option, none, some, List, [], ◌∷◌, ◌++◌,
  if◌then◌else◌, ◌==◌, eqb, ltb, any,
}
use starfire_agent_team.Text.{is_empty}
use starfire_agent_team.Sql.{select, first, update}
use starfire_agent_team.Sql.Order.{order_desc, limit}
use starfire_agent_team.World.{
  Workspace, World, Response, reply, error, has_id, workspace, record_and_broadcast,
}

pub data Verdict : Type 0 where
  pending approved denied escalated : Verdict

abbrev pub is_pending : Verdict → Bool
is_pending pending = true
is_pending _ = false

-- A row of `approval_requests`. The context is the JSON text.
pub record Approval : Type 0 where
  pub id : String
  pub workspace_id : String
  pub task_id : String
  pub action : String
  pub reason : String
  pub context : String
  pub status : Verdict
  pub decided_by : Option String
  pub decided_at : Option ℕ
  pub created_at : ℕ

pub record Desk : Type 0 where
  pub world : World
  pub requests : List Approval

pub record CreateBody : Type 0 where
  pub task_id : String
  pub action : String
  pub reason : String
  pub context : String

pub record DecideBody : Type 0 where
  pub decision : String
  pub decided_by : String

-- The statements of this file that can fail.
pub data Call : Type 0 where
  insert announce parent escalate expire list decision announce_decision : Call

abbrev pub same_id : String → Approval → Bool
same_id i r = r.id == i

abbrev pub tell : Bool → String → String → Desk → Desk
tell failed kind i s = record s { world = record_and_broadcast failed kind i s.world }

requested : ℕ → String → String → CreateBody → Approval
requested now new_id i b = record {
  id = new_id;
  workspace_id = i;
  task_id = b.task_id;
  action = b.action;
  reason = b.reason;
  context = b.context;
  status = pending;
  decided_by = none;
  decided_at = none;
  created_at = now;
}

abbrev parent_of : Option Workspace → Option String
parent_of none = none
parent_of (some r) = r.parent_id

-- status = 'pending' AND created_at < now() - interval '10 minutes'
abbrev pub stale : ℕ → Approval → Bool
stale now r = is_pending r.status && ltb (r.created_at + 600) now

pub expired : ℕ → Approval → Approval
expired now r = record r {
  status = denied;
  decided_by = some "auto-expired";
  decided_at = some now;
}

-- WHERE id = $3 AND workspace_id = $4 AND status = 'pending'
abbrev pub open_request : String → String → Approval → Bool
open_request i workspace_id r = r.id == i && r.workspace_id == workspace_id && is_pending r.status

pub decided : ℕ → Verdict → String → Approval → Approval
decided now verdict by r = record r {
  status = verdict;
  decided_by = some by;
  decided_at = some now;
}

-- A row of the answer of ListAll.
pub record Listed : Type 0 where
  pub request : Approval
  pub workspace_name : String

-- JOIN workspaces w ON w.id = a.workspace_id
unfoldable pub join_workspaces : World → List Approval → List Listed
join_workspaces w [] = []
join_workspaces w (r ∷ rows) =
    let rest = join_workspaces w rows in
    elim (workspace r.workspace_id w) [
      | none ↦ rest
      | some q ↦ record { request = r; workspace_name = q.name } ∷ rest
    ]

abbrev pub listed_pending : Listed → Bool
listed_pending l = is_pending l.request.status

abbrev pub listed_at : Listed → ℕ
listed_at l = l.request.created_at

module _ (fails : Call → Bool) (now : ℕ) where
  unfoldable pub escalate_to : Option String → Desk → Desk
  escalate_to none s = s
  escalate_to (some p) s = tell (fails escalate) "APPROVAL_ESCALATED" p s

  -- The insert fails too where the workspace is not on file, or the id is.
  unfoldable pub create : String → String → Option CreateBody → Desk → Desk × Response
  unfolding requested escalate_to
  create new_id i none s = (s, error 400 "bad body")
  create new_id i (some b) s =
      if fails insert || any (same_id new_id) s.requests || not (any (has_id i) s.world.workspaces)
      then (s, error 500 "failed to create approval")
      else (
        escalate_to (if fails parent then none else parent_of (workspace i s.world)) (
            tell (fails announce) "APPROVAL_REQUESTED" i
              (record s { requests = s.requests ++ requested now new_id i b ∷ [] })),
        reply 201 (("approval_id", new_id) ∷ ("status", "pending") ∷ []),
      )

  unfoldable pub expire_stale : Desk → Desk
  unfolding expired
  expire_stale s =
      if fails expire
      then s
      else record s { requests = update (stale now) (expired now) s.requests }

  -- `none` for the answer 500
  unfoldable pub list_all : Desk → Desk × Option (List Listed)
  unfolding expire_stale
  list_all s =
      let swept = expire_stale s in
      (
        swept,
        if fails list
            then none
            else some (
                limit 50 (
                  order_desc listed_at
                    (select listed_pending (join_workspaces swept.world swept.requests)))),
      )

  unfoldable pub list_of : String → Desk → Option (List Approval)
  list_of i s =
      if fails list
      then none
      else some
          (limit 50 (order_desc (λ r. r.created_at) (select (λ r. r.workspace_id == i) s.requests)))

  -- The body behind the check of the decision.
  unfoldable pub apply_decision :
      String → String → String → Verdict → String → String → Desk → Desk × Response
  unfolding decided
  apply_decision i request_id by verdict outcome kind s =
      if fails decision
      then (s, error 500 "failed to update")
      else if not (any (open_request request_id i) s.requests)
      then (s, error 404 "approval not found or already decided")
      else (
        tell (fails announce_decision) kind i (record s {
          requests = update (open_request request_id i) (decided now verdict by) s.requests;
        }),
        reply 200 (("status", outcome) ∷ ("approval_id", request_id) ∷ []),
      )

  unfoldable pub decide : String → String → Option DecideBody → Desk → Desk × Response
  unfolding apply_decision
  decide i request_id none s = (s, error 400 "bad body")
  decide i request_id (some b) s =
      let by = if is_empty b.decided_by then "human" else b.decided_by in
      if b.decision == "approved"
      then apply_decision i request_id by approved b.decision "APPROVAL_APPROVED" s
      else if b.decision == "denied"
      then apply_decision i request_id by denied b.decision "APPROVAL_DENIED" s
      else (s, error 400 "decision must be 'approved' or 'denied'")
