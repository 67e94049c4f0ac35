-- ===== src/Approvals/Tests.antt =====
-- Approvals of two workspaces of the family in Samples.
use starfire_agent_team.Prelude.{Bool, true, false, ◌≡◌, refl, some, none, List, [], ◌∷◌, arith}
use starfire_agent_team.Sql.{first}
use starfire_agent_team.World.{workspace}
use starfire_agent_team.Samples.{family}
use starfire_agent_team.Approvals.{
  Approval, Desk, Call, CreateBody, DecideBody, Listed, pending, denied, same_id, is_pending,
  create, list_all,
}
use starfire_agent_team.Approvals.Final.{Op, create_op, list_op, decide_op, run, run-decided}
use starfire_agent_team.Approvals.Listing.{list_all_settles}

abbrev healthy : Call → Bool
healthy _ = false

abbrev deploy : CreateBody
deploy = record { task_id = "t"; action = "deploy"; reason = ""; context = "{}" }

abbrev approve : DecideBody
approve = record { decision = "approved"; decided_by = "" }

abbrev deny : DecideBody
deny = record { decision = "denied"; decided_by = "ann" }

abbrev old_request : Approval
old_request = record {
  id = "a1";
  workspace_id = "mid";
  task_id = "t";
  action = "deploy";
  reason = "";
  context = "{}";
  status = pending;
  decided_by = none;
  decided_at = none;
  created_at = 100;
}

abbrev settled_request : Approval
settled_request = record old_request {
  id = "a2";
  status = denied;
  decided_by = some "ann";
  decided_at = some 120;
}

abbrev desk : Desk
desk = record { world = family; requests = settled_request ∷ old_request ∷ [] }

abbrev history : List Op
history =
    create_op healthy 300 "a3" "root" (some deploy)
    ∷ decide_op healthy 310 "mid" "a2" (some approve)
    ∷ list_op healthy 320
    ∷ []

run-decided_example : first (same_id "a2") (run history desk).requests ≡ some settled_request
unfolding first
run-decided_example = run-decided history desk "a2" settled_request refl refl

abbrev listed : List Listed
listed = record { request = old_request; workspace_name = "the mid" } ∷ []

list_all_settles_example :
    (q : Approval) × (first (same_id "a1") (list_all healthy 800 (run history desk)).0.requests
      ≡ some q)
    × (is_pending q.status ≡ false)
unfolding first
list_all_settles_example =
    list_all_settles history healthy 800 desk "a1" old_request refl (omega arith) refl

escalated :
    (create healthy 300 "a3" "mid" (some deploy) desk).0.world.events
    ≡ record { recorded = true; kind = "APPROVAL_REQUESTED"; workspace_id = "mid" }
      ∷ record { recorded = true; kind = "APPROVAL_ESCALATED"; workspace_id = "root" }
      ∷ []
unfolding create workspace first starfire_agent_team.World.record_and_broadcast
escalated = refl
