-- ===== src/Examples/Services.antt =====
-- The theorems on the planning and approval services, at concrete inputs.
use webmcp_backend.Common.{ℕ, ◌≡◌, refl, true, some}
use webmcp_backend.Common.Text.{trim, trim_left, trim_right, is_space}
use webmcp_backend.Common.Int.{ℤ}
use webmcp_backend.Common.Io.{◌>>=◌, lift, reject}
use webmcp_backend.Domain.Core.{new_id, validate_id, validate_ids}
use webmcp_backend.Domain.Approval
use webmcp_backend.Domain.Approval.{Decision, validate_decision}
use webmcp_backend.Store.Tx.{Session, now}
use webmcp_backend.Store.Approvals.Recorded.{Recorded}
use webmcp_backend.Workflow.Ports.{fresh_id, required}
use webmcp_backend.Workflow.Planning.{ConstraintInput}
use webmcp_backend.Workflow.Approvals.{DecisionInput, decision_for, decide}
use webmcp_backend.Workflow.Approvals.Decided.{postgres_approvals, decide-Recorded}
use webmcp_backend.Examples.Stores.{digest, a_session}
use webmcp_backend.Store.Tx.{statement, query, open_and_run, with_tenant_tx}
use webmcp_backend.Store.Sql.{count_where, update_where, find_business, find_user}
use webmcp_backend.Store.Commits.Rows.{find_current}
use webmcp_backend.Store.Approvals.{
  as_proposal_status, status_text, insert_approval, decide_version, append_decision_audit,
  write_decision, decide_tx, record_decision,
}
use webmcp_backend.Examples.Ports.{always}

abbrev constraint_input : ConstraintInput
constraint_input = record {
  organization_id = "org";
  actor_id = "ann";
  goal_id = "goal-1";
  key = " budget ";
  value = "900";
  hard = true;
  request_id = "request-1";
}

abbrev decision_input : DecisionInput
decision_input = record {
  organization_id = "org";
  actor_id = "ann";
  proposal_id = "proposal-1";
  proposal_version_id = "version-1";
  business_id = "shop";
  status = Approval.Status.approved;
  reason = "looks right";
  request_id = "request-1";
}

random_keeps : (t : Session ℤ) → (always t).1.db ≡ t.db
random_keeps t = refl

clock_keeps : (t : Session ℤ) → (now t).1.db ≡ t.db
unfolding now
clock_keeps t = refl

-- The session after the service has decided.
unfoldable service_session : Session ℤ
unfolding decide
service_session =
    (decide always now (some (postgres_approvals digest true)) decision_input a_session).1

decide-Recorded_example :
    (at : ℕ) × Recorded digest "org"
      (decision_for decision_input "approval-00")
      "request-1"
      at
      a_session.db
      service_session.db
unfolding service_session decide decision_for validate_ids validate_id trim trim_left trim_right
    is_space required fresh_id new_id validate_decision ◌>>=◌ lift reject record_decision decide_tx
    write_decision insert_approval decide_version append_decision_audit as_proposal_status
    status_text with_tenant_tx open_and_run query statement now find_business find_user find_current
    count_where update_where
decide-Recorded_example =
    decide-Recorded digest true always now decision_input
      (decision_for decision_input "approval-00") a_session service_session random_keeps clock_keeps
      refl
