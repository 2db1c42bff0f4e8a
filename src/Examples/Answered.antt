-- ===== src/Examples/Answered.antt =====
-- The theorems on decisions and commits that are answered with success, at concrete requests.
use webmcp_backend.Common.{ℕ, ◌≡◌, refl, String, true, some, [], ◌∷◌, Error}
use webmcp_backend.Common.Io.{◌>>=◌, lift, reject}
use webmcp_backend.Common.Int.{ℤ}
use webmcp_backend.Common.Text.{trim, trim_left, trim_right, is_space}
use webmcp_backend.Domain.Core.{new_id, validate_id, validate_ids}
use webmcp_backend.Domain.Commit
use webmcp_backend.Domain.Approval
use webmcp_backend.Domain.Approval.{Decision, validate_decision}
use webmcp_backend.Auth.Principal.{Principal, can_approve, can_commit}
use webmcp_backend.Store.Tx.{Session, now, statement, query, open_and_run, with_tenant_tx}
use webmcp_backend.Store.Sql.{count_where, update_where, find_business, find_user}
use webmcp_backend.Store.Approvals.{
  as_proposal_status, status_text, insert_approval, decide_version, append_decision_audit,
  write_decision, decide_tx, record_decision,
}
use webmcp_backend.Store.Approvals.Recorded.{Recorded}
use webmcp_backend.Store.Commits.Rows.{
  CommitInput, CommitOutcome, find_operation, find_current, validate_commit_input,
}
use webmcp_backend.Store.Commits.Writes.{decision_id}
use webmcp_backend.Store.Commits.Transaction.{answer_existing, commit_tx, commit}
use webmcp_backend.Store.Commits.Replay.{Repeats}
use webmcp_backend.Workflow.Ports.{fresh_id, required}
use webmcp_backend.Workflow.Approvals.{decision_for, decide}
use webmcp_backend.Workflow.Approvals.Decided.{postgres_approvals}
use webmcp_backend.Http.Replies.{proceeds, Success, Body, read}
use webmcp_backend.Http.Gates.{admit, gated}
use webmcp_backend.Http.Handlers.Requests.{ApprovalDecisionRequest}
use webmcp_backend.Http.Handlers.Proposals.{decide_approval}
use webmcp_backend.Http.Handlers.Commits.{
  CommitRequest, operation_id, admit_commit, commit_proposal,
}
use webmcp_backend.Http.Handlers.Commits.Called.{IsCommitOf, commit_proposal-Repeats}
use webmcp_backend.Http.Handlers.Decisions.{IsDecisionOf, decide_approval-Recorded}
use webmcp_backend.Examples.Stores.{digest, a_session, a_db}
use webmcp_backend.Examples.Ports.{always}
use webmcp_backend.Examples.Bearer.{ann}

abbrev its_text : Error → String
its_text e = ""

abbrev a_decision_request : Body ApprovalDecisionRequest
a_decision_request = read (record {
  business_id = "shop";
  proposal_version_id = "version-1";
  decision = " approved";
  reason = "looks right";
})

random_keeps : (t : Session ℤ) → (always t).1.db ≡ t.db
random_keeps t = refl

clock_keeps : (t : Session ℤ) → (now t).1.db ≡ t.db
unfolding now
clock_keeps t = refl

abbrev the_decision : Decision
the_decision = record {
  id = "approval-00";
  proposal_id = "proposal-1";
  proposal_version_id = "version-1";
  business_id = "shop";
  decided_by = "ann";
  status = Approval.Status.approved;
  reason = "looks right";
  expires_at = 0;
}

abbrev the_answer : Success Decision
the_answer = record { status = 200; value = the_decision; request_id = "request-1" }

-- The session after the handler has answered.
unfoldable decided_session : Session ℤ
unfolding gated decide_approval
decided_session =
    (gated (decide_approval its_text "request-1" "proposal-1") (some ann)
      (some (decide always now (some (postgres_approvals digest true)))) a_decision_request
      "request-1" a_session).1

it_decides :
    gated
      (decide_approval its_text "request-1" "proposal-1")
      (some ann)
      (some (decide always now (some (postgres_approvals digest true))))
      a_decision_request
      "request-1"
      a_session
    ≡ (proceeds the_answer, decided_session)
unfolding decided_session gated admit decide_approval can_approve decide decision_for validate_ids
    validate_id trim trim_left trim_right is_space required fresh_id new_id validate_decision ◌>>=◌
    lift reject record_decision decide_tx write_decision insert_approval decide_version
    append_decision_audit as_proposal_status status_text with_tenant_tx open_and_run query statement
    now find_business find_user find_current count_where update_where
it_decides = refl

decide_approval-Recorded_example :
    (user : Principal) × (r : ApprovalDecisionRequest) × (at : ℕ) × (some ann ≡ some user)
    × (can_approve user ≡ true)
    × (a_decision_request ≡ read r)
    × IsDecisionOf "proposal-1" r the_decision
    × (the_decision.decided_by ≡ user.user_id)
    × Recorded digest user.organization_id the_decision "request-1" at a_session.db
        decided_session.db
decide_approval-Recorded_example =
    decide_approval-Recorded its_text "request-1" digest true always now (some ann) "proposal-1"
      a_decision_request a_session decided_session the_answer random_keeps clock_keeps it_decides

abbrev a_committed_session : Session ℤ
a_committed_session = record a_session {
  db = record a_db {
    operations =
        record {
          id = "operation-org:commit:key-0001";
          organization_id = "org";
          business_id = "shop";
          proposal_id = "proposal-0";
          proposal_version_id = "version-0";
          idempotency_key = "key-0001";
          expected_business_version = 2;
          status = Commit.Status.succeeded;
          committed_business_version = some 3;
          completed_at = some 5;
        }
        ∷ [];
  };
}

abbrev a_commit_request : Body CommitRequest
a_commit_request = read (record { proposal_version_id = "version-0"; business_id = "shop" })

abbrev the_commit : CommitInput
the_commit = record {
  organization_id = "org";
  operation_id = "operation-org:commit:key-0001";
  idempotency_key = "key-0001";
  business_id = "shop";
  proposal_id = "proposal-0";
  proposal_version_id = "version-0";
  actor_id = "ann";
  request_id = "request-1";
  authorized = true;
}

abbrev the_outcome : Success CommitOutcome
the_outcome = record {
  status = 200;
  value = record {
    operation_id = "operation-org:commit:key-0001";
    decision_id = decision_id digest the_commit;
    status = Commit.Status.succeeded;
    committed_business_version = 3;
    replayed = true;
  };
  request_id = "request-1";
}

it_commits :
    commit_proposal digest
      (some ann)
      "request-1"
      (some (λ i. commit digest i 7 true))
      "proposal-0"
      a_commit_request
      "key-0001"
      a_committed_session
    ≡ (proceeds the_outcome, a_committed_session)
unfolding commit_proposal admit_commit operation_id can_commit commit commit_tx answer_existing
    with_tenant_tx open_and_run ◌>>=◌ lift reject query statement validate_commit_input validate_ids
    validate_id trim trim_left trim_right is_space find_operation
it_commits = refl

commit_proposal-Repeats_example :
    (user : Principal) × (r : CommitRequest) × (i : CommitInput) × (some ann ≡ some user)
    × (a_commit_request ≡ read r)
    × IsCommitOf digest user "request-1" "proposal-0" r "key-0001" i
    × Repeats digest i 7 a_committed_session.db the_outcome.value
    × (a_committed_session.db ≡ a_committed_session.db)
commit_proposal-Repeats_example =
    commit_proposal-Repeats digest (some ann) "request-1" 7 true "proposal-0" a_commit_request
      "key-0001" a_committed_session a_committed_session the_outcome it_commits
