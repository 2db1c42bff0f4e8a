-- ===== src/Examples/Stores.antt =====
-- The theorems on transactions, commits and recorded decisions, at a concrete database.
use webmcp_backend.Common.{◌≡◌, ◌⊎◌, inl, refl, String, true, some, [], ◌∷◌, ok}
use webmcp_backend.Common.Text.{trim, trim_left, trim_right, is_space}
use webmcp_backend.Common.Int.{ℤ}
use webmcp_backend.Domain.Core.{validate_id, validate_ids}
use webmcp_backend.Domain.Proposal
use webmcp_backend.Domain.Commit
use webmcp_backend.Domain.Approval
use webmcp_backend.Domain.Approval.{Decision}
use webmcp_backend.Auth.Principal.{owner}
use webmcp_backend.Store.Tables.{OperationRow, Db}
use webmcp_backend.Store.Tx.{
  Session, Fault, ◌>>=◌, lift, statement, query, reject, now, open_and_run, with_tenant_tx,
}
use webmcp_backend.Store.Tx.Laws.{Returns, with_tenant_tx_atomic}
use webmcp_backend.Store.Sql.{count_where, update_where, find_business, find_user}
use webmcp_backend.Store.Commits.Rows.{
  CommitInput, CommitOutcome, find_operation, find_current, validate_commit_input,
}
use webmcp_backend.Store.Commits.Writes.{decision_id}
use webmcp_backend.Store.Commits.Transaction.{answer_existing, commit_tx, commit}
use webmcp_backend.Store.Commits.Replay.{
  Repeats, commit-Repeats, new_commit_refused, replay_succeeds,
}
use webmcp_backend.Store.Approvals.{
  as_proposal_status, status_text, insert_approval, decide_version, append_decision_audit,
  write_decision, decide_tx, record_decision,
}
use webmcp_backend.Store.Approvals.Once.{record_decision_once}
use webmcp_backend.Store.Approvals.Recorded.{Recorded, record_decision-Recorded}
use webmcp_backend.Examples.Data.{a_decision}

abbrev pub digest : String → String
digest s = s

abbrev an_operation : OperationRow
an_operation = record {
  id = "operation-1";
  organization_id = "org";
  business_id = "shop";
  proposal_id = "proposal-0";
  proposal_version_id = "version-0";
  idempotency_key = "key-1";
  expected_business_version = 2;
  status = Commit.Status.succeeded;
  committed_business_version = some 3;
  completed_at = some 5;
}

abbrev pub a_db : Db ℤ
a_db = record {
  users = record { id = "ann"; organization_id = "org"; role = owner } ∷ [];
  businesses = record { id = "shop"; organization_id = "org"; state_version = 3 } ∷ [];
  scenarios = [];
  proposals =
      record {
        id = "proposal-1";
        organization_id = "org";
        business_id = "shop";
        goal_id = "goal-1";
        current_version_number = 1;
      }
      ∷ [];
  versions =
      record {
        id = "version-1";
        organization_id = "org";
        proposal_id = "proposal-1";
        number = 1;
        scenario_id = "scenario-1";
        base_business_version = 3;
        summary = "advertise the tea";
        changes = [];
        status = Proposal.Status.in_review;
      }
      ∷ [];
  approvals = [];
  operations = an_operation ∷ [];
  decisions = [];
  audit = [];
}

abbrev pub a_session : Session ℤ
a_session = record { db = a_db; clock = 7; faults = [] }

-- Its commit is lost after the server has carried it out.
abbrev a_lossy_session : Session ℤ
a_lossy_session = record a_session {
  faults =
      Fault.fine ∷ Fault.fine ∷ Fault.fine ∷ Fault.fine ∷ Fault.fine ∷ Fault.fine ∷ Fault.fine
      ∷ Fault.fine ∷ Fault.fine ∷ Fault.lost ∷ [];
}

abbrev a_commit : CommitInput
a_commit = record {
  organization_id = "org";
  operation_id = "operation-1";
  idempotency_key = "key-1";
  business_id = "shop";
  proposal_id = "proposal-0";
  proposal_version_id = "version-0";
  actor_id = "ann";
  request_id = "request-1";
  authorized = true;
}

abbrev a_new_commit : CommitInput
a_new_commit = record a_commit { idempotency_key = "key-2" }

abbrev an_outcome : CommitOutcome
an_outcome = record {
  operation_id = "operation-1";
  decision_id = decision_id digest a_commit;
  status = Commit.Status.succeeded;
  committed_business_version = 3;
  replayed = true;
}

replay_succeeds_example : commit digest a_commit 7 true a_session ≡ (ok an_outcome, a_session)
unfolding validate_commit_input validate_ids validate_id trim trim_left trim_right is_space
    find_operation
replay_succeeds_example =
    replay_succeeds digest a_commit 7 a_session an_operation refl refl refl refl refl refl refl refl

commit-Repeats_example : Repeats digest a_commit 7 a_db an_outcome × (a_db ≡ a_db)
unfolding commit commit_tx answer_existing with_tenant_tx open_and_run ◌>>=◌ lift reject query
    statement validate_commit_input validate_ids validate_id trim trim_left trim_right is_space
    find_operation
commit-Repeats_example = commit-Repeats digest a_commit 7 true a_session a_session an_outcome refl

new_commit_refused_example :
    ¬ (Returns (commit digest a_new_commit 7 true) a_session an_outcome a_session)
unfolding find_operation
new_commit_refused_example =
    new_commit_refused digest a_new_commit 7 true a_session a_session an_outcome refl

with_tenant_tx_atomic_example :
    ((record_decision digest "org" a_decision "request-1" true a_lossy_session).1.db ≡ a_db)
    ⊎ ((a : Unit {0}) × (s1 : Session ℤ) × (s2 : Session ℤ) × Returns
          (decide_tx digest "org" a_decision "request-1")
          s1
          a
          s2
        × (s1.db ≡ a_db)
        × ((record_decision digest "org" a_decision "request-1" true a_lossy_session).1.db ≡ s2.db))
unfolding record_decision
with_tenant_tx_atomic_example =
    with_tenant_tx_atomic true "org" (decide_tx digest "org" a_decision "request-1") a_lossy_session

-- The session after the decision.
unfoldable pub decided_session : Session ℤ
unfolding record_decision
decided_session = (record_decision digest "org" a_decision "request-1" true a_session).1

pub it_decides :
    Returns (record_decision digest "org" a_decision "request-1" true) a_session tt decided_session
unfolding decided_session record_decision decide_tx write_decision insert_approval decide_version
    append_decision_audit as_proposal_status status_text with_tenant_tx open_and_run ◌>>=◌ lift
    reject query statement now validate_id trim trim_left trim_right is_space find_business
    find_user find_current count_where update_where
it_decides = refl

record_decision-Recorded_example :
    Recorded digest "org" a_decision "request-1" 7 a_db decided_session.db
record_decision-Recorded_example =
    record_decision-Recorded digest "org" a_decision "request-1" true a_session decided_session tt
      it_decides

abbrev a_second_decision : Decision
a_second_decision = record a_decision { id = "approval-2"; status = Approval.Status.rejected }

record_decision_once_example : ¬ (
    Returns
      (record_decision digest "org" a_second_decision "request-2" true)
      decided_session
      tt
      decided_session)
record_decision_once_example =
    record_decision_once digest "org" a_decision a_second_decision "request-1" "request-2" true true
      a_session decided_session decided_session decided_session (inl refl) it_decides refl refl refl
