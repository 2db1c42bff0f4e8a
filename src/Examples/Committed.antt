-- ===== src/Examples/Committed.antt =====
-- The theorem on the writes of a commit, at a concrete database.
use webmcp_backend.Common.{true, false, none, [], ◌∷◌}
use webmcp_backend.Common.Int.{ℤ}
use webmcp_backend.Domain.Proposal
use webmcp_backend.Domain.Commit
use webmcp_backend.Store.Tx.{Session}
use webmcp_backend.Store.Commits.Rows.{CommitInput, CommitOutcome}
use webmcp_backend.Store.Commits.Writes.{decision_id, write_commit}
use webmcp_backend.Store.Commits.Committed.{Committed}
use webmcp_backend.Examples.Stores.{digest, a_db, a_session}

abbrev its_commit : CommitInput
its_commit = record {
  organization_id = "org";
  operation_id = "operation-2";
  idempotency_key = "key-2";
  business_id = "shop";
  proposal_id = "proposal-1";
  proposal_version_id = "version-1";
  actor_id = "ann";
  request_id = "request-1";
  authorized = true;
}

-- The version of the proposal is approved, and the operation is recorded as requested.
abbrev an_approved_session : Session ℤ
an_approved_session = record a_session {
  db = record a_db {
    versions =
        record {
          id = "version-1";
          organization_id = "org";
          proposal_id = "proposal-1";
          number = 1;
          scenario_id = "scenario-1";
          base_business_version = 3;
          summary = "advertise the tea";
          changes = [];
          status = Proposal.Status.approved;
        }
        ∷ [];
    operations =
        record {
          id = "operation-2";
          organization_id = "org";
          business_id = "shop";
          proposal_id = "proposal-1";
          proposal_version_id = "version-1";
          idempotency_key = "key-2";
          expected_business_version = 3;
          status = Commit.Status.requested;
          committed_business_version = none;
          completed_at = none;
        }
        ∷ [];
  };
}

unfoldable written_session : Session ℤ
unfolding write_commit
written_session = (write_commit digest its_commit 7 3 "advertise the tea" an_approved_session).1

abbrev its_outcome : CommitOutcome
its_outcome = record {
  operation_id = "operation-2";
  decision_id = decision_id digest its_commit;
  status = Commit.Status.succeeded;
  committed_business_version = 4;
  replayed = false;
}
