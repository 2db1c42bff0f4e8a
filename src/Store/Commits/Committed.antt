-- ===== src/Store/Commits/Committed.antt =====
-- internal/platform/postgres/commit_service.go: what the writes of a commit leave in the database, once
-- the gate is passed.
use webmcp_backend.Common.{
  ℕ, ◌+◌, ◌≡◌, Bool, false, some, [], ◌∷◌, ◌&&◌, ◌==◌, nat_eq, string_eq, String,
}
use webmcp_backend.Domain.Core.{human}
use webmcp_backend.Domain.Proposal
use webmcp_backend.Domain.Proposal.{status_eq as proposal_status_eq}
use webmcp_backend.Domain.Commit
use webmcp_backend.Store.Tables.{BusinessRow, VersionRow, OperationRow, DecisionRow, AuditRow, Db}
use webmcp_backend.Store.Sql.{count_where, update_where}
use webmcp_backend.Store.Commits.Rows.{CommitInput, CommitOutcome}
use webmcp_backend.Store.Commits.Writes.{decision_id, audit_id}

-- The business of the input at the version that the commit was based on.
abbrev pub is_based_on : CommitInput → ℕ → BusinessRow → Bool
is_based_on i current b =
    b.organization_id == i.organization_id && b.id == i.business_id && b.state_version == current

-- The approved version of the input.
abbrev pub is_approved_version : CommitInput → VersionRow → Bool
is_approved_version i v =
    v.organization_id == i.organization_id
    && v.id == i.proposal_version_id
    && v.status == Proposal.Status.approved

abbrev pub is_operation : CommitInput → OperationRow → Bool
is_operation i o = o.organization_id == i.organization_id && o.id == i.operation_id

-- The row of the committed decision.
abbrev pub decision_row : (String → String) → CommitInput → ℕ → String → DecisionRow
decision_row digest i version summary = record {
  id = decision_id digest i;
  organization_id = i.organization_id;
  business_id = i.business_id;
  proposal_id = i.proposal_id;
  proposal_version_id = i.proposal_version_id;
  committed_business_version = version;
  summary = summary;
}

-- The audit event of the commit.
abbrev pub commit_event : (String → String) → CommitInput → ℕ → AuditRow
commit_event digest i now = record {
  organization_id = i.organization_id;
  event = record {
    id = audit_id digest i;
    actor_type = human;
    actor_id = i.actor_id;
    action = "commit_executed";
    aggregate = "business";
    aggregate_id = i.business_id;
    request_id = i.request_id;
    operation_id = i.operation_id;
    occurred_at = now;
    metadata = ("proposal_id", i.proposal_id) ∷ ("proposal_version_id", i.proposal_version_id) ∷ [];
  };
}

abbrev pub bumped : ℕ → BusinessRow → BusinessRow
bumped version b = record b { state_version = version }

abbrev pub as_committed : VersionRow → VersionRow
as_committed v = record v { status = Proposal.Status.committed }

abbrev pub completed : ℕ → ℕ → OperationRow → OperationRow
completed now version o = record o {
  status = Commit.Status.succeeded;
  committed_business_version = some version;
  completed_at = some now;
}

module _ {F : Type 0} (digest : String → String) (i : CommitInput) (now : ℕ) where
  -- One business has moved to the next version; the decision, the audit event, the committed version
  -- and the completed operation are there, and nothing else has changed.
  pub record Committed (current : ℕ) (summary : String) (before after : Db F) (out : CommitOutcome)
      : Type 0 where
    pub effect : after ≡ record before {
      decisions = decision_row digest i (current + 1) summary ∷ before.decisions;
      businesses = update_where (is_based_on i current) (bumped (current + 1)) before.businesses;
      versions = update_where (is_approved_version i) as_committed before.versions;
      operations = update_where (is_operation i) (completed now (current + 1)) before.operations;
      audit = commit_event digest i now ∷ before.audit;
    }
    pub one_business : count_where (is_based_on i current) before.businesses ≡ 1
    pub same_operation : out.operation_id ≡ i.operation_id
    pub succeeded : out.status ≡ Commit.Status.succeeded
    pub next_version : out.committed_business_version ≡ current + 1
    pub not_replayed : out.replayed ≡ false
