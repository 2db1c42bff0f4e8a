-- ===== src/Store/Commits/Transaction.antt =====
-- internal/platform/postgres/commit_service.go: the commit transaction. `digest` gives the
-- hexadecimal text of the first sixteen bytes of a text's SHA-256.
use webmcp_backend.Common.{
  ℕ, String, Bool, true, not, ◌||◌, none, some, [], ◌==◌, nat_eq, string_eq, about, ok, err,
}
use webmcp_backend.Common.Int.{pos}
use webmcp_backend.Domain.Proposal.{Proposal, status_eq as proposal_status_eq}
use webmcp_backend.Domain.Approval.{Decision}
use webmcp_backend.Domain.Commit
use webmcp_backend.Domain.Commit.{ValidationInput, validate}
use webmcp_backend.Store.Tables.{ProposalRow, VersionRow, ApprovalRow, OperationRow}
use webmcp_backend.Store.Sql.{row_or, is_staff, find_business, find_user}
use webmcp_backend.Store.Tx.{Tx, ◌>>=◌, ◌>>◌, lift, statement, query, reject, with_tenant_tx}
use webmcp_backend.Store.Commits.Writes.{decision_id, write_commit}
use webmcp_backend.Store.Commits.Rows.{
  CommitInput, CommitOutcome, commit_in_progress, idempotency_conflict, business_not_found,
  proposal_not_found, approval_not_found, commit_unauthorized, validate_commit_input,
  version_or_zero, find_operation, find_current, find_approval, insert_operation,
}

-- The aggregate that the transaction rebuilds from the selected row: the row has neither the goal
-- nor the scenario, and the fields for them are left empty.
unfoldable proposal_aggregate : ProposalRow → VersionRow → Proposal
proposal_aggregate p v = record {
  id = p.id;
  business_id = p.business_id;
  goal_id = "";
  current = record {
    id = v.id;
    proposal_id = p.id;
    number = pos v.number;
    scenario_id = "";
    base_business_version = v.base_business_version;
    summary = v.summary;
    changes = [];
    status = v.status;
  };
  version = 1;
}

unfoldable approval_aggregate : ApprovalRow → Decision
approval_aggregate a = record {
  id = a.id;
  proposal_id = a.proposal_id;
  proposal_version_id = a.proposal_version_id;
  business_id = a.business_id;
  decided_by = a.decided_by;
  status = a.status;
  reason = a.reason;
  expires_at = version_or_zero a.expires_at;
}

unfoldable pub gate_input :
    {F : Type 0} → CommitInput → ℕ → ℕ → ProposalRow → VersionRow → ApprovalRow → ValidationInput F
unfolding proposal_aggregate approval_aggregate
gate_input i now current p v a = record {
  now = now;
  business = record {
    business_id = i.business_id;
    version = current;
    products = [];
    customers = [];
    orders = [];
    metrics = [];
  };
  proposal = proposal_aggregate p v;
  approval = approval_aggregate a;
  operation = record {
    id = i.operation_id;
    idempotency_key = i.idempotency_key;
    proposal_id = i.proposal_id;
    proposal_version_id = i.proposal_version_id;
    business_id = i.business_id;
    expected_business_version = current;
    status = Commit.Status.requested;
  };
  authorized = i.authorized;
  existing_operation_id = "";
}

module _ {F : Type 0} (digest : String → String) (i : CommitInput) (now : ℕ) where
  -- The row of the idempotency key is there: a replay, or a conflict.
  unfoldable pub answer_existing : OperationRow → Tx F CommitOutcome
  answer_existing o = do
    reject
        (not (o.id == i.operation_id)
          || not (o.proposal_id == i.proposal_id)
          || not (o.proposal_version_id == i.proposal_version_id)
          || not (o.business_id == i.business_id))
        idempotency_conflict
    lift (elim o.status [
      | Commit.Status.succeeded ↦ ok (record {
        operation_id = i.operation_id;
        decision_id = decision_id digest i;
        status = Commit.Status.succeeded;
        committed_business_version = version_or_zero o.committed_business_version;
        replayed = true;
      })
      | Commit.Status.requested ↦ err commit_in_progress
      | Commit.Status.failed ↦ ok (record {
        operation_id = i.operation_id;
        decision_id = "";
        status = Commit.Status.failed;
        committed_business_version = 0;
        replayed = true;
      })
      | Commit.Status.other s ↦ err (about "unknown persisted commit status" s)
    ])

  -- The key is new: the operation is recorded, checked and carried out.
  unfoldable pub execute_new : Tx F CommitOutcome
  execute_new = do
    statement "create commit operation" (insert_operation i.organization_id i)
    b ←
        query "lock business"
          (λ db. row_or business_not_found (find_business i.organization_id i.business_id db))
    u ←
        query "read commit actor"
          (λ db. row_or commit_unauthorized (find_user i.organization_id i.actor_id db))
    reject (not (is_staff u.role)) commit_unauthorized
    found ← query "read proposal" (λ db.
        row_or proposal_not_found
          (find_current i.organization_id i.proposal_id i.proposal_version_id i.business_id db))
    a ←
        query "read approval"
          (λ db. row_or approval_not_found (find_approval i.organization_id i db))
    lift (validate (gate_input {F = F} i now b.state_version found.0 found.1 a))
    write_commit digest i now b.state_version found.1.summary

  -- `commitTx`
  unfoldable pub commit_tx : Tx F CommitOutcome
  commit_tx = do
    existing ←
        query "lock idempotency record"
          (λ db. ok (find_operation i.organization_id i.idempotency_key db))
    elim existing [ none ↦ execute_new | some o ↦ answer_existing o ]

  -- `Commit`
  unfoldable pub commit : Bool → Tx F CommitOutcome
  commit pool = do lift (validate_commit_input i); with_tenant_tx pool i.organization_id commit_tx
