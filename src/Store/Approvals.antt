-- ===== src/Store/Approvals.antt =====
-- internal/platform/postgres/approval_repository.go: a human decision, recorded together with the
-- transition of the proposal version and the audit event.
pub mod Recorded
pub mod Once
use Prim.Native.String.{◌++◌ as append}
use webmcp_backend.Common.{
  ℕ, ◌≡◌, String, Bool, true, false, not, ◌&&◌, ◌||◌, Option, none, some, List, [], ◌∷◌, ◌==◌,
  nat_eq, string_eq, any, find?, message, wrap, Error, Result, ok, err, if◌then◌else◌,
}
use webmcp_backend.Domain.Core.{Ident, human}
use webmcp_backend.Domain.Proposal
use webmcp_backend.Domain.Proposal.{status_eq as proposal_status_eq}
use webmcp_backend.Domain.Approval
use webmcp_backend.Domain.Approval.{Decision, is_zero, status_eq as approval_status_eq}
use webmcp_backend.Store.Tables.{
  BusinessRow, UserRow, ProposalRow, VersionRow, ApprovalRow, AuditRow, Db,
}
use webmcp_backend.Store.Sql.{
  count_where, update_where, row_or, constrained, is_staff, find_business, find_user,
}
use webmcp_backend.Store.Tx.{
  Tx, ◌>>=◌, ◌>>◌, lift, statement, query, reject, now, database_error, with_tenant_tx,
}
use webmcp_backend.Store.Commits.Rows.{find_current}
use webmcp_backend.Store.Commits.Writes.{artifact_id}

-- The sentinels of internal/application/approvalworkflow/service.go.
abbrev approval_context : Error
approval_context = message "approval context mismatch"

abbrev approval_state : Error
approval_state = message "proposal is not awaiting approval"

abbrev approval_stale : Error
approval_stale = message "proposal is stale"

abbrev approval_unauthorized : Error
approval_unauthorized = message "approval actor is not authorized"

-- `proposal.Status(decision.Status)`: the same string, read as the status of a proposal version.
unfoldable pub as_proposal_status : Approval.Status → Proposal.Status
as_proposal_status Approval.Status.pending = Proposal.Status.other "pending"
as_proposal_status Approval.Status.approved = Proposal.Status.approved
as_proposal_status Approval.Status.rejected = Proposal.Status.rejected
as_proposal_status Approval.Status.expired = Proposal.Status.other "expired"
as_proposal_status Approval.Status.revoked = Proposal.Status.other "revoked"
as_proposal_status (Approval.Status.other s) = Proposal.Status.other s

-- The CHECK on `proposal_versions.status`.
abbrev pub is_other : Proposal.Status → Bool
is_other (Proposal.Status.other _) = true
is_other _ = false

abbrev is_other_approval : Approval.Status → Bool
is_other_approval (Approval.Status.other _) = true
is_other_approval _ = false

abbrev action_of : Approval.Status → String
action_of s = if s == Approval.Status.approved then "proposal_approved" else "proposal_rejected"

-- The row that the `UPDATE` of `proposal_versions` selects.
abbrev pub is_in_review : Ident → ProposalRow → VersionRow → VersionRow → Bool
is_in_review org p v w =
    w.organization_id == org
    && w.id == v.id
    && w.proposal_id == p.id
    && w.status == Proposal.Status.in_review

abbrev decision_audit_id : (String → String) → Decision → String → Ident
decision_audit_id digest d request_id = artifact_id digest "approval-audit" (
    append d.proposal_id (
      append ":" (
        append d.proposal_version_id (
          append ":" (
            append d.decided_by
              (append ":" (append (action_of d.status) (append ":" request_id))))))))

unfoldable pub status_text : Approval.Status → String
status_text Approval.Status.pending = "pending"
status_text Approval.Status.approved = "approved"
status_text Approval.Status.rejected = "rejected"
status_text Approval.Status.expired = "expired"
status_text Approval.Status.revoked = "revoked"
status_text (Approval.Status.other s) = s

abbrev pub approval_row : Ident → Decision → ProposalRow → VersionRow → ApprovalRow
approval_row org d p v = record {
  id = d.id;
  organization_id = org;
  business_id = p.business_id;
  proposal_id = p.id;
  proposal_version_id = v.id;
  decided_by = d.decided_by;
  status = d.status;
  reason = d.reason;
  expires_at = if is_zero d.expires_at then none else some d.expires_at;
}

abbrev pub decision_event : (String → String) → Ident → Decision → String → ℕ → AuditRow
decision_event digest org d request_id at = record {
  organization_id = org;
  event = record {
    id = decision_audit_id digest d request_id;
    actor_type = human;
    actor_id = d.decided_by;
    action = action_of d.status;
    aggregate = "proposal";
    aggregate_id = d.proposal_id;
    request_id = request_id;
    operation_id = "";
    occurred_at = at;
    metadata =
        ("business_id", d.business_id)
        ∷ ("proposal_version_id", d.proposal_version_id)
        ∷ ("decision", status_text d.status)
        ∷ [];
  };
}

module _ {F : Type 0} (org : Ident) (d : Decision) where
  -- `INSERT INTO approvals`
  unfoldable pub insert_approval : ProposalRow → VersionRow → Db F → Result (Unit {0} × Db F)
  insert_approval p v db =
      constrained (is_other_approval d.status || any (λ a. a.id == d.id) db.approvals)
        (wrap "persist approval decision" database_error)
        (tt, record db { approvals = approval_row org d p v ∷ db.approvals })

  unfoldable pub decide_version : ProposalRow → VersionRow → Db F → Result (ℕ × Db F)
  decide_version p v db =
      constrained (is_other (as_proposal_status d.status))
        (wrap "advance proposal approval state" database_error)
        (
          count_where (is_in_review org p v) db.versions,
          record db {
            versions =
                update_where (is_in_review org p v)
                  (λ w. record w { status = as_proposal_status d.status }) db.versions;
          },
        )

module _ {F : Type 0} (digest : String → String) (org : Ident) (d : Decision)
    (request_id : String) where
  unfoldable pub append_decision_audit : ℕ → Db F → Result (Unit {0} × Db F)
  append_decision_audit at db =
      constrained (any (λ a. a.event.id == decision_audit_id digest d request_id) db.audit)
        (wrap "append approval audit event" database_error)
        (tt, record db { audit = decision_event digest org d request_id at ∷ db.audit })

  -- The writes, once the version is known to be in review and current.
  unfoldable pub write_decision : ProposalRow → VersionRow → Tx F (Unit {0})
  write_decision p v = do
    statement "persist approval decision" (insert_approval org d p v)
    updated ← statement "advance proposal approval state" (decide_version org d p v)
    reject (not (updated == 1)) approval_state
    query "update proposal approval timestamp" (λ db. ok tt)
    at ← now
    statement "append approval audit event" (append_decision_audit at)

  -- The callback of `RecordDecision`.
  unfoldable pub decide_tx : Tx F (Unit {0})
  decide_tx = do
    b ←
        query "lock approval business"
          (λ db. row_or approval_context (find_business org d.business_id db))
    reject (b.state_version == 0) (message "invalid current business version")
    u ←
        query "read approval actor"
          (λ db. row_or approval_unauthorized (find_user org d.decided_by db))
    reject (not (is_staff u.role)) approval_unauthorized
    found ← query "lock proposal for approval" (λ db.
        row_or approval_context
          (find_current org d.proposal_id d.proposal_version_id d.business_id db))
    reject (not (found.1.status == Proposal.Status.in_review)) approval_state
    reject
        (found.1.base_business_version == 0
          || not (found.1.base_business_version == b.state_version))
        approval_stale
    write_decision found.0 found.1

  -- `RecordDecision`
  unfoldable pub record_decision : Bool → Tx F (Unit {0})
  record_decision pool = with_tenant_tx pool org decide_tx
