-- ===== src/Store/Commits/Rows.antt =====
-- internal/platform/postgres/commit_service.go: the inputs of a commit and its reads and inserts.
use webmcp_backend.Common.{
  ℕ, String, Bool, ◌&&◌, ◌||◌, Option, none, some, [], ◌∷◌, ◌==◌, nat_eq, string_eq, any, find?,
  if◌then◌else◌, message, wrap, Error, Result, ok, err, Checked, reject as reject_if,
  ◌>>◌ as and_then,
}
use webmcp_backend.Common.Text.{is_blank}
use webmcp_backend.Domain.Core.{Ident, validate_ids}
use webmcp_backend.Domain.Proposal.{status_eq as proposal_status_eq}
use webmcp_backend.Domain.Approval
use webmcp_backend.Domain.Approval.{Decision, status_eq as approval_status_eq}
use webmcp_backend.Domain.Commit
use webmcp_backend.Domain.Commit.{Operation, ValidationInput, validate}
use webmcp_backend.Auth.Principal.{role_eq}
use webmcp_backend.Store.Tables.{ProposalRow, VersionRow, ApprovalRow, OperationRow, Db}
use webmcp_backend.Store.Sql.{is_staff, find_business}
use webmcp_backend.Store.Tx.{database_error}

-- `ports.CommitInput`
pub record CommitInput : Type 0 where
  pub organization_id : Ident
  pub operation_id : Ident
  pub idempotency_key : String
  pub business_id : Ident
  pub proposal_id : Ident
  pub proposal_version_id : Ident
  pub actor_id : Ident
  pub request_id : String
  pub authorized : Bool

-- `ports.CommitOutcome`
pub record CommitOutcome : Type 0 where
  pub operation_id : Ident
  pub decision_id : Ident
  pub status : Commit.Status
  pub committed_business_version : ℕ
  pub replayed : Bool

abbrev pub commit_in_progress : Error
commit_in_progress = message "commit is already in progress"

abbrev pub idempotency_conflict : Error
idempotency_conflict = message "idempotency key belongs to another operation"

abbrev pub business_not_found : Error
business_not_found = message "business not found"

abbrev pub proposal_not_found : Error
proposal_not_found = message "approved proposal version not found"

abbrev pub approval_not_found : Error
approval_not_found = message "matching approval not found"

abbrev pub commit_unauthorized : Error
commit_unauthorized = message "commit actor is not authorized"

unfoldable pub validate_commit_input : CommitInput → Checked
validate_commit_input i =
    and_then
      (validate_ids (
        ("organization_id", i.organization_id)
        ∷ ("operation_id", i.operation_id)
        ∷ ("business_id", i.business_id)
        ∷ ("proposal_id", i.proposal_id)
        ∷ ("proposal_version_id", i.proposal_version_id)
        ∷ ("actor_id", i.actor_id)
        ∷ []))
      (reject_if (is_blank i.idempotency_key || is_blank i.request_id)
        (message "idempotency key and request id are required"))

-- `int64ToUint64`; the column is positive where it is not NULL
abbrev pub version_or_zero : Option ℕ → ℕ
version_or_zero none = 0
version_or_zero (some v) = v

module _ {F : Type 0} (org : Ident) where
  -- `SELECT ... FROM commit_operations WHERE idempotency_key = $1`
  unfoldable pub find_operation : String → Db F → Option OperationRow
  find_operation key db =
      find? (λ o. o.organization_id == org && o.idempotency_key == key) db.operations

  -- The proposal with its current version, if that is the version named.
  unfoldable pub find_current : Ident → Ident → Ident → Db F → Option (ProposalRow × VersionRow)
  find_current proposal_id version_id business_id db =
      elim (find?
        (λ p. p.organization_id == org && p.id == proposal_id && p.business_id == business_id)
        db.proposals) [
          | none ↦ none
          | some p ↦
              elim (find?
                (λ v.
                  v.organization_id == org
                  && v.proposal_id == p.id
                  && v.number == p.current_version_number
                  && v.id == version_id)
                db.versions) [ none ↦ none | some v ↦ some (p, v) ]
        ]

  -- The newest approval of the version by a user who is an owner or an operator.
  unfoldable pub find_approval : CommitInput → Db F → Option ApprovalRow
  find_approval i db =
      find?
        (λ a.
          a.organization_id == org
          && a.proposal_version_id == i.proposal_version_id
          && a.proposal_id == i.proposal_id
          && a.business_id == i.business_id
          && a.status == Approval.Status.approved
          && any
              (λ u.
                u.id == a.decided_by && u.organization_id == a.organization_id && is_staff u.role)
              db.users)
        db.approvals

  -- `INSERT INTO commit_operations ... SELECT ... FROM businesses WHERE id = $2`: nothing is
  -- inserted where the business is not there.
  unfoldable pub insert_operation : CommitInput → Db F → Result (Unit {0} × Db F)
  insert_operation i db = elim (find_business org i.business_id db) [
    | none ↦ ok (tt, db)
    | some b ↦
        if any
          (λ o.
            o.id == i.operation_id
            || (o.organization_id == org && o.idempotency_key == i.idempotency_key))
          db.operations
        then err idempotency_conflict
        else if any (λ p. p.organization_id == org && p.id == i.proposal_id) db.proposals
            && any (λ v. v.organization_id == org && v.id == i.proposal_version_id) db.versions
        then ok (
          tt,
          record db {
            operations =
                record {
                  id = i.operation_id;
                  organization_id = org;
                  business_id = i.business_id;
                  proposal_id = i.proposal_id;
                  proposal_version_id = i.proposal_version_id;
                  idempotency_key = i.idempotency_key;
                  expected_business_version = b.state_version;
                  status = Commit.Status.requested;
                  committed_business_version = none;
                  completed_at = none;
                }
                ∷ db.operations;
          },
        )
        else err (wrap "create commit operation" database_error)
  ]
