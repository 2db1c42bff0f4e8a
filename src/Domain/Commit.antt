-- ===== src/Domain/Commit.antt =====
-- internal/domain/commit/commit.go: the gate that every commit passes.
pub mod Gate
use webmcp_backend.Common.{
  ℕ, ◌≡◌, ◌↔◌, String, Bool, true, false, not, ◌&&◌, ◌||◌, [], ◌∷◌, ap, arith, ◌==◌, nat_eq, Eq,
  eq_iff, string_eq, message, wrapping, Checked, reject, ◌>>◌,
}
use webmcp_backend.Common.Text.{is_blank, is_empty}
use webmcp_backend.Domain.Core.{Ident, validate_ids}
use webmcp_backend.Domain.Business.{Snapshot, validate_snapshot}
use webmcp_backend.Domain.Proposal
use webmcp_backend.Domain.Proposal.{Proposal, validate_proposal, status_eq as proposal_status_eq}
use webmcp_backend.Domain.Approval.{Decision, validate_decision, is_valid_for_commit}

-- `other` holds any string but the three.
pub data Status : Type 0 where
  requested succeeded failed : Status
  other : String → Status

abbrev status_beq : Status → Status → Bool
status_beq requested requested = true
status_beq succeeded succeeded = true
status_beq failed failed = true
status_beq (other a) (other b) = a == b
status_beq _ _ = false

pub status_beq_iff : (a b : Status) → (status_beq a b ≡ true) ↔ (a ≡ b)
status_beq_iff (other a) (other b) =
    (λ h. ap other ((eq_iff a b).0 h), λ h. (eq_iff a b).1 (ground arith))
status_beq_iff _ _ = (λ h. ground arith, λ h. ground arith)

instance abbrev pub status_eq : Eq Status
status_eq = record { beq = status_beq; beq_iff = status_beq_iff }

pub record Operation : Type 0 where
  pub id : Ident
  pub idempotency_key : String
  pub proposal_id : Ident
  pub proposal_version_id : Ident
  pub business_id : Ident
  pub expected_business_version : ℕ
  pub status : Status

unfoldable pub validate_operation : Operation → Checked
validate_operation o = do
  validate_ids (
      ("operation_id", o.id)
      ∷ ("proposal_id", o.proposal_id)
      ∷ ("proposal_version_id", o.proposal_version_id)
      ∷ ("business_id", o.business_id)
      ∷ [])
  reject (is_blank o.idempotency_key || o.expected_business_version == 0)
      (message "idempotency key and expected business version are required")
  reject (not (o.status == requested) && not (o.status == succeeded) && not (o.status == failed))
      (message "invalid commit status")

pub record ValidationInput (F : Type 0) : Type 0 where
  pub now : ℕ
  pub business : Snapshot F
  pub proposal : Proposal
  pub approval : Decision
  pub operation : Operation
  pub authorized : Bool
  pub existing_operation_id : Ident

-- The checks of `Validate` that relate its parts to one another.
unfoldable pub check_context : {F : Type 0} → ValidationInput F → Checked
check_context i = do
  reject (not i.authorized) (message "commit authorization denied")
  reject
      (not (i.proposal.business_id == i.business.business_id)
        || not (i.proposal.current.base_business_version == i.business.version))
      (message "proposal is stale or belongs to another business")
  reject (not (i.proposal.current.status == Proposal.Status.approved))
      (message "proposal version is not approved")
  reject
      (not (
        is_valid_for_commit i.approval i.proposal.id i.proposal.current.id i.business.business_id
          i.now))
      (message "approval does not match the approved proposal version")
  reject
      (not (i.operation.proposal_id == i.proposal.id)
        || not (i.operation.proposal_version_id == i.proposal.current.id)
        || not (i.operation.business_id == i.business.business_id))
      (message "commit operation does not match proposal")
  reject (not (i.operation.expected_business_version == i.business.version))
      (message "business version conflict")
  reject (not (is_empty i.existing_operation_id) && not (i.existing_operation_id == i.operation.id))
      (message "idempotency key already belongs to another operation")

-- `Validate`
unfoldable pub validate : {F : Type 0} → ValidationInput F → Checked
validate i = do
  wrapping "business validation" (validate_snapshot i.business)
  wrapping "proposal validation" (validate_proposal i.proposal)
  wrapping "approval validation" (validate_decision i.approval i.now)
  wrapping "operation validation" (validate_operation i.operation)
  check_context i
