-- ===== src/Domain/Commit/Gate.antt =====
-- The commit gate decides a declarative description of what may be committed.
use webmcp_backend.Common.{◌<◌, ◌≡◌, ◌⊎◌, ◌↔◌, true, String, List, [], ◌∷◌, arith, eq_iff, Passes}
use webmcp_backend.Common.Text.{NotBlank}
use webmcp_backend.Common.Text.Trim.{is_empty_iff}
use webmcp_backend.Domain.Core.{Ident, IsIdent, validate_ids-Passes}
use webmcp_backend.Domain.Business.Validity.{IsSnapshot, validate_snapshot-Passes}
use webmcp_backend.Domain.Proposal
use webmcp_backend.Domain.Proposal.{validate_proposal}
use webmcp_backend.Domain.Proposal.Validity.{IsProposal, validate_proposal-Passes}
use webmcp_backend.Domain.Approval.Validity.{
  IsDecision, Backs, validate_decision-Passes, is_valid_for_commit_iff,
}
use webmcp_backend.Domain.Commit.{
  Status, Operation, ValidationInput, validate_operation, check_context, validate,
}

abbrev pub IsStatus : Status → Type 0
IsStatus (Status.other _) = ⊥
IsStatus _ = Unit

pub record IsOperation (o : Operation) : Type 0 where
  pub ident : IsIdent o.id
  pub proposal : IsIdent o.proposal_id
  pub proposal_version : IsIdent o.proposal_version_id
  pub business : IsIdent o.business_id
  pub key : NotBlank o.idempotency_key
  pub expects : 0 < o.expected_business_version
  pub status : IsStatus o.status

abbrev operation_ids : Operation → List (String × Ident)
operation_ids o =
    ("operation_id", o.id)
    ∷ ("proposal_id", o.proposal_id)
    ∷ ("proposal_version_id", o.proposal_version_id)
    ∷ ("business_id", o.business_id)
    ∷ []

validate_operation-Passes : (o : Operation) → Passes (validate_operation o) ↔ IsOperation o
unfolding validate_operation
validate_operation-Passes o = (
  λ h. ground (arith, validate_ids-Passes (operation_ids o)),
  λ v. ground (
    arith,
    (validate_ids-Passes (operation_ids o)).1
        (v.ident, (v.proposal, (v.proposal_version, (v.business, tt)))),
  ),
)

-- How the parts of a commit fit together.
pub record IsConsistent {F : Type 0} (i : ValidationInput F) : Type 0 where
  pub authorized : i.authorized ≡ true
  pub same_business : i.proposal.business_id ≡ i.business.business_id
  pub current_base : i.proposal.current.base_business_version ≡ i.business.version
  pub is_approved : i.proposal.current.status ≡ Proposal.Status.approved
  pub backed : Backs i.approval i.proposal.id i.proposal.current.id i.business.business_id i.now
  pub operation_proposal : i.operation.proposal_id ≡ i.proposal.id
  pub operation_version : i.operation.proposal_version_id ≡ i.proposal.current.id
  pub operation_business : i.operation.business_id ≡ i.business.business_id
  pub expected_version : i.operation.expected_business_version ≡ i.business.version
  pub own_key : (i.existing_operation_id ≡ "") ⊎ (i.existing_operation_id ≡ i.operation.id)

check_context-Passes :
    {F : Type 0} (i : ValidationInput F) → Passes (check_context i) ↔ IsConsistent i
unfolding check_context
check_context-Passes i = (
  λ h. ground (
    arith,
    eq_iff i.proposal.business_id i.business.business_id,
    is_valid_for_commit_iff i.approval i.proposal.id i.proposal.current.id i.business.business_id
        i.now,
    eq_iff i.operation.proposal_id i.proposal.id,
    eq_iff i.operation.proposal_version_id i.proposal.current.id,
    eq_iff i.operation.business_id i.business.business_id,
    is_empty_iff i.existing_operation_id,
    eq_iff i.existing_operation_id i.operation.id,
  ),
  λ v. ground (
    arith,
    (eq_iff i.proposal.business_id i.business.business_id).1 v.same_business,
    (is_valid_for_commit_iff i.approval i.proposal.id i.proposal.current.id i.business.business_id
          i.now).1
        v.backed,
    (eq_iff i.operation.proposal_id i.proposal.id).1 v.operation_proposal,
    (eq_iff i.operation.proposal_version_id i.proposal.current.id).1 v.operation_version,
    (eq_iff i.operation.business_id i.business.business_id).1 v.operation_business,
    is_empty_iff i.existing_operation_id,
    eq_iff i.existing_operation_id i.operation.id,
  ),
)

pub record IsCommittable {F : Type 0} (i : ValidationInput F) : Type 0 where
  pub business : IsSnapshot i.business
  pub proposal : IsProposal i.proposal
  pub approval : IsDecision i.approval i.now
  pub operation : IsOperation i.operation
  pub consistent : IsConsistent i

-- A commit passes the gate exactly if its snapshot, proposal, decision and operation are well
-- formed, the actor is authorized, the approved proposal is the operation's and is based on the
-- current business version that the operation expects, the decision backs it, and its idempotency
-- key is free or its own.
pub validate-Passes : {F : Type 0} (i : ValidationInput F) → Passes (validate i) ↔ IsCommittable i
unfolding validate
validate-Passes i = (
  λ h. ground (
    arith,
    validate_snapshot-Passes i.business,
    validate_proposal-Passes i.proposal,
    validate_decision-Passes i.approval i.now,
    validate_operation-Passes i.operation,
    check_context-Passes i,
  ),
  λ v. ground (
    arith,
    (validate_snapshot-Passes i.business).1 v.business,
    (validate_proposal-Passes i.proposal).1 v.proposal,
    (validate_decision-Passes i.approval i.now).1 v.approval,
    (validate_operation-Passes i.operation).1 v.operation,
    (check_context-Passes i).1 v.consistent,
  ),
)
