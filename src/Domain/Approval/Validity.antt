-- ===== src/Domain/Approval/Validity.antt =====
-- What the validation of a decision accepts, and when a decision backs a commit.
use webmcp_backend.Common.{
  ℕ, ◌<◌, ◌≡◌, ◌⊎◌, ◌↔◌, true, String, List, [], ◌∷◌, arith, eq_iff, Passes,
}
use webmcp_backend.Common.Text.{NotBlank}
use webmcp_backend.Domain.Core.{Ident, IsIdent, validate_ids-Passes}
use webmcp_backend.Domain.Approval.{
  Status, pending, approved, Decision, validate_decision, is_valid_for_commit,
}

abbrev pub IsStatus : Status → Type 0
IsStatus (Status.other _) = ⊥
IsStatus _ = Unit

pub record IsDecision (d : Decision) (now : ℕ) : Type 0 where
  pub ident : IsIdent d.id
  pub proposal : IsIdent d.proposal_id
  pub proposal_version : IsIdent d.proposal_version_id
  pub business : IsIdent d.business_id
  pub decider : IsIdent d.decided_by
  pub status : IsStatus d.status
  pub reasoned : d.status ≡ approved → NotBlank d.reason
  pub open_pending : d.status ≡ pending → (d.expires_at ≡ 0) ⊎ (now < d.expires_at)

abbrev decision_ids : Decision → List (String × Ident)
decision_ids d =
    ("approval_id", d.id)
    ∷ ("proposal_id", d.proposal_id)
    ∷ ("proposal_version_id", d.proposal_version_id)
    ∷ ("business_id", d.business_id)
    ∷ ("decided_by", d.decided_by)
    ∷ []

-- A decision passes validation exactly if it is well formed: an approval gives a reason, and a
-- pending decision that expires has not expired yet.
pub validate_decision-Passes :
    (d : Decision) (now : ℕ) → Passes (validate_decision d now) ↔ IsDecision d now
unfolding validate_decision
validate_decision-Passes d now = (
  λ h. ground (arith, validate_ids-Passes (decision_ids d)),
  λ v. ground (
    arith,
    (validate_ids-Passes (decision_ids d)).1
        (v.ident, (v.proposal, (v.proposal_version, (v.business, (v.decider, tt))))),
    v.reasoned,
    v.open_pending,
  ),
)

pub record Backs (d : Decision) (proposal version business : Ident) (now : ℕ) : Type 0 where
  pub approves : d.status ≡ approved
  pub same_proposal : d.proposal_id ≡ proposal
  pub same_version : d.proposal_version_id ≡ version
  pub same_business : d.business_id ≡ business
  pub in_force : (d.expires_at ≡ 0) ⊎ (now < d.expires_at)

-- A decision is valid for a commit exactly if it approves this version of this proposal of this
-- business, and never expires or has not expired yet.
pub is_valid_for_commit_iff :
    (d : Decision) (proposal version business : Ident) (now : ℕ)
    → (is_valid_for_commit d proposal version business now ≡ true)
      ↔ Backs d proposal version business now
unfolding is_valid_for_commit
is_valid_for_commit_iff d proposal version business now = (
  λ h. ground (
    arith,
    eq_iff d.proposal_id proposal,
    eq_iff d.proposal_version_id version,
    eq_iff d.business_id business,
  ),
  λ v. ground (
    arith,
    (eq_iff d.proposal_id proposal).1 v.same_proposal,
    (eq_iff d.proposal_version_id version).1 v.same_version,
    (eq_iff d.business_id business).1 v.same_business,
  ),
)
