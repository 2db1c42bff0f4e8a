-- ===== src/Domain/Proposal.antt =====
-- internal/domain/proposal/proposal.go: proposals, their versions and the version's state machine.
pub mod Laws
pub mod Validity
use webmcp_backend.Common.{
  ℕ, ◌≡◌, ◌↔◌, String, Bool, true, false, not, ◌||◌, List, [], ◌∷◌, ap, arith, ◌==◌, nat_eq, Eq,
  eq_iff, string_eq, message, Result, ok, Checked, reject, ◌>>=◌, ◌>>◌,
}
use webmcp_backend.Common.Text.{is_blank}
use webmcp_backend.Common.Int.{ℤ, pos, leb_ℤ}
use webmcp_backend.Domain.Core.{Ident, validate_ids}

-- `other` holds any string but the six.
pub data Status : Type 0 where
  draft in_review approved rejected committed superseded : Status
  other : String → Status

abbrev status_beq : Status → Status → Bool
status_beq draft draft = true
status_beq in_review in_review = true
status_beq approved approved = true
status_beq rejected rejected = true
status_beq committed committed = true
status_beq superseded superseded = true
status_beq (other a) (other b) = a == b
status_beq _ _ = false

pub status_beq_iff : (a b : Status) → (status_beq a b ≡ true) ↔ (a ≡ b)
status_beq_iff (other a) (other b) =
    (λ h. ap other ((eq_iff a b).0 h), λ h. (eq_iff a b).1 (ground arith))
status_beq_iff _ _ = (λ h. ground arith, λ h. ground arith)

instance abbrev pub status_eq : Eq Status
status_eq = record { beq = status_beq; beq_iff = status_beq_iff }

pub record Change : Type 0 where
  pub entity_type : String
  pub entity_id : Ident
  pub field : String
  pub from : String
  pub to : String

pub record Version : Type 0 where
  pub id : Ident
  pub proposal_id : Ident
  pub number : ℤ
  pub scenario_id : Ident
  pub base_business_version : ℕ
  pub summary : String
  pub changes : List Change
  pub status : Status

-- `validStatus`
abbrev pub valid_status : Status → Bool
valid_status s =
    s == draft
    || s == in_review
    || s == approved
    || s == rejected
    || s == committed
    || s == superseded

unfoldable pub validate_version : Version → Checked
validate_version v = do
  validate_ids (
      ("proposal_version_id", v.id)
      ∷ ("proposal_id", v.proposal_id)
      ∷ ("scenario_id", v.scenario_id)
      ∷ [])
  reject (leb_ℤ v.number (pos 0) || v.base_business_version == 0 || is_blank v.summary)
      (message "proposal version number, base version and summary are required")
  reject (not (valid_status v.status)) (message "invalid proposal version status")

-- The `switch` of `CanTransition` on the version's status.
abbrev can_transition_from : Status → Status → Bool
can_transition_from draft to = to == in_review || to == superseded
can_transition_from in_review to = to == approved || to == rejected || to == superseded
can_transition_from approved to = to == committed || to == superseded
can_transition_from rejected to = false
can_transition_from committed to = false
can_transition_from superseded to = false
can_transition_from (other _) to = false

unfoldable pub can_transition : Version → Status → Bool
can_transition v to = can_transition_from v.status to

unfoldable pub transition : Version → Status → Result Version
unfolding can_transition
transition v to = do
  reject (not (can_transition v to)) (message "invalid proposal version transition")
  ok (record v { status = to })

pub record Proposal : Type 0 where
  pub id : Ident
  pub business_id : Ident
  pub goal_id : Ident
  pub current : Version
  pub version : ℕ

unfoldable pub validate_proposal : Proposal → Checked
validate_proposal p = do
  validate_ids
      (("proposal_id", p.id) ∷ ("business_id", p.business_id) ∷ ("goal_id", p.goal_id) ∷ [])
  reject (p.version == 0) (message "proposal version must be positive")
  validate_version p.current
