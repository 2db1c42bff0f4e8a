-- ===== src/Domain/Approval.antt =====
-- internal/domain/approval/approval.go: the recorded human decision. An instant is the number of
-- nanoseconds since Go's zero `time.Time`, so `IsZero` is 0.
pub mod Validity
use webmcp_backend.Common.{
  ℕ, ◌≡◌, ◌↔◌, String, Bool, true, false, not, ◌&&◌, ◌||◌, [], ◌∷◌, ap, arith, ◌==◌, nat_eq, Eq,
  eq_iff, string_eq, ltb, message, Checked, reject, ◌>>◌,
}
use webmcp_backend.Common.Text.{is_blank}
use webmcp_backend.Domain.Core.{Ident, validate_ids}

-- `other` holds any string but the five.
pub data Status : Type 0 where
  pending approved rejected expired revoked : Status
  other : String → Status

abbrev status_beq : Status → Status → Bool
status_beq pending pending = true
status_beq approved approved = true
status_beq rejected rejected = true
status_beq expired expired = true
status_beq revoked revoked = true
status_beq (other a) (other b) = a == b
status_beq _ _ = false

pub status_beq_iff : (a b : Status) → (status_beq a b ≡ true) ↔ (a ≡ b)
status_beq_iff (other a) (other b) =
    (λ h. ap other ((eq_iff a b).0 h), λ h. (eq_iff a b).1 (ground arith))
status_beq_iff _ _ = (λ h. ground arith, λ h. ground arith)

instance abbrev pub status_eq : Eq Status
status_eq = record { beq = status_beq; beq_iff = status_beq_iff }

pub record Decision : Type 0 where
  pub id : Ident
  pub proposal_id : Ident
  pub proposal_version_id : Ident
  pub business_id : Ident
  pub decided_by : Ident
  pub status : Status
  pub reason : String
  pub expires_at : ℕ

-- `t.IsZero()` and `t.After(now)`
abbrev pub is_zero : ℕ → Bool
is_zero t = t == 0

abbrev pub after : ℕ → ℕ → Bool
after t now = ltb now t

unfoldable pub validate_decision : Decision → ℕ → Checked
validate_decision d now = do
  validate_ids (
      ("approval_id", d.id)
      ∷ ("proposal_id", d.proposal_id)
      ∷ ("proposal_version_id", d.proposal_version_id)
      ∷ ("business_id", d.business_id)
      ∷ ("decided_by", d.decided_by)
      ∷ [])
  reject
      (not (d.status == pending)
        && not (d.status == approved)
        && not (d.status == rejected)
        && not (d.status == expired)
        && not (d.status == revoked))
      (message "invalid approval status")
  reject (d.status == approved && is_blank d.reason) (message "approved decision requires a reason")
  reject (not (is_zero d.expires_at) && not (after d.expires_at now) && d.status == pending)
      (message "pending approval is expired")

unfoldable pub is_valid_for_commit : Decision → Ident → Ident → Ident → ℕ → Bool
is_valid_for_commit d proposal_id proposal_version_id business_id now =
    d.status == approved
    && d.proposal_id == proposal_id
    && d.proposal_version_id == proposal_version_id
    && d.business_id == business_id
    && (is_zero d.expires_at || after d.expires_at now)
