-- ===== src/Auth/Principal.antt =====
-- internal/auth/principal.go: the authenticated principal and its capabilities.
pub mod Capabilities
use webmcp_backend.Common.{
  ◌≡◌, ◌↔◌, String, Bool, true, false, not, ◌&&◌, ◌||◌, ap, arith, ◌==◌, Eq, eq_iff, string_eq,
  message, about, Checked, ok, reject, if◌then◌else◌, ◌>>◌,
}
use webmcp_backend.Common.Text.{is_empty}
use webmcp_backend.Domain.Core.{Ident, validate_id}

-- `other` holds any string but the three.
pub data Role : Type 0 where
  owner operator viewer : Role
  other : String → Role

abbrev role_beq : Role → Role → Bool
role_beq owner owner = true
role_beq operator operator = true
role_beq viewer viewer = true
role_beq (other a) (other b) = a == b
role_beq _ _ = false

pub role_beq_iff : (a b : Role) → (role_beq a b ≡ true) ↔ (a ≡ b)
role_beq_iff (other a) (other b) =
    (λ h. ap other ((eq_iff a b).0 h), λ h. (eq_iff a b).1 (ground arith))
role_beq_iff _ _ = (λ h. ground arith, λ h. ground arith)

instance abbrev pub role_eq : Eq Role
role_eq = record { beq = role_beq; beq_iff = role_beq_iff }

pub record Principal : Type 0 where
  pub user_id : Ident
  pub organization_id : Ident
  pub role : Role
  pub guest : Bool
  pub guest_business_id : Ident
  pub guest_goal_id : Ident

-- The checks of `Validate` under `if p.Guest`.
unfoldable pub validate_guest : Principal → Checked
validate_guest p = do
  validate_id p.guest_business_id "guest_business_id"
  validate_id p.guest_goal_id "guest_goal_id"
  reject (not (p.role == viewer)) (message "guest principals must be viewers")

unfoldable pub validate_principal : Principal → Checked
unfolding validate_guest
validate_principal p = do
  validate_id p.user_id "user_id"
  validate_id p.organization_id "organization_id"
  reject (not (p.role == owner) && not (p.role == operator) && not (p.role == viewer))
      (message "invalid role")
  if p.guest then validate_guest p else ok tt

unfoldable pub can_approve : Principal → Bool
can_approve p = p.role == owner || p.role == operator

unfoldable pub can_operate : Principal → Bool
can_operate p = p.role == owner || p.role == operator

unfoldable pub can_demo_operate : Principal → Bool
can_demo_operate p = p.guest && p.role == viewer

unfoldable pub can_commit : Principal → Bool
can_commit p = p.role == owner || p.role == operator

unfoldable pub guest_allows : Principal → Ident → Ident → Bool
guest_allows p business_id goal_id =
    not p.guest
    || (business_id == p.guest_business_id && (is_empty goal_id || goal_id == p.guest_goal_id))
