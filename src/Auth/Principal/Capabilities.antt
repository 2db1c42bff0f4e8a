-- ===== src/Auth/Principal/Capabilities.antt =====
-- What a valid principal may do.
use webmcp_backend.Common.{
  ◌≡◌, ◌≢◌, ◌↔◌, ◌⊎◌, inl, inr, Bool-cases, true, false, arith, eq_iff, Passes,
}
use webmcp_backend.Common.Text.Trim.{is_empty_iff}
use webmcp_backend.Domain.Core.{Ident, IsIdent, validate_id-Passes}
use webmcp_backend.Auth.Principal.{
  Role, viewer, Principal, validate_principal, can_approve, can_operate, can_demo_operate,
  can_commit, guest_allows,
}

abbrev IsRole : Role → Type 0
IsRole (Role.other _) = ⊥
IsRole _ = Unit

pub record IsGuestPrincipal (p : Principal) : Type 0 where
  pub business : IsIdent p.guest_business_id
  pub goal : IsIdent p.guest_goal_id
  pub views : p.role ≡ viewer

pub record IsPrincipal (p : Principal) : Type 0 where
  pub user : IsIdent p.user_id
  pub organization : IsIdent p.organization_id
  pub role : IsRole p.role
  pub as_guest : p.guest ≡ true → IsGuestPrincipal p

-- A principal passes validation exactly if it is well formed, a guest with a business, a goal and
-- the role of a viewer.
pub validate_principal-Passes : (p : Principal) → Passes (validate_principal p) ↔ IsPrincipal p
unfolding validate_principal
validate_principal-Passes p = (
  λ h. ground (
    arith,
    validate_id-Passes p.user_id "user_id",
    validate_id-Passes p.organization_id "organization_id",
    validate_id-Passes p.guest_business_id "guest_business_id",
    validate_id-Passes p.guest_goal_id "guest_goal_id",
  ),
  λ v. ground (
    arith,
    (validate_id-Passes p.user_id "user_id").1 v.user,
    (validate_id-Passes p.organization_id "organization_id").1 v.organization,
    validate_id-Passes p.guest_business_id "guest_business_id",
    validate_id-Passes p.guest_goal_id "guest_goal_id",
    v.as_guest,
  ),
)

-- A valid guest can do demo work, and can neither approve, operate nor commit; of a valid
-- principal that is no guest it is the other way round: it can do no demo work, and it can approve,
-- operate and commit exactly if it is not a viewer.
capabilities :
    (p : Principal)
    → Passes (validate_principal p)
    → ((p.guest ≡ true)
        × ((can_demo_operate p ≡ true)
            × ((can_approve p ≡ false) × ((can_operate p ≡ false) × (can_commit p ≡ false)))))
      ⊎ ((p.guest ≡ false)
          × ((can_demo_operate p ≡ false)
              × (((can_approve p ≡ true) ↔ (p.role ≢ viewer))
                  × ((can_operate p ≡ can_approve p) × (can_commit p ≡ can_approve p)))))
unfolding can_approve can_operate can_demo_operate can_commit
capabilities p h =
    let v = (validate_principal-Passes p).0 h in
    elim (Bool-cases p.guest) [
      | inl g ↦ inl (g, ground (arith, (v.as_guest g).views))
      | inr n ↦ inr (
        n,
        (ground arith, ((λ k. ground (arith, v.role), λ k. ground (arith, v.role)), ground arith)),
      )
    ]

-- A guest reaches exactly its own business, with its own goal or with no goal named.
guest_allows_iff :
    (p : Principal) (business_id goal_id : Ident)
    → p.guest ≡ true
    → (guest_allows p business_id goal_id ≡ true)
      ↔ ((business_id ≡ p.guest_business_id) × ((goal_id ≡ "") ⊎ (goal_id ≡ p.guest_goal_id)))
unfolding guest_allows
guest_allows_iff p business_id goal_id g = (
  λ h. ground (
    arith,
    eq_iff business_id p.guest_business_id,
    is_empty_iff goal_id,
    eq_iff goal_id p.guest_goal_id,
  ),
  λ h. ground (
    arith,
    eq_iff business_id p.guest_business_id,
    is_empty_iff goal_id,
    eq_iff goal_id p.guest_goal_id,
  ),
)
