-- ===== src/Store/Members.antt =====
-- internal/platform/postgres/principal_authorizer.go: whether an authenticated principal is a member
-- of its organization, with the role that it claims.
pub mod Laws
use webmcp_backend.Common.{
  String, Bool, true, false, not, ◌||◌, ◌==◌, string_eq, if◌then◌else◌, Error, message, about, wrap,
  Checked, Result, ok, err, is_error,
}
use webmcp_backend.Auth.Principal.{Principal, role_eq, validate_principal}
use webmcp_backend.Store.Sql.{row_or, find_user}
use webmcp_backend.Store.Tx.{Tx, Session, ◌>>=◌, ◌>>◌, query, reject, with_tenant_tx}

abbrev pub not_authorized : Error
not_authorized = message "principal is not authorized"

abbrev pub unavailable : Error
unavailable = message "principal authorization is unavailable"

abbrev pub is_not_authorized : Error → Bool
is_not_authorized e = is_error "principal is not authorized" e

abbrev pub is_unavailable : Error → Bool
is_unavailable e = is_error "principal authorization is unavailable" e

-- The error of `AuthorizePrincipal` for that of its transaction.
abbrev pub membership_error : Checked → Checked
membership_error (ok _) = ok tt
membership_error (err e) =
    if is_not_authorized e || is_unavailable e
    then err e
    else err (wrap "membership transaction failed" unavailable)

module _ {F : Type 0} where
  -- The callback of the transaction.
  unfoldable pub member_tx : Principal → Tx F (Unit {0})
  member_tx p = do
    user ←
        query "membership lookup failed"
          (λ db. row_or not_authorized (find_user p.organization_id p.user_id db))
    reject (not (user.role == p.role)) not_authorized

  abbrev pub answer_member : Checked × Session F → Checked × Session F
  answer_member (r, s) = (membership_error r, s)

  -- The steps after the validation of the principal.
  abbrev pub authorize_valid : Checked → Bool → Principal → Tx F (Unit {0})
  authorize_valid (err e) pool p s = (err not_authorized, s)
  authorize_valid (ok _) false p s = (err unavailable, s)
  authorize_valid (ok _) true p s =
      answer_member (with_tenant_tx true p.organization_id (member_tx p) s)

  -- `AuthorizePrincipal`
  unfoldable pub authorize_principal : Bool → Principal → Tx F (Unit {0})
  unfolding member_tx
  authorize_principal pool p s = authorize_valid (validate_principal p) pool p s
