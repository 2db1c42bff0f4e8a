-- ===== src/Store/Members/Laws.antt =====
-- internal/platform/postgres/principal_authorizer.go: who is authorized, and that a failure of the
-- database authorizes nobody.
use webmcp_backend.Common.{
  ◌≡◌, refl, ap, ◌∙◌, inl, inr, Bool, true, false, not, ◌||◌, Option, none, some, [], ◌==◌, arith,
  Error, Checked, Passes, ok, err, Bool-cases,
}
use mathlib.Core.Path.{subst}
use webmcp_backend.Auth.Principal.{Principal, role_eq, role_beq_iff, validate_principal}
use webmcp_backend.Auth.Principal.Capabilities.{IsPrincipal, validate_principal-Passes}
use webmcp_backend.Store.Tables.{UserRow, Db}
use webmcp_backend.Store.Sql.{row_or, find_user}
use webmcp_backend.Domain.Core.{validate_id-Passes}
use webmcp_backend.Store.Tx.{
  Session, ◌>>=◌, lift, statement, query, reject, open_and_run, with_tenant_tx,
}
use webmcp_backend.Store.Tx.Laws.{
  Returns, bind-Returns, query-Returns, reject-Returns, with_tenant_tx-Returns,
}
use webmcp_backend.Store.Members.{
  not_authorized, is_not_authorized, is_unavailable, membership_error, member_tx, answer_member,
  authorize_valid, authorize_principal,
}

-- The user's row, in the principal's organization, has the principal's role.
pub record IsMember {F : Type 0} (p : Principal) (db : Db F) : Type 0 where
  pub user : UserRow
  pub found : find_user p.organization_id p.user_id db ≡ some user
  pub role : user.role ≡ p.role

row_or-ok : {A : Type 0} (e : Error) (o : Option A) {a : A} → row_or e o ≡ ok a → o ≡ some a
row_or-ok e none h = absurd (ground (arith, h))
row_or-ok e (some a) h = ground (arith, h)

membership_error-Passes : (c : Checked) → Passes (membership_error c) → Passes c
membership_error-Passes (ok tt) h = refl
membership_error-Passes (err e) h = elim (Bool-cases (is_not_authorized e || is_unavailable e)) [
  | inl own ↦ absurd (ground (arith, h, own))
  | inr other ↦ absurd (ground (arith, h, other))
]

module _ {F : Type 0} (p : Principal) where
  member_tx-Returns :
      (s s' : Session F) → Returns (member_tx p) s tt s' → IsMember p s.db × (s'.db ≡ s.db)
  unfolding member_tx
  member_tx-Returns s s' h =
      let (user, s1, read, h1) = bind-Returns (query _ _) _ s s' tt h in
      let (found, same, _) = query-Returns _ _ s s1 user read in
      let (right, same') = reject-Returns (not (user.role == p.role)) not_authorized s1 s' tt h1 in
      (
        record {
          user = user;
          found = row_or-ok _ _ found;
          role = (role_beq_iff user.role p.role).0 (ground (arith, right));
        },
        ap (λ (x : Session F). x.db) same' ∙ same,
      )

  answer_member-Returns :
      (r : Checked × Session F) (s' : Session F) → answer_member r ≡ (ok tt, s') → r ≡ (ok tt, s')
  answer_member-Returns (c, s) s' h =
      rw (membership_error-Passes c (ap (λ x. x.0) h))
        (ap (λ (x : Session F). (ok tt, x)) (ap (λ x. x.1) h))

  authorize_valid-Returns :
      (c : Checked) (pool : Bool) (s s' : Session F)
      → validate_principal p ≡ c
      → authorize_valid c pool p s ≡ (ok tt, s')
      → IsPrincipal p × (pool ≡ true) × IsMember p s.db × (s'.db ≡ s.db)
  authorize_valid-Returns (err e) pool s s' valid h = absurd (ground (arith, h))
  authorize_valid-Returns (ok _) false s s' valid h = absurd (ground (arith, h))
  authorize_valid-Returns (ok tt) true s s' valid h =
      let run =
        answer_member-Returns (with_tenant_tx true p.organization_id (member_tx p) s) s' h in
      let (s1, s2, inner, same, _, kept, _, _) =
        with_tenant_tx-Returns true p.organization_id (member_tx p) s s' tt run in
      let (member, unchanged) = member_tx-Returns s1 s2 inner in
      (
        (validate_principal-Passes p).0 valid,
        refl,
        subst (IsMember p) same member,
        kept ∙ unchanged ∙ same,
      )

  -- A principal is authorized only if it is valid and its user's row, in its organization, has its
  -- role, whatever goes wrong at the database; and the database is left as it was.
  pub authorize_principal-IsMember :
      (pool : Bool) (s s' : Session F)
      → Returns (authorize_principal pool p) s tt s'
      → IsPrincipal p × (pool ≡ true) × IsMember p s.db × (s'.db ≡ s.db)
  unfolding authorize_principal
  authorize_principal-IsMember pool s s' h = authorize_valid-Returns _ pool s s' refl h

  -- Where nothing goes wrong, a valid member is authorized.
  IsMember-authorize_principal :
      (s : Session F)
      → IsPrincipal p
      → IsMember p s.db
      → s.faults ≡ []
      → authorize_principal true p s ≡ (ok tt, s)
  unfolding authorize_principal member_tx with_tenant_tx open_and_run ◌>>=◌ lift reject query
      statement
  IsMember-authorize_principal s valid member fine = ground (
    arith,
    (validate_principal-Passes p).1 valid,
    (validate_id-Passes p.organization_id "organization_id").1 valid.organization,
    member.found,
    (role_beq_iff member.user.role p.role).1 member.role,
    fine,
  )
