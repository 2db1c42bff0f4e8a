-- ===== src/Http/Handlers/Reads/Guests.antt =====
-- internal/httpapi/api_handlers.go and agent_chat_handlers.go: what a guest may read and ask.
use webmcp_backend.Common.{
  ◌≡◌, refl, sym, String, true, false, not, Option, some, arith, ok, eq_iff, string_eq,
}
use webmcp_backend.Common.Io.{Io}
use webmcp_backend.Domain.Core.{Ident, IsIdent, validate_id, validate_id-Passes}
use webmcp_backend.Domain.Business.{Snapshot}
use webmcp_backend.Auth.Principal.{Principal, guest_allows}
use webmcp_backend.Http.Replies.{
  Served, refuses, proceeds, refuse_if, present_or, Success, answer_with, run, unauthenticated,
}
use webmcp_backend.Http.Gates.Scope.{
  bind-proceeds, present_or-proceeds, refuse_if-proceeds, proceeds-injective, answer_with-proceeds,
}
use webmcp_backend.Http.Handlers.Commits.{valid_or}
use webmcp_backend.Http.Handlers.Commits.Called.{valid_or-proceeds}
use webmcp_backend.Http.Handlers.Reads.{snapshot_error, admit_snapshot, business_snapshot}

guest-business :
    (p : Principal) (business_id goal_id : Ident)
    → not (guest_allows p business_id goal_id) ≡ false
    → p.guest ≡ true
    → business_id ≡ p.guest_business_id
unfolding guest_allows
guest-business p business_id goal_id h guest =
    ground (arith, h, guest, eq_iff business_id p.guest_business_id)

-- `read` returns what the reader gives for the principal's organization and the business.
pub record IsReadOf {F W : Type 0} (principal : Option Principal)
    (reader : Option (Ident → Ident → Io W (Snapshot F))) (business_id : Ident)
    (get : Io W (Snapshot F)) : Type 0 where
  pub user : Principal
  pub get_snapshot : Ident → Ident → Io W (Snapshot F)
  pub signed_in : principal ≡ some user
  pub wired : reader ≡ some get_snapshot
  pub valid : IsIdent business_id
  pub asked : get ≡ get_snapshot user.organization_id business_id
  pub own_business : user.guest ≡ true → business_id ≡ user.guest_business_id

module _ {F W : Type 0} (principal : Option Principal) (request_id : String)
    (reader : Option (Ident → Ident → Io W (Snapshot F))) (business_id : Ident) where
  admit_snapshot-IsReadOf :
      (get : Io W (Snapshot F))
      → admit_snapshot principal request_id reader business_id ≡ proceeds get
      → IsReadOf principal reader business_id get
  unfolding admit_snapshot
  admit_snapshot-IsReadOf get h =
      let (user, signed, h1) = bind-proceeds (present_or unauthenticated principal) _ h in
      let (get_snapshot, wired, h2) = bind-proceeds (present_or _ reader) _ h1 in
      let (u1, valid, h3) =
        bind-proceeds (valid_or _ (validate_id business_id "business_id")) _ h2 in
      let (u2, scope, h4) =
        bind-proceeds (refuse_if (not (guest_allows user business_id "")) _) _ h3 in
      record {
        user = user;
        get_snapshot = get_snapshot;
        signed_in = present_or-proceeds unauthenticated principal signed;
        wired = present_or-proceeds _ reader wired;
        valid = (validate_id-Passes business_id "business_id").0 (valid_or-proceeds _ _ u1 valid);
        asked = sym (proceeds-injective h4);
        own_business =
            guest-business user business_id ""
              (refuse_if-proceeds (not (guest_allows user business_id "")) _ u2 scope);
      }

  snapshot_returned :
      (m : Served (Io W (Snapshot F))) (w w' : W) (out : Success (Snapshot F))
      → admit_snapshot principal request_id reader business_id ≡ m
      → run m (λ get v. answer_with snapshot_error 200 request_id (get v)) w ≡ (proceeds out, w')
      → (get : Io W (Snapshot F)) × IsReadOf principal reader business_id get
        × (get w ≡ (ok out.value, w'))
  snapshot_returned (refuses r) w w' out e h = absurd (ground (arith, h))
  snapshot_returned (proceeds get) w w' out e h = (
    get,
    admit_snapshot-IsReadOf get e,
    answer_with-proceeds snapshot_error 200 request_id (get w) out w' h,
  )

  -- A snapshot that is answered is what the reader returns for a valid business in the
  -- organization of the principal; for a guest it is the guest's own business.
  pub business_snapshot-IsReadOf :
      (w w' : W) (out : Success (Snapshot F))
      → business_snapshot principal request_id reader business_id w ≡ (proceeds out, w')
      → (get : Io W (Snapshot F)) × IsReadOf principal reader business_id get
        × (get w ≡ (ok out.value, w'))
  unfolding business_snapshot
  business_snapshot-IsReadOf w w' out h = snapshot_returned _ w w' out refl h
