-- ===== src/Http/Handlers/Commits/Called.antt =====
-- internal/httpapi/api_handlers.go and internal/platform/postgres: what a commit that is answered with
-- success has been.
use Prim.Native.String.{len}
use mathlib.Core.Path.{subst}
use mathlib.Core.Option.{some-injective}
use webmcp_backend.Common.{
  ℕ, ◌≤◌, ◌≡◌, ◌⊎◌, inl, inr, refl, sym, ap, ◌∙◌, String, Bool, true, false, not, ◌||◌, Option,
  some, ltb, arith, Checked, ok, err, Passes,
}
use webmcp_backend.Common.Io.{Io}
use webmcp_backend.Common.Text.{trim}
use webmcp_backend.Domain.Core.{Ident, IsIdent, validate_id, validate_id-Passes}
use webmcp_backend.Auth.Principal.{Principal, can_commit}
use webmcp_backend.Store.Tx.{Session}
use webmcp_backend.Store.Commits.Rows.{CommitInput, CommitOutcome}
use webmcp_backend.Store.Commits.Transaction.{commit}
use webmcp_backend.Store.Commits.Replay.{Repeats, commit-Repeats}
use webmcp_backend.Http.Replies.{
  Reply, Served, refuses, proceeds, refuse_if, present_or, Body, body_or, Success, answer_with, run,
  read, unauthenticated, commit_error,
}
use webmcp_backend.Http.Gates.Scope.{
  bind-proceeds, present_or-proceeds, body_or-proceeds, refuse_if-proceeds, proceeds-injective,
  Refuses, answer_with-proceeds,
}
use webmcp_backend.Http.Handlers.Commits.{
  CommitRequest, operation_id, valid_or, admit_commit, call_commit, commit_proposal,
}

pub valid_or-proceeds :
    (r : Reply) (c : Checked) (u : Unit {0}) → valid_or r c ≡ proceeds u → Passes c
valid_or-proceeds r (ok tt) u h = refl
valid_or-proceeds r (err e) u h = absurd (ground (arith, h))

not-false : (b : Bool) → not b ≡ false → b ≡ true
not-false b h = ground (arith, h)

-- The input of a commit that the handler makes for a principal who may commit: of the proposal in
-- the path, the version and the business in the body, and the key in the header.
pub record IsCommitOf (digest : String → String) (user : Principal) (request_id : String)
    (proposal_id : Ident) (r : CommitRequest) (key : String) (i : CommitInput) : Type 0 where
  pub may_commit : can_commit user ≡ true
  pub organization : i.organization_id ≡ user.organization_id
  pub actor : i.actor_id ≡ user.user_id
  pub authorized : i.authorized ≡ true
  pub operation : i.operation_id ≡ operation_id digest i.organization_id i.idempotency_key
  pub request : i.request_id ≡ request_id
  pub key_least : 8 ≤ len i.idempotency_key
  pub key_most : len i.idempotency_key ≤ 200
  pub of_proposal : i.proposal_id ≡ proposal_id
  pub of_version : i.proposal_version_id ≡ trim r.proposal_version_id
  pub of_business : i.business_id ≡ trim r.business_id
  pub of_key : i.idempotency_key ≡ trim key
  pub proposal : IsIdent i.proposal_id
  pub version : IsIdent i.proposal_version_id
  pub business : IsIdent i.business_id

module _ {W : Type 0} (digest : String → String) (principal : Option Principal)
    (request_id : String) (committer : Option (CommitInput → Io W CommitOutcome))
    (proposal_id : Ident) (body : Body CommitRequest) (key : String) where
  admit_commit-IsCommitOf :
      (call : CommitInput → Io W CommitOutcome) (i : CommitInput)
      → admit_commit digest principal request_id committer proposal_id body key ≡ proceeds (call, i)
      → (user : Principal) × (principal ≡ some user)
        × (committer ≡ some call)
        × (r : CommitRequest) × (body ≡ read r)
        × IsCommitOf digest user request_id proposal_id r key i
  unfolding admit_commit
  admit_commit-IsCommitOf call i h =
      let (user, signed, h1) = bind-proceeds (present_or unauthenticated principal) _ h in
      let (u1, allowed, h2) = bind-proceeds (refuse_if (not (can_commit user)) _) _ h1 in
      let (c, wired, h3) = bind-proceeds (present_or _ committer) _ h2 in
      let (u2, proposal, h4) =
        bind-proceeds (valid_or _ (validate_id proposal_id "proposal_id")) _ h3 in
      let (r, readable, h5) = bind-proceeds (body_or "invalid_commit_request" body) _ h4 in
      let (u3, version, h6) =
        bind-proceeds (valid_or _ (validate_id (trim r.proposal_version_id) "proposal_version_id"))
          _ h5 in
      let (u4, sized, h7) =
        bind-proceeds (refuse_if (ltb (len (trim key)) 8 || ltb 200 (len (trim key))) _) _ h6 in
      let (u5, business, h8) =
        bind-proceeds (valid_or _ (validate_id (trim r.business_id) "business_id")) _ h7 in
      let same = proceeds-injective h8 in
      (
        user,
        present_or-proceeds unauthenticated principal signed,
        present_or-proceeds _ committer wired ∙ ap (λ x. some x.0) same,
        r,
        body_or-proceeds _ body readable,
        subst (IsCommitOf digest user request_id proposal_id r key) (ap (λ x. x.1) same) (record {
          may_commit =
              not-false (can_commit user) (refuse_if-proceeds (not (can_commit user)) _ u1 allowed);
          organization = refl;
          actor = refl;
          authorized =
              not-false (can_commit user) (refuse_if-proceeds (not (can_commit user)) _ u1 allowed);
          operation = refl;
          request = refl;
          of_proposal = refl;
          of_version = refl;
          of_business = refl;
          of_key = refl;
          key_least = ground (
            arith,
            refuse_if-proceeds (ltb (len (trim key)) 8 || ltb 200 (len (trim key))) _ u4 sized,
          );
          key_most = ground (
            arith,
            refuse_if-proceeds (ltb (len (trim key)) 8 || ltb 200 (len (trim key))) _ u4 sized,
          );
          proposal =
              (validate_id-Passes proposal_id "proposal_id").0 (valid_or-proceeds _ _ u2 proposal);
          version =
              (validate_id-Passes (trim r.proposal_version_id) "proposal_version_id").0
                (valid_or-proceeds _ _ u3 version);
          business =
              (validate_id-Passes (trim r.business_id) "business_id").0
                (valid_or-proceeds _ _ u5 business);
        }),
      )

  -- The committer has been called once, with such an input, and the answer is what it returned.
  record CallsCommit (w : W) : Type 0 where
    pub user : Principal
    pub call : CommitInput → Io W CommitOutcome
    pub input : CommitInput
    pub signed_in : principal ≡ some user
    pub wired : committer ≡ some call
    pub asked : CommitRequest
    pub readable : body ≡ read asked
    pub made : IsCommitOf digest user request_id proposal_id asked key input
    pub answered :
        commit_proposal digest principal request_id committer proposal_id body key w
        ≡ answer_with commit_error 200 request_id (call input w)

  commit_cases :
      (m : Served ((CommitInput → Io W CommitOutcome) × CommitInput)) (w : W)
      → admit_commit digest principal request_id committer proposal_id body key ≡ m
      → Refuses (commit_proposal digest principal request_id committer proposal_id body key) w
        ⊎ CallsCommit w
  unfolding commit_proposal
  commit_cases (refuses r) w e =
      inl (r, ap (λ m. run m (call_commit digest principal request_id committer) w) e)
  commit_cases (proceeds (call, i)) w e =
      let (user, signed, wired, r, readable, made) = admit_commit-IsCommitOf call i e in
      inr (record {
        user = user;
        call = call;
        input = i;
        signed_in = signed;
        wired = wired;
        asked = r;
        readable = readable;
        made = made;
        answered = ap (λ m. run m (call_commit digest principal request_id committer) w) e;
      })

  -- A commit is answered with an error that leaves the world alone, or the committer is called
  -- once: for a principal who may commit, in its organization and as its user, with valid
  -- identifiers, a key of 8 to 200 bytes and the operation that the organization and the key
  -- determine.
  commit_proposal-CallsCommit :
      (w : W)
      → Refuses (commit_proposal digest principal request_id committer proposal_id body key) w
        ⊎ CallsCommit w
  commit_proposal-CallsCommit w = commit_cases _ w refl

-- Over the PostgreSQL adapter, a commit that is answered with success repeats the outcome of an
-- operation that the principal's organization has already recorded under the key of the header, for
-- the proposal of the path and the version and the business of the body; the key, the version and the
-- business are taken without the space around them. The principal may commit, and the database is
-- left as it was.
pub commit_proposal-Repeats :
    {F : Type 0} (digest : String → String) (principal : Option Principal) (request_id : String)
    (now : ℕ) (pool : Bool) (proposal_id : Ident) (body : Body CommitRequest) (key : String)
    (s s' : Session F) (out : Success CommitOutcome)
    → commit_proposal digest principal request_id
        (some (λ i. commit digest i now pool))
        proposal_id
        body
        key
        s
      ≡ (proceeds out, s')
    → (user : Principal) × (r : CommitRequest) × (i : CommitInput) × (principal ≡ some user)
      × (body ≡ read r)
      × IsCommitOf digest user request_id proposal_id r key i
      × Repeats digest i now s.db out.value
      × (s'.db ≡ s.db)
commit_proposal-Repeats digest principal request_id now pool proposal_id body key s s' out h =
    elim (commit_proposal-CallsCommit digest principal request_id
      (some (λ i. commit digest i now pool)) proposal_id body key s) [
        | inl (r, e) ↦ absurd (ground (arith, e, h))
        | inr c ↦
            let same = some-injective _ _ c.wired in
            let returned =
              answer_with-proceeds commit_error 200 request_id (c.call c.input s) out s'
                (sym c.answered ∙ h) in
            let (repeats, kept) =
              commit-Repeats digest c.input now pool s s' out.value
                (ap (λ f. f c.input s) same ∙ returned) in
            (c.user, c.asked, c.input, c.signed_in, c.readable, c.made, repeats, kept)
      ]
