-- ===== src/Store/Proposals/Reread.antt =====
-- internal/platform/postgres/proposal_repository.go: what a read of a proposal returns after it was
-- revised or submitted for review.
use webmcp_backend.Common.{
  ℕ, ◌≡◌, inl, inr, refl, ap, ◌∙◌, String, Bool, true, some, [], find?, nat_eq, string_eq, arith,
  ok, eq_iff, Passes, if◌then◌else◌, Option-cases, Result-cases,
}
use mathlib.Core.Path.{subst}
use webmcp_backend.Common.Int.{pos}
use webmcp_backend.Domain.Core.{Ident}
use webmcp_backend.Domain.Proposal
use webmcp_backend.Domain.Proposal.{Proposal, validate_proposal, status_eq, status_beq_iff}
use webmcp_backend.Domain.Proposal.Validity.{validate_proposal-Passes}
use webmcp_backend.Store.Tables.{ProposalRow, VersionRow, Db}
use webmcp_backend.Store.Sql.Laws.{find?-true, find?-update}
use webmcp_backend.Store.Tx.{Session}
use webmcp_backend.Store.Tx.Laws.{Returns, with_tenant_tx-Returns}
use webmcp_backend.Store.Tx.Read.{query_tx}
use webmcp_backend.Store.Proposals.Rows.{
  is_draft, is_stored, is_current, stored_proposal, find_stored, read_stored, get_proposal,
}
use webmcp_backend.Store.Proposals.Operations.{submit_review_tx, submit_review}
use webmcp_backend.Store.Proposals.RoundTrip.{find_stored-some, read_stored-some}
use webmcp_backend.Store.Proposals.Submitted.{submit_review-Submitted}

-- What a read that returns has found.
record Found {F : Type 0} (org business_id id : Ident) (db : Db F) (q : Proposal) : Type 0 where
  row : ProposalRow
  version : VersionRow
  the_row : find? (is_stored org business_id id) db.proposals ≡ some row
  the_version : find? (is_current org row) db.versions ≡ some version
  result : stored_proposal row version ≡ q
  valid : Passes (validate_proposal q)

read_stored-Found :
    {F : Type 0} (org business_id id : Ident) (db : Db F) (q : Proposal)
    → read_stored org business_id id db ≡ ok q
    → Found org business_id id db q
unfolding read_stored find_stored
read_stored-Found org business_id id db q h =
    elim (Option-cases (find? (is_stored org business_id id) db.proposals)) [
      | inl missing ↦ absurd (ground (arith, missing, h))
      | inr (p, e) ↦ elim (Option-cases (find? (is_current org p) db.versions)) [
        | inl missing ↦ absurd (ground (arith, e, missing, h))
        | inr (v, e') ↦ elim (Result-cases (validate_proposal (stored_proposal p v))) [
          | inl (tt, valid) ↦
              let same : stored_proposal p v ≡ q = ground (arith, e, e', valid, h) in
              record {
                row = p;
                version = v;
                the_row = e;
                the_version = e';
                result = same;
                valid = subst (λ x. Passes (validate_proposal x)) same valid;
              }
          | inr (x, invalid) ↦ absurd (ground (arith, e, e', invalid, h))
        ]
      ]
    ]

-- The proposal whose current version is in review.
abbrev pub in_review : Proposal → Proposal
in_review q = record q { current = record (q.current) { status = Proposal.Status.in_review } }

in_review-valid :
    (q : Proposal) → Passes (validate_proposal q) → Passes (validate_proposal (in_review q))
in_review-valid q h =
    let valid = (validate_proposal-Passes q).0 h in
    (validate_proposal-Passes (in_review q)).1 (record {
      ident = valid.ident;
      business = valid.business;
      goal = valid.goal;
      versioned = valid.versioned;
      current = record {
        ident = valid.current.ident;
        proposal = valid.current.proposal;
        scenario = valid.current.scenario;
        numbered = valid.current.numbered;
        based = valid.current.based;
        summary = valid.current.summary;
        status = tt;
      };
    })

-- The version that was read is the draft that the update selects.
draft_selected :
    (org business_id id : Ident) (expected : ℕ) (p : ProposalRow) (v : VersionRow) (q : Proposal)
    → is_stored org business_id id p ≡ true
    → is_current org p v ≡ true
    → stored_proposal p v ≡ q
    → q.current.status ≡ Proposal.Status.draft
    → q.current.number ≡ pos expected
    → is_draft org id expected v ≡ true
unfolding stored_proposal
draft_selected org business_id id expected p v q row current same draft number =
    let status : v.status ≡ Proposal.Status.draft =
      ap (λ (x : Proposal). x.current.status) same ∙ draft in
    let numbered : pos v.number ≡ pos expected =
      ap (λ (x : Proposal). x.current.number) same ∙ number in
    ground (
      arith,
      row,
      current,
      numbered,
      (status_beq_iff v.status Proposal.Status.draft).1 status,
      eq_iff p.id id,
      eq_iff v.proposal_id p.id,
      eq_iff v.proposal_id id,
    )

reviewed_row :
    (p : ProposalRow) (v : VersionRow) (q : Proposal)
    → stored_proposal p v ≡ q
    → stored_proposal p (record v { status = Proposal.Status.in_review }) ≡ in_review q
unfolding stored_proposal
reviewed_row p v q e = ap in_review e

module _ {F : Type 0} (digest : String → String) (guest : Bool) (org actor_id : Ident)
    (request_id : String) where
  -- A draft that was read with its number and then submitted is read back in review, and is
  -- otherwise the proposal that was read, of the same version; from a database of the same
  -- content and where nothing goes wrong.
  pub get_proposal-submit_review :
      (pool : Bool) (business_id id : Ident) (expected : ℕ) (q : Proposal) (s s' t : Session F)
      → read_stored org business_id id s.db ≡ ok q
      → q.current.status ≡ Proposal.Status.draft
      → q.current.number ≡ pos expected
      → Returns (submit_review digest guest org actor_id request_id pool id expected) s tt s'
      → t.db ≡ s'.db
      → t.faults ≡ []
      → Returns (get_proposal org true business_id id) t (in_review q) t
  unfolding get_proposal submit_review
  get_proposal-submit_review pool business_id id expected q s s' t read draft number h after fine =
      let found = read_stored-Found org business_id id s.db q read in
      let done =
        submit_review-Submitted digest guest org actor_id request_id pool id expected s s' tt h in
      let (_, _, _, _, _, _, _, ident) =
        with_tenant_tx-Returns pool org
          (submit_review_tx digest guest org actor_id request_id id expected) s s' tt h in
      let content = after ∙ done.effect in
      let selected =
        draft_selected org business_id id expected found.row found.version q
          (find?-true (is_stored org business_id id) s.db.proposals found.row found.the_row)
          (find?-true (is_current org found.row) s.db.versions found.version found.the_version)
          found.result draft number in
      let moved =
        find?-update (is_current org found.row) (is_draft org id expected)
          (λ v. record v { status = Proposal.Status.in_review }) s.db.versions found.version
          (λ v. refl) found.the_version
        ∙ ap
            (λ b. some (
              if b
              then record (found.version) { status = Proposal.Status.in_review }
              else found.version))
            selected in
      query_tx org _ (read_stored org business_id id) t ident fine
      ∙ ap (λ r. (r, t))
          (read_stored-some org business_id id t.db found.row
            (record (found.version) { status = Proposal.Status.in_review }) (in_review q)
            (find_stored-some org business_id id t.db found.row
              (record (found.version) { status = Proposal.Status.in_review })
              (ap (λ (db : Db F). find? (is_stored org business_id id) db.proposals) content
                ∙ found.the_row)
              (ap (λ (db : Db F). find? (is_current org found.row) db.versions) content ∙ moved))
            (reviewed_row found.row found.version q found.result) (in_review-valid q found.valid))
