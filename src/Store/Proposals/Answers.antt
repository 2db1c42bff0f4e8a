-- ===== src/Store/Proposals/Answers.antt =====
-- internal/application/proposalworkflow/service.go over internal/platform/postgres: what the service
-- answers to a request for review, and what a read of the proposal returns afterwards.
use webmcp_backend.Common.{
  refl, ◌≡◌, sym, ap, ◌∙◌, String, Bool, true, some, [], arith, nat_eq, ok, ◌^◌,
}
use mathlib.Core.Path.{subst}
use mathlib.Core.Option.{some-injective}
use webmcp_backend.Common.Int.{ℤ, pos, negsuc, ◌<ℤ◌, to_bits, add_u64}
use webmcp_backend.Domain.Core.{Ident}
use webmcp_backend.Domain.Proposal
use webmcp_backend.Domain.Proposal.{Proposal, Version, transition, can_transition, status_eq}
use webmcp_backend.Workflow.Ports.{Random}
use webmcp_backend.Workflow.Proposals.{ReviewInput, submitted, request_human_review}
use webmcp_backend.Workflow.Proposals.Reviewed.{request_human_review-Reviewed}
use webmcp_backend.Store.Tx.{Session}
use webmcp_backend.Store.Tx.Laws.{Returns, query-Returns, with_tenant_tx-Returns}
use webmcp_backend.Store.Proposals.Rows.{read_stored, get_proposal}
use webmcp_backend.Store.Proposals.Port.{postgres_proposals}
use webmcp_backend.Store.Proposals.Reread.{in_review, get_proposal-submit_review}

get_proposal-reads :
    {F : Type 0} (org : Ident) (pool : Bool) (business_id id : Ident) (q : Proposal)
    (s s' : Session F)
    → Returns (get_proposal org pool business_id id) s q s'
    → read_stored org business_id id s'.db ≡ ok q
unfolding get_proposal
get_proposal-reads org pool business_id id q s s' h =
    let (s1, s2, run, same, _, kept, _, _) = with_tenant_tx-Returns pool org _ s s' q h in
    let (found, unchanged, _) = query-Returns _ (read_stored org business_id id) s1 s2 q run in
    subst (λ db. read_stored org business_id id db ≡ ok q) (sym (kept ∙ unchanged)) found

-- Only a draft goes into review.
was_draft :
    (v v' : Version)
    → transition v Proposal.Status.in_review ≡ ok v'
    → v.status ≡ Proposal.Status.draft
unfolding transition can_transition
was_draft v v' h = by_status v.status refl
  where
    by_status : (st : Proposal.Status) → v.status ≡ st → v.status ≡ Proposal.Status.draft
    by_status Proposal.Status.draft e = e
    by_status Proposal.Status.in_review e = absurd (ground (arith, e, h))
    by_status Proposal.Status.approved e = absurd (ground (arith, e, h))
    by_status Proposal.Status.rejected e = absurd (ground (arith, e, h))
    by_status Proposal.Status.committed e = absurd (ground (arith, e, h))
    by_status Proposal.Status.superseded e = absurd (ground (arith, e, h))
    by_status (Proposal.Status.other _) e = absurd (ground (arith, e, h))

to_bits-pos : (n : ℤ) → pos 0 <ℤ n → n <ℤ pos (2 ^ 63) → n ≡ pos (to_bits n)
to_bits-pos (pos n) h h' = ground arith
to_bits-pos (negsuc n) h h' = absurd (ground arith)

module _ {F : Type 0} (random : Random (Session F)) (digest : String → String)
    (guest pool : Bool) where
  -- A review that the service has requested over this adapter leaves a proposal whose current
  -- version is the one in the answer, and whose version is one less than the one in the answer;
  -- where the number of the stored version is between 1 and 2^63 - 1, for a read of the business
  -- from a database of the same content and where nothing goes wrong.
  pub get_proposal-request_human_review :
      (i : ReviewInput) (p : Proposal) (s s' t : Session F)
      → pos 0 <ℤ p.current.number
      → p.current.number <ℤ pos (2 ^ 63)
      → Returns (request_human_review random (some (postgres_proposals digest guest pool)) i) s p s'
      → t.db ≡ s'.db
      → t.faults ≡ []
      → (q : Proposal) × Returns
          (get_proposal i.organization_id true i.business_id i.proposal_id)
          t
          q
          t
        × (q.current ≡ p.current)
        × (p.version ≡ add_u64 q.version 1)
  unfolding postgres_proposals submitted
  get_proposal-request_human_review i p s s' t positive small h after fine =
      let done =
        request_human_review-Reviewed random (some (postgres_proposals digest guest pool)) i p s s'
          h in
      let same = sym (some-injective _ _ done.wired) in
      let read =
        subst
          (λ r.
            Returns (r.get_proposal i.organization_id i.business_id i.proposal_id) s done.stored
              done.between)
          same done.read in
      let written =
        subst
          (λ r.
            Returns
              (r.submit_review i.organization_id i.actor_id i.proposal_id
                (to_bits done.stored.current.number) i.request_id)
              done.between tt s')
          same done.written in
      let number : p.current.number ≡ done.stored.current.number =
        ap (λ (x : Proposal). x.current.number) done.returned in
      let bits =
        to_bits-pos done.stored.current.number (subst (λ n. pos 0 <ℤ n) number positive)
          (subst (λ n. n <ℤ pos (2 ^ 63)) number small) in
      (
        in_review done.stored,
        get_proposal-submit_review digest guest i.organization_id i.actor_id i.request_id pool
            i.business_id i.proposal_id (to_bits done.stored.current.number) done.stored
            done.between s' t
            (get_proposal-reads i.organization_id pool i.business_id i.proposal_id done.stored s
              done.between read)
            (was_draft done.stored.current p.current done.moved) bits written after fine,
        sym (ap (λ (x : Proposal). x.current) done.returned),
        ap (λ (x : Proposal). x.version) done.returned,
      )
