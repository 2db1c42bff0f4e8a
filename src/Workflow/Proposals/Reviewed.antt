-- ===== src/Workflow/Proposals/Reviewed.antt =====
-- What the proposal service has checked and stored where it returns a proposal.
use webmcp_backend.Common.{
  ◌≡◌, ◌∙◌, sym, ap, false, not, ◌||◌, ◌==◌, string_eq, Option, some, arith, eq_iff, ok,
  ok-injective,
}
use mathlib.Core.Path.{subst}
use webmcp_backend.Common.Int.{to_bits}
use webmcp_backend.Common.Io.Laws.{Returns, bind-Returns, lift-Returns, reject-Returns}
use webmcp_backend.Domain.Proposal
use webmcp_backend.Domain.Proposal.{
  Proposal, transition, can_transition, validate_version, validate_proposal,
  status_beq_iff as proposal_status_beq_iff, status_eq as proposal_status_eq,
}
use webmcp_backend.Domain.Scenario.{status_eq as scenario_status_eq}
use webmcp_backend.Workflow.Ports.{ProposalRepository, Random}
use webmcp_backend.Workflow.Ports.Laws.{required-Returns}
use webmcp_backend.Workflow.Proposals.{ReviewInput, submitted, request_human_review}

-- The review of `p` takes its version along an edge of the state machine.
submit_moves :
    (p : Proposal)
    → p.current.status ≡ Proposal.Status.draft
    → transition p.current Proposal.Status.in_review ≡ ok (submitted p).current
unfolding transition can_transition submitted
submit_moves p e = ground (arith, e)

module _ {W : Type 0} (random : Random W) (proposals : Option (ProposalRepository W)) where
  pub record Reviewed (i : ReviewInput) (p : Proposal) (w w' : W) : Type 0 where
    pub port : ProposalRepository W
    pub wired : proposals ≡ some port
    pub stored : Proposal
    pub between : W
    pub read :
        Returns (port.get_proposal i.organization_id i.business_id i.proposal_id) w stored between
    pub same_business : stored.business_id ≡ i.business_id
    pub moved : transition stored.current Proposal.Status.in_review ≡ ok p.current
    pub returned : p ≡ submitted stored
    pub written :
        Returns
          (port.submit_review i.organization_id i.actor_id i.proposal_id
            (to_bits stored.current.number)
            i.request_id)
          between
          tt
          w'

  -- A review that is requested takes the stored version of a proposal of the named business from
  -- draft to in review along the state machine, and submits the number of that version.
  pub request_human_review-Reviewed :
      (i : ReviewInput) (p : Proposal) (w w' : W)
      → Returns (request_human_review random proposals i) w p w'
      → Reviewed i p w w'
  unfolding request_human_review
  request_human_review-Reviewed i p w w' h =
      let (_, w1, h1, k1) = bind-Returns _ _ w w' p h in
      let (_, w2, h2, k2) = bind-Returns _ _ w1 w' p k1 in
      let (port, w3, h3, k3) = bind-Returns _ _ w2 w' p k2 in
      let (q, w4, h4, k4) = bind-Returns _ _ w3 w' p k3 in
      let (_, w5, h5, k5) = bind-Returns _ _ w4 w' p k4 in
      let (_, w6, h6, k6) = bind-Returns _ _ w5 w' p k5 in
      let (_, e1) = lift-Returns _ w w1 _ h1 in
      let (_, e2) = reject-Returns _ _ w1 w2 _ h2 in
      let (wired, e3) = required-Returns _ proposals w2 w3 port h3 in
      let (g5, e5) = reject-Returns _ _ w4 w5 _ h5 in
      let (done, e6) = lift-Returns _ w6 w' p k6 in
      let (same, drafted) = guard q g5 in
      record {
        port = port;
        wired = wired;
        stored = q;
        between = w4;
        read =
            subst
              (λ v.
                Returns (port.get_proposal i.organization_id i.business_id i.proposal_id) v q w4)
              (e3 ∙ e2 ∙ e1) h4;
        same_business = same;
        moved = submit_moves q drafted ∙ ap (λ (x : Proposal). ok x.current) (ok-injective done);
        returned = sym (ok-injective done);
        written =
            subst
              (λ v.
                Returns
                  (port.submit_review i.organization_id i.actor_id i.proposal_id
                    (to_bits q.current.number) i.request_id)
                  w4 tt v)
              (sym e6)
              (subst
                (λ v.
                  Returns
                    (port.submit_review i.organization_id i.actor_id i.proposal_id
                      (to_bits q.current.number) i.request_id)
                    v tt w6)
                e5 h6);
      }
    where
      guard :
          (q : Proposal)
          → (not (q.business_id == i.business_id)
              || not (q.current.status == Proposal.Status.draft))
            ≡ false
          → (q.business_id ≡ i.business_id) × (q.current.status ≡ Proposal.Status.draft)
      guard q g = (
        ground (arith, g, eq_iff q.business_id i.business_id),
        ground (arith, g, proposal_status_beq_iff q.current.status Proposal.Status.draft),
      )
