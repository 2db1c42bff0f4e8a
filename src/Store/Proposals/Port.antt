-- ===== src/Store/Proposals/Port.antt =====
-- internal/platform/postgres/proposal_repository.go: the adapter is the repository that the proposal
-- service asks for, and what the service creates is read back.
use webmcp_backend.Common.{◌≡◌, inr, sym, String, Bool, true, Option, some, []}
use mathlib.Core.Path.{subst}
use mathlib.Core.Option.{some-injective}
use webmcp_backend.Common.Float.{Float64}
use webmcp_backend.Domain.Proposal.{Proposal}
use webmcp_backend.Domain.Proposal.Validity.{validate_proposal-Passes}
use webmcp_backend.Workflow.Ports.{ScenarioRepository, ProposalRepository, Random}
use webmcp_backend.Workflow.Proposals
use webmcp_backend.Workflow.Proposals.{CreateInput, draft_of}
use webmcp_backend.Workflow.Proposals.Created.{create_proposal-Created}
use webmcp_backend.Store.Tx.{Session}
use webmcp_backend.Store.Tx.Laws.{Returns}
use webmcp_backend.Store.Proposals.Rows.{get_proposal}
use webmcp_backend.Store.Proposals.Operations.{create_proposal, save_revision, submit_review}
use webmcp_backend.Store.Proposals.RoundTrip.{get_proposal-create_proposal}

-- `ProposalRepository` over a pool.
unfoldable pub postgres_proposals :
    {F : Type 0} → (String → String) → Bool → Bool → ProposalRepository (Session F)
postgres_proposals digest guest pool = record {
  create_proposal = λ org actor_id candidate request_id.
      create_proposal digest guest org actor_id request_id pool candidate;
  get_proposal = λ org business_id id. get_proposal org pool business_id id;
  save_revision = λ org actor_id next expected request_id.
      save_revision digest guest org actor_id request_id pool next expected;
  submit_review = λ org actor_id id expected request_id.
      submit_review digest guest org actor_id request_id pool id expected;
}

module _ (fl : Float64) (random : Random (Session fl.F))
    (scenarios : Option (ScenarioRepository fl.F (Session fl.F))) (digest : String → String)
    (guest pool : Bool) where
  -- A proposal that the service creates over this adapter is what a read of it returns afterwards,
  -- for its business and from a database of the same content, where nothing goes wrong.
  pub get_proposal-service :
      (i : CreateInput) (p : Proposal) (s s' t : Session fl.F)
      → Returns
          (Proposals.create_proposal fl random scenarios
            (some (postgres_proposals digest guest pool))
            i)
          s
          p
          s'
      → t.db ≡ s'.db
      → t.faults ≡ []
      → Returns (get_proposal i.organization_id true i.business_id p.id) t p t
  unfolding postgres_proposals draft_of
  get_proposal-service i p s s' t h after fine =
      let made =
        create_proposal-Created fl random scenarios (some (postgres_proposals digest guest pool)) i
          p s s' h in
      let made' = made.proposed in
      let written =
        subst
          (λ r.
            Returns (r.create_proposal i.organization_id i.actor_id p i.request_id) made'.before tt
              s')
          (sym (some-injective _ _ made.wired.1)) made'.written in
      get_proposal-create_proposal digest guest i.organization_id i.actor_id i.request_id pool
        i.business_id p made'.before s' t (inr (sym made'.draft.of_business))
        ((validate_proposal-Passes p).1 made'.valid) made'.draft.first_number
        made'.draft.own_version made'.draft.first_version written after fine
