-- ===== src/Http/Handlers/Writes.antt =====
-- internal/httpapi/api_handlers.go: the routes that write scenarios and proposals, and that they do so
-- only within what the principal may do.
use webmcp_backend.Common.{◌≡◌, ◌⊎◌, inl, inr, refl, String, Option, Error}
use webmcp_backend.Common.Io.{Io}
use webmcp_backend.Common.Text.{trim}
use webmcp_backend.Domain.Core.{Ident}
use webmcp_backend.Auth.Principal.{Principal}
use webmcp_backend.Workflow.Scenarios
use webmcp_backend.Workflow.Scenarios.{SimulateInput}
use webmcp_backend.Workflow.Proposals
use webmcp_backend.Workflow.Proposals.{ReviseInput, ReviewInput}
use webmcp_backend.Http.Replies.{Body}
use webmcp_backend.Http.Gates.{Gate, gated}
use webmcp_backend.Http.Gates.Scope.{MayWork, MayWork-allowed, Refuses, Calls, gated-Calls}
use webmcp_backend.Http.Handlers.Requests.{
  CreateScenarioRequest, CreateProposalRequest, ReviseProposalRequest,
}
use webmcp_backend.Http.Handlers.Scenarios.{create_scenario, simulate_scenario}
use webmcp_backend.Http.Handlers.Proposals.{create_proposal, revise_proposal, request_human_review}

-- The routes of the table of `NewServerWithDependencies` that write scenarios and proposals, with
-- the identifier in their path.
pub data WriteRoute : Type 0 where
  creates_scenario creates_proposal : WriteRoute
  simulates revises submits : Ident → WriteRoute

abbrev BodyOf : Type 0 → WriteRoute → Type 0
BodyOf F creates_scenario = CreateScenarioRequest F
BodyOf F creates_proposal = CreateProposalRequest
BodyOf F (simulates _) = String
BodyOf F (revises _) = ReviseProposalRequest
BodyOf F (submits _) = String

abbrev pub InputOf : Type 0 → WriteRoute → Type 0
InputOf F creates_scenario = Scenarios.CreateInput F
InputOf F creates_proposal = Proposals.CreateInput
InputOf F (simulates _) = SimulateInput
InputOf F (revises _) = ReviseInput
InputOf F (submits _) = ReviewInput

module _ (F : Type 0) where
  abbrev pub organization_of : (route : WriteRoute) → InputOf F route → Ident
  organization_of creates_scenario i = i.organization_id
  organization_of creates_proposal i = i.organization_id
  organization_of (simulates _) i = i.organization_id
  organization_of (revises _) i = i.organization_id
  organization_of (submits _) i = i.organization_id

  abbrev pub actor_of : (route : WriteRoute) → InputOf F route → Ident
  actor_of creates_scenario i = i.actor_id
  actor_of creates_proposal i = i.actor_id
  actor_of (simulates _) i = i.actor_id
  actor_of (revises _) i = i.actor_id
  actor_of (submits _) i = i.actor_id

  abbrev pub business_of : (route : WriteRoute) → InputOf F route → Ident
  business_of creates_scenario i = i.business_id
  business_of creates_proposal i = i.business_id
  business_of (simulates _) i = i.business_id
  business_of (revises _) i = i.business_id
  business_of (submits _) i = i.business_id

  module _ (text : Error → String) (request_id : String) where
    unfoldable pub write_gate : (route : WriteRoute) → Gate (BodyOf F route) (InputOf F route)
    unfolding create_scenario create_proposal simulate_scenario revise_proposal request_human_review
    write_gate creates_scenario = create_scenario text request_id
    write_gate creates_proposal = create_proposal text request_id
    write_gate (simulates id) = simulate_scenario text request_id id
    write_gate (revises id) = revise_proposal text request_id id
    write_gate (submits id) = request_human_review text request_id id

    -- A handler that writes scenarios or proposals answers with an error and leaves the world
    -- alone; or it answers with what its service returns to one call, in the organization and as
    -- the user of the principal, who is an owner or an operator, or a guest in its own business.
    pub write_gate-MayWork :
        {W A : Type 0} (route : WriteRoute) (principal : Option Principal)
        (service : Option (InputOf F route → Io W A)) (body : Body (BodyOf F route)) (w : W)
        → Refuses (gated (write_gate route) principal service body request_id) w
          ⊎ ((c : Calls (write_gate route) principal service body request_id w) × MayWork c.user
                (business_of route ((write_gate route).input c.user c.request))
              × (organization_of route ((write_gate route).input c.user c.request)
                  ≡ c.user.organization_id)
              × (actor_of route ((write_gate route).input c.user c.request) ≡ c.user.user_id))
    unfolding write_gate
    write_gate-MayWork creates_scenario principal service body w =
        elim (gated-Calls (write_gate creates_scenario) principal service body request_id w) [
          | inl stopped ↦ inl stopped
          | inr c ↦ inr (
            c,
            MayWork-allowed c.user (trim c.request.business_id) (trim c.request.goal_id) c.allowed
                c.inside,
            refl,
            refl,
          )
        ]
    write_gate-MayWork creates_proposal principal service body w =
        elim (gated-Calls (write_gate creates_proposal) principal service body request_id w) [
          | inl stopped ↦ inl stopped
          | inr c ↦ inr (
            c,
            MayWork-allowed c.user (trim c.request.business_id) (trim c.request.goal_id) c.allowed
                c.inside,
            refl,
            refl,
          )
        ]
    write_gate-MayWork (simulates id) principal service body w =
        elim (gated-Calls (write_gate (simulates id)) principal service body request_id w) [
          | inl stopped ↦ inl stopped
          | inr c ↦
              inr (c, MayWork-allowed c.user (trim c.request) "" c.allowed c.inside, refl, refl)
        ]
    write_gate-MayWork (revises id) principal service body w =
        elim (gated-Calls (write_gate (revises id)) principal service body request_id w) [
          | inl stopped ↦ inl stopped
          | inr c ↦ inr (
            c,
            MayWork-allowed c.user (trim c.request.business_id) "" c.allowed c.inside,
            refl,
            refl,
          )
        ]
    write_gate-MayWork (submits id) principal service body w =
        elim (gated-Calls (write_gate (submits id)) principal service body request_id w) [
          | inl stopped ↦ inl stopped
          | inr c ↦
              inr (c, MayWork-allowed c.user (trim c.request) "" c.allowed c.inside, refl, refl)
        ]
