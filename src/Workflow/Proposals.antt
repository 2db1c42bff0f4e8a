-- ===== src/Workflow/Proposals.antt =====
-- internal/application/proposalworkflow/service.go: a proposal is created from a simulated
-- scenario, revised after feedback, and submitted for review.
pub mod Reviewed
pub mod Created
use Prim.Native.String.{len, ◌++◌ as append}
use webmcp_backend.Common.{
  ℕ, ◌+◌, ◌%◌, ◌^◌, String, Bool, not, ◌&&◌, ◌||◌, Option, List, [], ◌∷◌, ◌++◌, ◌==◌, string_eq,
  ltb, map, message, Error, Result, ok,
}
use webmcp_backend.Common.Text.{trim, is_empty, is_blank}
use webmcp_backend.Common.Int.{ℤ, pos, add64, add_u64, to_bits}
use webmcp_backend.Common.Float.{Float64}
use webmcp_backend.Common.Io.{Io, ◌>>=◌, ◌>>◌, lift, reject}
use webmcp_backend.Domain.Core.{Ident, validate_ids}
use webmcp_backend.Domain.Proposal
use webmcp_backend.Domain.Proposal.{
  Proposal, Version, Change, validate_proposal, validate_version, status_eq as proposal_status_eq,
}
use webmcp_backend.Domain.Scenario
use webmcp_backend.Domain.Scenario.{Scenario, Action, ActionType, status_eq as scenario_status_eq}
use webmcp_backend.Workflow.Ports.{
  ScenarioRepository, ProposalRepository, Random, fresh_id, required,
}

abbrev pub proposal_state : Error
proposal_state = message "proposal state does not allow this operation"

abbrev pub proposal_context : Error
proposal_context = message "proposal context mismatch"

pub record CreateInput : Type 0 where
  pub organization_id : Ident
  pub actor_id : Ident
  pub business_id : Ident
  pub goal_id : Ident
  pub scenario_id : Ident
  pub summary : String
  pub request_id : String

pub record ReviseInput : Type 0 where
  pub organization_id : Ident
  pub actor_id : Ident
  pub business_id : Ident
  pub proposal_id : Ident
  pub feedback : String
  pub request_id : String

pub record ReviewInput : Type 0 where
  pub organization_id : Ident
  pub actor_id : Ident
  pub business_id : Ident
  pub proposal_id : Ident
  pub request_id : String

-- `string(action.Type)`
unfoldable pub action_text : ActionType → String
action_text ActionType.price_adjustment = "price_adjustment"
action_text ActionType.inventory_replenish = "inventory_replenishment"
action_text ActionType.marketing_budget = "marketing_budget"
action_text (ActionType.other t) = t

module _ (fl : Float64) where
  open fl use {F, format4}

  -- `changesForScenario`
  unfoldable pub changes_for : List (Action F) → List Change
  changes_for [] = []
  changes_for (a ∷ actions) =
      record {
        entity_type = "strategic_action";
        entity_id = a.target_id;
        field = action_text a.type;
        from = "";
        to = append (format4 a.value) (append " " a.unit);
      }
      ∷ changes_for actions

  unfoldable pub draft_of : CreateInput → Scenario F → Ident → Ident → Proposal
  draft_of i candidate proposal_id version_id = record {
    id = proposal_id;
    business_id = i.business_id;
    goal_id = i.goal_id;
    current = record {
      id = version_id;
      proposal_id = proposal_id;
      number = pos 1;
      scenario_id = candidate.id;
      base_business_version = candidate.base_business_version;
      summary = trim i.summary;
      changes = changes_for candidate.proposed_actions;
      status = Proposal.Status.draft;
    };
    version = 1;
  }

  -- `CreateProposal` from the scenario that it has read.
  unfoldable pub propose :
      {W : Type 0} → Random W → ProposalRepository W → CreateInput → Scenario F → Io W Proposal
  propose random repository i candidate = do
    reject
        (not (candidate.business_id == i.business_id)
          || not (candidate.goal_id == i.goal_id)
          || (not (candidate.status == Scenario.Status.simulated)
              && not (candidate.status == Scenario.Status.compared))
          || not candidate.result.calculated)
        proposal_context
    proposal_id ← fresh_id random "proposal"
    version_id ← fresh_id random "proposal-version"
    lift (validate_proposal (draft_of i candidate proposal_id version_id))
    repository.create_proposal i.organization_id i.actor_id
        (draft_of i candidate proposal_id version_id) i.request_id
    lift (ok (draft_of i candidate proposal_id version_id))

  module _ {W : Type 0} (random : Random W) (scenarios : Option (ScenarioRepository F W))
      (proposals : Option (ProposalRepository W)) where
    -- `CreateProposal`
    unfoldable pub create_proposal : CreateInput → Io W Proposal
    create_proposal i = do
      lift (
          validate_ids (
            ("organization_id", i.organization_id)
            ∷ ("actor_id", i.actor_id)
            ∷ ("business_id", i.business_id)
            ∷ ("goal_id", i.goal_id)
            ∷ ("scenario_id", i.scenario_id)
            ∷ []))
      reject (is_blank i.summary || ltb 2000 (len (trim i.summary)))
          (message "summary must be between 1 and 2000 characters")
      reject (is_blank i.request_id) (message "request_id is required")
      scenario_repository ← required "proposal workflow dependencies are unavailable" scenarios
      proposal_repository ← required "proposal workflow dependencies are unavailable" proposals
      candidate ← scenario_repository.get_scenario i.organization_id i.business_id i.scenario_id
      propose random proposal_repository i candidate

-- The next version, after the human's feedback.
unfoldable pub revised : Proposal → String → Ident → Proposal
revised current feedback version_id = record current {
  version = add_u64 current.version 1;
  current = record {
    id = version_id;
    proposal_id = current.id;
    number = add64 current.current.number (pos 1);
    scenario_id = current.current.scenario_id;
    base_business_version = current.current.base_business_version;
    summary = trim (append current.current.summary (append "\nRevision: " feedback));
    changes =
        current.current.changes
        ++ (record {
          entity_type = "proposal";
          entity_id = current.id;
          field = "human_feedback";
          from = "";
          to = feedback;
        }
            ∷ []);
    status = Proposal.Status.draft;
  };
}

-- What `RequestHumanReview` returns for the proposal that it read.
unfoldable pub submitted : Proposal → Proposal
submitted p = record p {
  current = record (p.current) { status = Proposal.Status.in_review };
  version = add_u64 p.version 1;
}

module _ {W : Type 0} (random : Random W) (proposals : Option (ProposalRepository W)) where
  -- `ReviseProposal`
  unfoldable pub revise_proposal : ReviseInput → Io W Proposal
  revise_proposal i = do
    lift (
        validate_ids (
          ("organization_id", i.organization_id)
          ∷ ("actor_id", i.actor_id)
          ∷ ("proposal_id", i.proposal_id)
          ∷ []))
    reject (is_empty (trim i.feedback) || ltb 2000 (len (trim i.feedback)) || is_blank i.request_id)
        (message "feedback and request_id are required within their limits")
    repository ← required "proposal workflow dependencies are unavailable" proposals
    current ← repository.get_proposal i.organization_id i.business_id i.proposal_id
    reject (not (current.current.status == Proposal.Status.draft)) proposal_state
    version_id ← fresh_id random "proposal-version"
    reject (ltb 5000 (len (revised current (trim i.feedback) version_id).current.summary))
        (message "revised summary exceeds 5000 characters")
    lift (validate_version (revised current (trim i.feedback) version_id).current)
    repository.save_revision i.organization_id i.actor_id
        (revised current (trim i.feedback) version_id) (to_bits current.current.number) i.request_id
    lift (ok (revised current (trim i.feedback) version_id))

  -- `RequestHumanReview`
  unfoldable pub request_human_review : ReviewInput → Io W Proposal
  request_human_review i = do
    lift (
        validate_ids (
          ("organization_id", i.organization_id)
          ∷ ("actor_id", i.actor_id)
          ∷ ("business_id", i.business_id)
          ∷ ("proposal_id", i.proposal_id)
          ∷ []))
    reject (is_blank i.request_id) (message "request_id is required")
    repository ← required "proposal workflow dependencies are unavailable" proposals
    current ← repository.get_proposal i.organization_id i.business_id i.proposal_id
    reject
        (not (current.business_id == i.business_id)
          || not (current.current.status == Proposal.Status.draft))
        proposal_state
    repository.submit_review i.organization_id i.actor_id i.proposal_id
        (to_bits current.current.number) i.request_id
    lift (ok (submitted current))
