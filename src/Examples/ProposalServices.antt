-- ===== src/Examples/ProposalServices.antt =====
-- The theorems on the proposal service over the adapter, and on runs of the adapters, at a concrete
-- database.
use webmcp_backend.Common.{◌^◌, ◌≡◌, refl, true, Option, some, [], ◌∷◌, ok, leb→le}
use webmcp_backend.Common.Text.{trim, trim_left, trim_right, is_space}
use webmcp_backend.Common.Text.Decimal.{decimal, digits}
use webmcp_backend.Common.Int.{ℤ, add_u64}
use webmcp_backend.Domain.Core.{new_id, validate_id, validate_ids}
use webmcp_backend.Domain.Proposal.{Proposal, validate_proposal, validate_version}
use webmcp_backend.Store.Tx.{
  Session, ◌>>=◌, lift, statement, query, reject, now, open_and_run, with_tenant_tx,
}
use webmcp_backend.Store.Tx.Laws.{Returns}
use webmcp_backend.Store.Sql.{count_where, update_where, find_user}
use webmcp_backend.Store.Commits.Writes.{artifact_id}
use webmcp_backend.Store.Proposals.Rows.{
  version_row, find_stored, stored_proposal, read_stored, get_proposal, refuses_version,
  insert_version,
}
use webmcp_backend.Store.Proposals.Operations.{
  insert_proposal_audit, append_proposal_audit, proposable, insert_proposal, create_proposal_tx,
  create_proposal, require_proposal_operator, move_draft, submit_review_tx, submit_review,
}
use webmcp_backend.Store.Proposals.Port.{postgres_proposals, get_proposal-service}
use webmcp_backend.Store.Proposals.Written.{new_row}
use webmcp_backend.Store.Proposals.Answers.{get_proposal-request_human_review}
use webmcp_backend.Store.Steps.{creates, submits, done, and_then}
use webmcp_backend.Store.Steps.Current.{HasCurrent, Steps-HasCurrent}
use webmcp_backend.Workflow.Ports.{ScenarioRepository, Random, fresh_id, required}
use webmcp_backend.Workflow.Proposals
use webmcp_backend.Workflow.Proposals.{
  CreateInput, ReviewInput, draft_of, changes_for, action_text, propose, submitted,
  request_human_review,
}
use webmcp_backend.Examples.Numbers.{whole_numbers}
use webmcp_backend.Examples.Data.{a_proposal, a_version}
use webmcp_backend.Examples.Stores.{digest}
use webmcp_backend.Examples.Proposals.{a_simulated, an_open_session}

abbrev a_random : Random (Session ℤ)
a_random s = (some "1", s)

abbrev a_source : Option (ScenarioRepository ℤ (Session ℤ))
a_source = some (record {
  create_scenario = λ _ _ _ _ s. (ok tt, s);
  get_scenario = λ _ _ _ s. (ok a_simulated, s);
  list_scenarios = λ _ _ _ s. (ok (a_simulated ∷ []), s);
  update_simulation = λ _ _ _ _ _ s. (ok tt, s);
})

abbrev a_request : CreateInput
a_request = record {
  organization_id = "org";
  actor_id = "guest-1";
  business_id = "shop";
  goal_id = "goal-1";
  scenario_id = "scenario-1";
  summary = "advertise the tea";
  request_id = "request-1";
}

abbrev a_new_proposal : Proposal
a_new_proposal = draft_of whole_numbers a_request a_simulated "proposal-1" "proposal-version-1"

unfoldable a_proposed_session : Session ℤ
unfolding create_proposal
a_proposed_session =
    (create_proposal digest true "org" "guest-1" "request-1" true a_new_proposal an_open_session).1

it_proposes :
    Returns
      (Proposals.create_proposal whole_numbers a_random a_source
        (some (postgres_proposals digest true true))
        a_request)
      an_open_session
      a_new_proposal
      a_proposed_session
unfolding artifact_id a_proposed_session Proposals.create_proposal propose postgres_proposals
    fresh_id required new_id validate_proposal validate_version draft_of changes_for action_text
    validate_ids create_proposal create_proposal_tx append_proposal_audit insert_proposal_audit
    proposable insert_proposal insert_version refuses_version with_tenant_tx open_and_run ◌>>=◌ lift
    reject query statement now validate_id trim trim_left trim_right is_space find_user
it_proposes = refl

get_proposal-service_example :
    Returns
      (get_proposal "org" true "shop" "proposal-1")
      (record a_proposed_session { faults = [] })
      a_new_proposal
      (record a_proposed_session { faults = [] })
unfolding draft_of
get_proposal-service_example =
    get_proposal-service whole_numbers a_random a_source digest true true a_request a_new_proposal
      an_open_session a_proposed_session (record a_proposed_session { faults = [] }) it_proposes
      refl refl

abbrev a_review : ReviewInput
a_review = record {
  organization_id = "org";
  actor_id = "guest-1";
  business_id = "shop";
  proposal_id = "proposal-1";
  request_id = "request-2";
}

abbrev a_draft_session : Session ℤ
a_draft_session = record an_open_session {
  db = record (an_open_session.db) {
    proposals = new_row "org" a_proposal ∷ [];
    versions = version_row "org" "proposal-1" a_version ∷ [];
  };
}

unfoldable a_reviewed_session : Session ℤ
unfolding submit_review
a_reviewed_session =
    (submit_review digest true "org" "guest-1" "request-2" true "proposal-1" 1 a_draft_session).1

it_reviews :
    Returns
      (request_human_review a_random (some (postgres_proposals digest true true)) a_review)
      a_draft_session
      (submitted a_proposal)
      a_reviewed_session
unfolding artifact_id a_reviewed_session request_human_review submitted postgres_proposals required
    get_proposal read_stored find_stored stored_proposal validate_proposal validate_version
    validate_ids submit_review submit_review_tx move_draft require_proposal_operator
    append_proposal_audit insert_proposal_audit with_tenant_tx open_and_run ◌>>=◌ lift reject query
    statement now validate_id trim trim_left trim_right is_space find_user count_where update_where
    decimal digits
it_reviews = refl

get_proposal-request_human_review_example :
    (q : Proposal) × Returns
      (get_proposal "org" true "shop" "proposal-1")
      (record a_reviewed_session { faults = [] })
      q
      (record a_reviewed_session { faults = [] })
    × (q.current ≡ (submitted a_proposal).current)
    × ((submitted a_proposal).version ≡ add_u64 q.version 1)
unfolding submitted
get_proposal-request_human_review_example =
    get_proposal-request_human_review a_random digest true true a_review (submitted a_proposal)
      a_draft_session a_reviewed_session (record a_reviewed_session { faults = [] })
      (leb→le 1 1 refl) (leb→le 2 (2 ^ 63) refl) it_reviews refl refl

Steps-HasCurrent_example : HasCurrent (
    (submit_review digest true "org" "guest-1" "request-2" true "proposal-1" 1
      a_proposed_session).1.db)
unfolding a_proposed_session
Steps-HasCurrent_example =
    Steps-HasCurrent whole_numbers digest (an_open_session.db)
      ((submit_review digest true "org" "guest-1" "request-2" true "proposal-1" 1
        a_proposed_session).1.db)
      (and_then (an_open_session.db) (a_proposed_session.db) _
        (creates true true "org" "guest-1" "request-1" a_request a_simulated "proposal-1"
          "proposal-version-1" an_open_session)
        (and_then (a_proposed_session.db) _ _
          (submits true true "org" "guest-1" "request-2" "proposal-1" 1 a_proposed_session)
          (done _)))
      tt
