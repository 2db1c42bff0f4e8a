-- ===== src/Examples/Proposals.antt =====
-- The theorems on stored proposals, at a concrete database.
use webmcp_backend.Common.{ap, sym, ◌≡◌, refl, inr, true, some, [], ◌∷◌}
use mathlib.Core.Option.{some-injective}
use webmcp_backend.Common.Text.{trim, trim_left, trim_right, is_space}
use webmcp_backend.Common.Text.Decimal.{decimal, digits}
use webmcp_backend.Common.Int.{ℤ, pos}
use webmcp_backend.Domain.Core.{validate_id, validate_ids}
use webmcp_backend.Domain.Proposal.{Proposal, validate_proposal, validate_version}
use webmcp_backend.Domain.Scenario
use webmcp_backend.Domain.Scenario.{Scenario}
use webmcp_backend.Auth.Principal.{viewer}
use webmcp_backend.Store.Tables.{ProposalRow}
use webmcp_backend.Store.Tx.{
  Session, ◌>>=◌, lift, statement, query, reject, now, open_and_run, with_tenant_tx,
}
use webmcp_backend.Store.Tx.Laws.{Returns}
use webmcp_backend.Store.Sql.{count_where, update_where, find_user}
use webmcp_backend.Store.Commits.Writes.{artifact_id}
use webmcp_backend.Store.Proposals.Rows.{
  find_proposal, get_proposal, refuses_version, insert_version,
}
use webmcp_backend.Store.Proposals.Operations.{
  insert_proposal_audit, append_proposal_audit, proposable, insert_proposal, create_proposal_tx,
  create_proposal, require_proposal_operator, move_draft, advance_proposal, write_revision,
  save_revision_tx, save_revision, submit_review_tx, submit_review,
}
use webmcp_backend.Store.Proposals.Written.{Inserted, create_proposal-Inserted}
use webmcp_backend.Store.Proposals.Revised.{Revised, save_revision-Revised}
use webmcp_backend.Store.Proposals.Submitted.{Submitted, submit_review-Submitted}
use webmcp_backend.Store.Proposals.Replaced.{get_proposal-save_revision}
use webmcp_backend.Examples.Data.{a_draft, a_proposal, no_outcome}
use webmcp_backend.Examples.Stores.{a_db, digest}

abbrev pub a_simulated : Scenario ℤ
a_simulated = record a_draft {
  result = record no_outcome { calculated = true };
  status = Scenario.Status.simulated;
}

-- A guest may propose for its organization.
abbrev pub an_open_session : Session ℤ
an_open_session = record {
  db = record a_db {
    users = record { id = "guest-1"; organization_id = "org"; role = viewer } ∷ [];
    scenarios =
        record { organization_id = "org"; scenario = a_simulated; created_by = "guest-1" } ∷ [];
    proposals = [];
    versions = [];
  };
  clock = 7;
  faults = [];
}

unfoldable a_created_session : Session ℤ
unfolding create_proposal
a_created_session =
    (create_proposal digest true "org" "guest-1" "request-1" true a_proposal an_open_session).1

it_creates :
    Returns
      (create_proposal digest true "org" "guest-1" "request-1" true a_proposal)
      an_open_session
      tt
      a_created_session
unfolding a_created_session create_proposal create_proposal_tx append_proposal_audit
    insert_proposal_audit proposable insert_proposal insert_version refuses_version with_tenant_tx
    open_and_run ◌>>=◌ lift reject query statement now validate_id trim trim_left trim_right
    is_space find_user
it_creates = refl

create_proposal-Inserted_example :
    Inserted digest true "org" "guest-1" "request-1" a_proposal 7
      (an_open_session.db)
      a_created_session.db
create_proposal-Inserted_example =
    create_proposal-Inserted digest true "org" "guest-1" "request-1" true a_proposal an_open_session
      a_created_session tt it_creates

abbrev a_revision : Proposal
a_revision = record a_proposal {
  current = record (a_proposal.current) { id = "version-2"; number = pos 2; summary = "and less" };
  version = 2;
}

unfoldable a_revised_session : Session ℤ
unfolding save_revision
a_revised_session =
    (save_revision digest true "org" "guest-1" "request-2" true a_revision 1 a_created_session).1

it_revises :
    Returns
      (save_revision digest true "org" "guest-1" "request-2" true a_revision 1)
      a_created_session
      tt
      a_revised_session
unfolding artifact_id a_revised_session a_created_session save_revision save_revision_tx
    write_revision move_draft advance_proposal require_proposal_operator create_proposal
    create_proposal_tx append_proposal_audit insert_proposal_audit proposable insert_proposal
    insert_version refuses_version with_tenant_tx open_and_run ◌>>=◌ lift reject query statement now
    validate_id trim trim_left trim_right is_space find_user find_proposal count_where update_where
    decimal digits
it_revises = refl

save_revision-Revised_example :
    Revised digest true "org" "guest-1" "request-2" a_revision 1 7
      (a_created_session.db)
      a_revised_session.db
unfolding a_created_session create_proposal create_proposal_tx append_proposal_audit
    insert_proposal_audit proposable insert_proposal insert_version refuses_version with_tenant_tx
    open_and_run ◌>>=◌ lift reject query statement now validate_id trim trim_left trim_right
    is_space find_user
save_revision-Revised_example =
    save_revision-Revised digest true "org" "guest-1" "request-2" true a_revision 1
      a_created_session a_revised_session tt it_revises

same_goal :
    (p : ProposalRow)
    → find_proposal "org" "proposal-1" a_created_session.db ≡ some p
    → p.goal_id ≡ "goal-1"
unfolding a_created_session find_proposal create_proposal create_proposal_tx append_proposal_audit
    insert_proposal_audit proposable insert_proposal insert_version refuses_version with_tenant_tx
    open_and_run ◌>>=◌ lift reject query statement now validate_id trim trim_left trim_right
    is_space find_user
same_goal p h = ap (λ (r : ProposalRow). r.goal_id) (sym (some-injective _ _ h))

get_proposal-save_revision_example :
    Returns
      (get_proposal "org" true "shop" "proposal-1")
      (record a_revised_session { faults = [] })
      a_revision
      (record a_revised_session { faults = [] })
unfolding validate_proposal validate_version validate_ids validate_id trim trim_left trim_right
    is_space
get_proposal-save_revision_example =
    get_proposal-save_revision digest true "org" "guest-1" "request-2" true "shop" a_revision 1
      a_created_session a_revised_session (record a_revised_session { faults = [] }) (inr refl) refl
      refl refl same_goal it_revises refl refl

unfoldable a_submitted_session : Session ℤ
unfolding submit_review
a_submitted_session =
    (submit_review digest true "org" "guest-1" "request-2" true "proposal-1" 1 a_created_session).1

it_submits :
    Returns
      (submit_review digest true "org" "guest-1" "request-2" true "proposal-1" 1)
      a_created_session
      tt
      a_submitted_session
unfolding artifact_id a_submitted_session a_created_session submit_review submit_review_tx
    move_draft require_proposal_operator create_proposal create_proposal_tx append_proposal_audit
    insert_proposal_audit proposable insert_proposal insert_version refuses_version with_tenant_tx
    open_and_run ◌>>=◌ lift reject query statement now validate_id trim trim_left trim_right
    is_space find_user count_where update_where decimal digits
it_submits = refl

submit_review-Submitted_example :
    Submitted digest true "org" "guest-1" "request-2" "proposal-1" 1 7
      (a_created_session.db)
      a_submitted_session.db
unfolding a_created_session create_proposal create_proposal_tx append_proposal_audit
    insert_proposal_audit proposable insert_proposal insert_version refuses_version with_tenant_tx
    open_and_run ◌>>=◌ lift reject query statement now validate_id trim trim_left trim_right
    is_space find_user
submit_review-Submitted_example =
    submit_review-Submitted digest true "org" "guest-1" "request-2" true "proposal-1" 1
      a_created_session a_submitted_session tt it_submits
