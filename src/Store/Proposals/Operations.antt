-- ===== src/Store/Proposals/Operations.antt =====
-- internal/platform/postgres/proposal_repository.go: a proposal is created, revised and submitted for
-- review, each in one transaction with its audit event. `digest` is the hexadecimal text of a digest.
use webmcp_backend.Common.{
  ℕ, ◌^◌, String, Bool, true, false, not, ◌&&◌, ◌||◌, List, [], ◌∷◌, ◌==◌, nat_eq, string_eq, leb,
  any, message, wrap, Result, ok,
}
use webmcp_backend.Common.Int.{pos_part, int_eq}
use webmcp_backend.Common.Text.{is_blank}
use webmcp_backend.Common.Text.Decimal.{decimal}
use webmcp_backend.Domain.Core.{Ident, human}
use webmcp_backend.Domain.Proposal
use webmcp_backend.Domain.Proposal.{
  Proposal, Version, validate_proposal, status_eq as proposal_status_eq,
}
use webmcp_backend.Domain.Scenario
use webmcp_backend.Domain.Scenario.{status_eq as scenario_status_eq}
use webmcp_backend.Auth.Principal.{role_eq}
use webmcp_backend.Store.Tables.{ScenarioRow, AuditRow, Db}
use webmcp_backend.Store.Sql.{count_where, update_where, row_or, constrained, find_user}
use webmcp_backend.Store.Tx.{
  Tx, ◌>>=◌, ◌>>◌, statement, query, reject, now, database_error, with_tenant_tx,
}
use webmcp_backend.Workflow.Proposals.{proposal_state, proposal_context}
use webmcp_backend.Store.Proposals.Rows.{
  proposal_not_found, proposal_conflict, proposal_unauthorized, proposal_audit_id, find_proposal,
  insert_version, is_draft, is_proposal, may_act,
}

abbrev pub proposal_event :
    (String → String)
    → Ident
    → Ident
    → String
    → Ident
    → String
    → List (String × String)
    → ℕ
    → AuditRow
proposal_event digest org actor_id request_id id action metadata at = record {
  organization_id = org;
  event = record {
    id = proposal_audit_id digest id action request_id;
    actor_type = human;
    actor_id = actor_id;
    action = action;
    aggregate = "proposal";
    aggregate_id = id;
    request_id = request_id;
    operation_id = "";
    occurred_at = at;
    metadata = metadata;
  };
}

module _ {F : Type 0} (digest : String → String) (guest : Bool) (org actor_id : Ident)
    (request_id : String) where
  -- The organization of the event is the proposal's, so that there is none without the proposal.
  unfoldable pub insert_proposal_audit :
      Ident → String → List (String × String) → ℕ → Db F → Result (Unit {0} × Db F)
  insert_proposal_audit id action metadata at db =
      constrained
        (not (any (λ p. p.organization_id == org && p.id == id) db.proposals)
          || any (λ a. a.event.id == proposal_audit_id digest id action request_id) db.audit)
        (wrap "append proposal audit event" database_error)
        (
          tt,
          record db {
            audit = proposal_event digest org actor_id request_id id action metadata at ∷ db.audit;
          },
        )

  -- `appendProposalAudit`
  unfoldable pub append_proposal_audit : Ident → String → List (String × String) → Tx F (Unit {0})
  append_proposal_audit id action metadata = do
    reject (is_blank request_id) (message "request_id is required for proposal audit")
    at ← now
    statement "append proposal audit event" (insert_proposal_audit id action metadata at)

  -- The scenarios that the `SELECT` of `CreateProposal` finds beside an actor who may propose.
  unfoldable pub proposable : Proposal → ScenarioRow F → Bool
  proposable candidate s =
      s.organization_id == org
      && s.scenario.id == candidate.current.scenario_id
      && s.scenario.business_id == candidate.business_id
      && s.scenario.goal_id == candidate.goal_id
      && (s.scenario.status == Scenario.Status.simulated
          || s.scenario.status == Scenario.Status.compared)

  -- `INSERT INTO proposals ... SELECT ... FROM scenarios JOIN users`: one row, or none.
  unfoldable pub insert_proposal : Proposal → Db F → Result (ℕ × Db F)
  unfolding proposable
  insert_proposal candidate db =
      elim (any (proposable candidate) db.scenarios && may_act guest (find_user org actor_id db)) [
        | false ↦ ok (0, db)
        | true ↦
            constrained (any (λ p. p.id == candidate.id) db.proposals)
              (wrap "create proposal" database_error)
              (
                1,
                record db {
                  proposals =
                      record {
                        id = candidate.id;
                        organization_id = org;
                        business_id = candidate.business_id;
                        goal_id = candidate.goal_id;
                        current_version_number = 1;
                      }
                      ∷ db.proposals;
                },
              )
      ]

  -- The callback of `CreateProposal`.
  unfoldable pub create_proposal_tx : Proposal → Tx F (Unit {0})
  create_proposal_tx candidate = do
    created ← statement "create proposal" (insert_proposal candidate)
    reject (not (created == 1)) proposal_context
    statement "create proposal version"
        (insert_version org "create proposal version" candidate.id candidate.current)
    append_proposal_audit candidate.id "proposal_created"
        (("proposal_version_id", candidate.current.id) ∷ [])

  -- `CreateProposal`
  unfoldable pub create_proposal : Bool → Proposal → Tx F (Unit {0})
  create_proposal pool candidate = with_tenant_tx pool org (create_proposal_tx candidate)

  -- `requireProposalOperator`
  unfoldable pub require_proposal_operator : Tx F (Unit {0})
  require_proposal_operator = do
    authorized ← query "check proposal actor" (λ db. ok (may_act guest (find_user org actor_id db)))
    reject (not authorized) proposal_unauthorized

  -- `UPDATE proposal_versions SET status = $1 WHERE ... AND status = 'draft'`: a number past the
  -- range of `integer` is no parameter, and the join of `SubmitReview` finds the proposal.
  unfoldable pub move_draft : String → Proposal.Status → Ident → ℕ → Db F → Result (ℕ × Db F)
  move_draft label status id number db =
      constrained (leb (2 ^ 31) number) (wrap label database_error) (
        count_where (is_draft org id number) db.versions,
        record db {
          versions =
              update_where (is_draft org id number) (λ v. record v { status = status }) db.versions;
        },
      )

  -- `UPDATE proposals SET current_version_number = $1`
  unfoldable pub advance_proposal : Ident → ℕ → Db F → Result (Unit {0} × Db F)
  advance_proposal id number db =
      constrained (leb (2 ^ 31) number || number == 0)
        (wrap "advance proposal revision" database_error)
        (
          tt,
          record db {
            proposals =
                update_where (is_proposal org id)
                  (λ p. record p { current_version_number = number }) db.proposals;
          },
        )

  -- The writes of `SaveRevision`, once the proposal is locked.
  unfoldable pub write_revision : Proposal → ℕ → Tx F (Unit {0})
  write_revision next expected = do
    updated ←
        statement "supersede proposal version"
          (move_draft "supersede proposal version" Proposal.Status.superseded next.id expected)
    reject (not (updated == 1)) proposal_state
    statement "insert revised proposal version"
        (insert_version org "insert revised proposal version" next.id next.current)
    statement "advance proposal revision" (advance_proposal next.id (pos_part next.current.number))
    append_proposal_audit next.id "proposal_revised"
        (("proposal_version_id", next.current.id) ∷ ("superseded_version", decimal expected) ∷ [])

  -- The callback of `SaveRevision`.
  unfoldable pub save_revision_tx : Proposal → ℕ → Tx F (Unit {0})
  save_revision_tx next expected = do
    require_proposal_operator
    p ←
        query "lock proposal for revision"
          (λ db. row_or proposal_not_found (find_proposal org next.id db))
    reject (not (p.current_version_number == expected) || not (p.business_id == next.business_id))
        proposal_conflict
    write_revision next expected

  -- `SaveRevision`
  unfoldable pub save_revision : Bool → Proposal → ℕ → Tx F (Unit {0})
  save_revision pool next expected = with_tenant_tx pool org (save_revision_tx next expected)

  -- The callback of `SubmitReview`.
  unfoldable pub submit_review_tx : Ident → ℕ → Tx F (Unit {0})
  submit_review_tx id expected = do
    require_proposal_operator
    updated ←
        statement "submit proposal review"
          (move_draft "submit proposal review" Proposal.Status.in_review id expected)
    reject (not (updated == 1)) proposal_state
    query "update proposal review timestamp" (λ db. ok tt)
    append_proposal_audit id "proposal_submitted_for_review"
        (("proposal_version_number", decimal expected) ∷ [])

  -- `SubmitReview`
  unfoldable pub submit_review : Bool → Ident → ℕ → Tx F (Unit {0})
  submit_review pool id expected = with_tenant_tx pool org (submit_review_tx id expected)
