-- ===== src/Store/Tables.antt =====
-- The tables of migrations/000001_initial.up.sql that the adapters read and write, as lists of
-- rows, a newer row before an older one. A column that a CHECK keeps positive is a natural number;
-- `created_at` and `updated_at` are not modelled.
use webmcp_backend.Common.{ℕ, String, Option, List}
use webmcp_backend.Domain.Core.{Ident}
use webmcp_backend.Domain.Proposal
use webmcp_backend.Domain.Approval
use webmcp_backend.Domain.Commit
use webmcp_backend.Domain.Audit.{Event}
use webmcp_backend.Domain.Scenario.{Scenario}
use webmcp_backend.Auth.Principal.{Role}

pub record UserRow : Type 0 where
  pub id : Ident
  pub organization_id : Ident
  pub role : Role

pub record BusinessRow : Type 0 where
  pub id : Ident
  pub organization_id : Ident
  pub state_version : ℕ

-- `assumptions` has no column: a scenario is read back without them.
pub record ScenarioRow (F : Type 0) : Type 0 where
  pub organization_id : Ident
  pub scenario : Scenario F
  pub created_by : Ident

pub record ProposalRow : Type 0 where
  pub id : Ident
  pub organization_id : Ident
  pub business_id : Ident
  pub goal_id : Ident
  pub current_version_number : ℕ

pub record VersionRow : Type 0 where
  pub id : Ident
  pub organization_id : Ident
  pub proposal_id : Ident
  pub number : ℕ
  pub scenario_id : Ident
  pub base_business_version : ℕ
  pub summary : String
  pub changes : List Proposal.Change
  pub status : Proposal.Status

pub record ApprovalRow : Type 0 where
  pub id : Ident
  pub organization_id : Ident
  pub business_id : Ident
  pub proposal_id : Ident
  pub proposal_version_id : Ident
  pub decided_by : Ident
  pub status : Approval.Status
  pub reason : String
  pub expires_at : Option ℕ

pub record OperationRow : Type 0 where
  pub id : Ident
  pub organization_id : Ident
  pub business_id : Ident
  pub proposal_id : Ident
  pub proposal_version_id : Ident
  pub idempotency_key : String
  pub expected_business_version : ℕ
  pub status : Commit.Status
  pub committed_business_version : Option ℕ
  pub completed_at : Option ℕ

pub record DecisionRow : Type 0 where
  pub id : Ident
  pub organization_id : Ident
  pub business_id : Ident
  pub proposal_id : Ident
  pub proposal_version_id : Ident
  pub committed_business_version : ℕ
  pub summary : String

pub record AuditRow : Type 0 where
  pub organization_id : Ident
  pub event : Event

pub record Db (F : Type 0) : Type 0 where
  pub users : List UserRow
  pub businesses : List BusinessRow
  pub scenarios : List (ScenarioRow F)
  pub proposals : List ProposalRow
  pub versions : List VersionRow
  pub approvals : List ApprovalRow
  pub operations : List OperationRow
  pub decisions : List DecisionRow
  pub audit : List AuditRow
