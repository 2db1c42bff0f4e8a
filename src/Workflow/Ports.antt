-- ===== src/Workflow/Ports.antt =====
-- internal/application/ports/ports.go: what the services ask of their repositories, as operations
-- on a state of the outside world. `random` is what `rand.Read` gives `core.NewID`.
pub mod Laws
use webmcp_backend.Common.{
  ℕ, String, Option, none, some, List, Error, message, Result, ok, err, ◌∷◌, [],
}
use webmcp_backend.Common.Io.{Io, ◌>>=◌, lift}
use webmcp_backend.Domain.Core.{Ident, new_id}
use webmcp_backend.Domain.Business.{Snapshot}
use webmcp_backend.Domain.Planning.{Goal, Constraint}
use webmcp_backend.Domain.Proposal.{Proposal}
use webmcp_backend.Domain.Approval.{Decision}
use webmcp_backend.Domain.Scenario.{Scenario}

-- The organization, then the business.
pub record BusinessSnapshotReader (F W : Type 0) : Type 0 where
  pub get_snapshot : Ident → Ident → Io W (Snapshot F)

pub record GoalReader (W : Type 0) : Type 0 where
  pub get_goal : Ident → Ident → Ident → Io W Goal

pub record ScenarioRepository (F W : Type 0) : Type 0 where
  pub create_scenario : Ident → Ident → Scenario F → String → Io W (Unit {0})
  pub get_scenario : Ident → Ident → Ident → Io W (Scenario F)
  pub list_scenarios : Ident → Ident → List Ident → Io W (List (Scenario F))
  pub update_simulation : Ident → Scenario F → ℕ → Ident → String → Io W (Unit {0})

pub record ProposalRepository (W : Type 0) : Type 0 where
  pub create_proposal : Ident → Ident → Proposal → String → Io W (Unit {0})
  pub get_proposal : Ident → Ident → Ident → Io W Proposal
  pub save_revision : Ident → Ident → Proposal → ℕ → String → Io W (Unit {0})
  pub submit_review : Ident → Ident → Ident → ℕ → String → Io W (Unit {0})

pub record ApprovalRepository (W : Type 0) : Type 0 where
  pub record_decision : Ident → Decision → String → Io W (Unit {0})

-- planningworkflow's `ConstraintWriter`
pub record ConstraintWriter (W : Type 0) : Type 0 where
  pub add_constraint : Ident → Ident → Constraint → String → Io W (Unit {0})

abbrev pub Random : Type 0 → Type 0
Random W = W → Option String × W

-- `core.NewID` with the next random text.
unfoldable pub fresh_id : {W : Type 0} → Random W → String → Io W Ident
fresh_id random prefix w = let (bytes, w') = random w in (new_id prefix bytes, w')

-- `if s.dependency == nil { return ..., err }`
unfoldable pub required : {W A : Type 0} → String → Option A → Io W A
required complaint none w = (err (message complaint), w)
required complaint (some a) w = (ok a, w)
