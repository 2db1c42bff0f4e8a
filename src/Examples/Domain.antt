-- ===== src/Examples/Domain.antt =====
-- The theorems on the domain types, at concrete values.
use webmcp_backend.Common.{◌+◌, ◌≤◌, length, ◌≡◌, ◌↔◌, refl, String, List, [], ◌∷◌, Passes}
use webmcp_backend.Domain.Core.{Ident}
use webmcp_backend.Domain.Planning.{
  Goal, GoalStatus, transition as goal_transition, can_transition as goal_can_transition,
}
use webmcp_backend.Domain.Planning.Laws.{advance as goal_advance, rank, moved, advance_bounded}
use webmcp_backend.Domain.Proposal
use webmcp_backend.Domain.Proposal.{validate_proposal, transition, can_transition}
use webmcp_backend.Domain.Proposal.Laws.{advance, committed_path}
use webmcp_backend.Domain.Commit.{validate}
use webmcp_backend.Domain.Commit.Gate.{IsCommittable, validate-Passes}
use webmcp_backend.Examples.Data.{a_goal, a_version, a_gate_input}

abbrev some_ids : List (String × Ident)
some_ids = ("organization_id", "org") ∷ ("business_id", "shop") ∷ []

abbrev swapped_ids : List (String × Ident)
swapped_ids = ("business_id", "shop") ∷ ("organization_id", "org") ∷ []

abbrev completed_goal : Goal
completed_goal = moved a_goal GoalStatus.completed

advance_bounded_example :
    length (GoalStatus.completed ∷ []) + rank completed_goal.status ≤ rank a_goal.status
unfolding goal_advance goal_transition goal_can_transition
advance_bounded_example = advance_bounded a_goal completed_goal (GoalStatus.completed ∷ []) refl

abbrev reviewed_version : Proposal.Version
reviewed_version = record a_version { status = Proposal.Status.in_review }

abbrev committed_version : Proposal.Version
committed_version = record a_version { status = Proposal.Status.committed }

abbrev the_path : List Proposal.Status
the_path = Proposal.Status.in_review ∷ Proposal.Status.approved ∷ Proposal.Status.committed ∷ []

committed_path_example : the_path ≡ the_path
unfolding advance transition can_transition
committed_path_example = committed_path a_version committed_version the_path refl refl refl

validate-Passes_example : Passes (validate a_gate_input) ↔ IsCommittable a_gate_input
validate-Passes_example = validate-Passes a_gate_input

abbrev the_shop : Ident
the_shop = "shop"

abbrev the_goal : Ident
the_goal = "goal-1"
