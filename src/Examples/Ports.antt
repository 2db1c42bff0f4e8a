-- ===== src/Examples/Ports.antt =====
-- Repositories whose world counts the writes.
use webmcp_backend.Common.{ℕ, suc, Option, some, [], ◌∷◌, ok}
use webmcp_backend.Common.Int.{ℤ}
use webmcp_backend.Common.Io.{Io}
use webmcp_backend.Domain.Scenario.{Scenario}
use webmcp_backend.Workflow.Ports.{
  BusinessSnapshotReader, GoalReader, ScenarioRepository, ProposalRepository, ApprovalRepository,
  ConstraintWriter, Random,
}
use webmcp_backend.Examples.Data.{a_snapshot, a_goal, a_proposal}

abbrev pub always : {W : Type 0} → Random W
always w = (some "00", w)

abbrev pub written : Io ℕ (Unit {0})
written n = (ok tt, suc n)

abbrev pub found : {A : Type 0} → A → Io ℕ A
found a n = (ok a, n)

abbrev a_clock : Io ℕ ℕ
a_clock n = (ok 7, n)

abbrev pub the_snapshots : Option (BusinessSnapshotReader ℤ ℕ)
the_snapshots = some (record { get_snapshot = λ _ _. found a_snapshot })

abbrev pub the_goals : Option (GoalReader ℕ)
the_goals = some (record { get_goal = λ _ _ _. found a_goal })

abbrev pub the_scenarios : Scenario ℤ → Option (ScenarioRepository ℤ ℕ)
the_scenarios s = some (record {
  create_scenario = λ _ _ _ _. written;
  get_scenario = λ _ _ _. found s;
  list_scenarios = λ _ _ _. found (s ∷ record s { id = "scenario-2" } ∷ []);
  update_simulation = λ _ _ _ _ _. written;
})

abbrev pub the_proposals : Option (ProposalRepository ℕ)
the_proposals = some (record {
  create_proposal = λ _ _ _ _. written;
  get_proposal = λ _ _ _. found a_proposal;
  save_revision = λ _ _ _ _ _. written;
  submit_review = λ _ _ _ _ _. written;
})

abbrev the_writer : Option (ConstraintWriter ℕ)
the_writer = some (record { add_constraint = λ _ _ _ _. written })

abbrev the_approvals : Option (ApprovalRepository ℕ)
the_approvals = some (record { record_decision = λ _ _ _. written })
