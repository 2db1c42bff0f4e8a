-- ===== src/Domain/Scenario/Laws.antt =====
-- The scenario's state machine against its diagram.
use webmcp_backend.Common.{◌≡◌, ◌↔◌, refl, sym, ◌∙◌, ap, arith, ok}
use webmcp_backend.Common.Int.{add_u64}
use webmcp_backend.Domain.Scenario.{
  Status, draft, simulated, compared, archived, Scenario, transition,
}

infix 40 ◌⟶◌
pub data ◌⟶◌ : Status → Status → Type 0 where
  simulate : draft ⟶ simulated
  compare : simulated ⟶ compared
  archive_draft : draft ⟶ archived
  archive_simulated : simulated ⟶ archived
  archive_compared : compared ⟶ archived

ruleset edges = (simulate, compare, archive_draft, archive_simulated, archive_compared)

abbrev pub moved : {F : Type 0} → Scenario F → Status → Scenario F
moved s to = record s { status = to; version = add_u64 s.version 1 }

transition_of_edge :
    {F : Type 0} {from to : Status} (s : Scenario F)
    → from ⟶ to
    → s.status ≡ from
    → transition s to ≡ ok (moved s to)
unfolding transition
transition_of_edge s simulate e = ground arith
transition_of_edge s _ e = ground arith

edge_of_transition :
    {F : Type 0} (s s' : Scenario F) (to : Status)
    → transition s to ≡ ok s'
    → (s.status ⟶ to) × (s' ≡ moved s to)
unfolding transition
edge_of_transition s s' to h = (grind (arith, edges), ground arith)

-- A transition of a scenario succeeds exactly along an edge of the diagram, and then changes the
-- status and increments the version, which wraps at 2^64.
scenario_transition_iff :
    {F : Type 0} (s s' : Scenario F) (to : Status)
    → (transition s to ≡ ok s') ↔ ((s.status ⟶ to) × (s' ≡ moved s to))
scenario_transition_iff s s' to =
    (edge_of_transition s s' to, λ (edge, e). transition_of_edge s edge refl ∙ ap ok (sym e))
