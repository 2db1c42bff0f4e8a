-- ===== src/Domain/Planning/Laws.antt =====
-- The goal's state machine against its diagram.
use webmcp_backend.Common.{
  ℕ, ◌+◌, ◌≤◌, ◌<◌, ◌≡◌, ◌↔◌, refl, sym, ◌∙◌, ap, List, [], ◌∷◌, arith, Result, ok, ◌>>=◌,
  >>=-eq-ok, length,
}
use webmcp_backend.Common.Int.{add_u64}
use webmcp_backend.Domain.Planning.{
  GoalStatus, Goal, draft, active, completed, cancelled, transition,
}

infix 40 ◌⟶◌
pub data ◌⟶◌ : GoalStatus → GoalStatus → Type 0 where
  activate : draft ⟶ active
  complete : active ⟶ completed
  drop_draft : draft ⟶ cancelled
  drop_active : active ⟶ cancelled

ruleset edges = (activate, complete, drop_draft, drop_active)

-- The goal after a step: its status is the new one and its version the next.
abbrev pub moved : Goal → GoalStatus → Goal
moved g to = record g { status = to; version = add_u64 g.version 1 }

transition_of_edge :
    {s to : GoalStatus} (g : Goal) → s ⟶ to → g.status ≡ s → transition g to ≡ ok (moved g to)
unfolding transition
transition_of_edge g activate e = ground arith
transition_of_edge g _ e = ground arith

edge_of_transition :
    (g g' : Goal) (to : GoalStatus) → transition g to ≡ ok g' → (g.status ⟶ to) × (g' ≡ moved g to)
unfolding transition
edge_of_transition g g' to h = (grind (arith, edges), ground arith)

-- A transition of a goal succeeds exactly along an edge of the diagram, and then changes the
-- status and increments the version, which wraps at 2^64.
goal_transition_iff :
    (g g' : Goal) (to : GoalStatus)
    → (transition g to ≡ ok g') ↔ ((g.status ⟶ to) × (g' ≡ moved g to))
goal_transition_iff g g' to =
    (edge_of_transition g g' to, λ (edge, e). transition_of_edge g edge refl ∙ ap ok (sym e))

-- A chain of transitions, which stops at the first that fails.
unfoldable pub advance : Goal → List GoalStatus → Result Goal
advance g [] = ok g
advance g (to ∷ path) = transition g to >>= λ g'. advance g' path

-- How many transitions a status can still have before it.
abbrev pub rank : GoalStatus → ℕ
rank draft = 2
rank active = 1
rank _ = 0

rank-edge : {s to : GoalStatus} → s ⟶ to → rank to < rank s
rank-edge activate = omega arith
rank-edge _ = omega arith

rank-same : (g g' : Goal) → g ≡ g' → rank g'.status ≡ rank g.status
rank-same g g' e = ap (λ (u : Goal). rank u.status) (sym e)

-- Every chain of transitions of a goal ends: from a draft it has at most two steps, from an
-- active goal one, and from any other status none.
pub advance_bounded :
    (g g' : Goal) (path : List GoalStatus)
    → advance g path ≡ ok g'
    → length path + rank g'.status ≤ rank g.status
unfolding advance
advance_bounded g g' [] h = rw (rank-same g g' (ground arith)) (omega arith)
advance_bounded g g' (to ∷ path) h =
    let (u, e, f) = >>=-eq-ok (transition g to) (λ u. advance u path) h in
    let (edge, same) = edge_of_transition g u to e in
    omega
      (arith, advance_bounded u g' path f, rank-edge edge, ap (λ (u : Goal). rank u.status) same)
