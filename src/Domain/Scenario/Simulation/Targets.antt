-- ===== src/Domain/Scenario/Simulation/Targets.antt =====
-- The products that a simulated scenario's actions are about.
use mathlib.Core.List.{foldl, Memᴰ}
use webmcp_backend.Common.{
  String, ◌≡◌, ◌⊎◌, ap, inl, inr, refl, ◌∙◌, true, Option, some, none, List, [], ◌∷◌, arith, ok,
  Passes, All, Bool-cases, ◌==◌, string_eq, eq_iff, each, seq-Passes, >>=-eq-ok,
}
use webmcp_backend.Common.Float.{Float64}
use webmcp_backend.Common.Maps.{Map, lookup, insert, lookup-insert}
use webmcp_backend.Domain.Core.{Ident}
use webmcp_backend.Domain.Business.{Product, Snapshot}
use webmcp_backend.Domain.Planning.{Goal}
use webmcp_backend.Domain.Scenario.{
  Action, ActionType, marketing_budget, Scenario, validate_action, validate_scenario,
}
use webmcp_backend.Domain.Scenario.Simulation.{
  Projection, product_map, is_active, apply_actions, apply_action_type, simulate,
}
use webmcp_backend.Domain.Scenario.Simulation.Inversion.{simulate-IsSimulation}

-- An active product of the list has this identifier.
abbrev HasActive : List Product → Ident → Type 0
HasActive products id = (p : Product) × (Memᴰ p products) × (p.id ≡ id) × (p.active ≡ true)

found_self :
    (k : String) (q : Product) (m : Map Product) (p : Product)
    → (q.id == k) ≡ true
    → lookup k (insert q.id q m) ≡ some p
    → p ≡ q
found_self k q m p same e = ground (arith, e, lookup-insert q.id k q m)

lookup_fold :
    (k : String) (m : Map Product) (ps : List Product) (p : Product)
    → lookup k (foldl (λ m p. insert p.id p m) m ps) ≡ some p
    → (lookup k m ≡ some p) ⊎ (Memᴰ p ps × (p.id ≡ k))
lookup_fold k m [] p h = inl h
lookup_fold k m (q ∷ ps) p h = elim (lookup_fold k (insert q.id q m) ps p h) [
  | inr (mem, e) ↦ inr (Memᴰ.tail mem, e)
  | inl e ↦ elim (Bool-cases (q.id == k)) [
    | inl same ↦ inr (
      Memᴰ.head (found_self k q m p same e),
      ap (λ (r : Product). r.id) (found_self k q m p same e) ∙ (eq_iff q.id k).0 same,
    )
    | inr differs ↦ inl (ground (arith, e, lookup-insert q.id k q m))
  ]
]

lookup-product_map :
    (k : String) (ps : List Product) (p : Product)
    → lookup k (product_map ps) ≡ some p
    → Memᴰ p ps × (p.id ≡ k)
unfolding product_map
lookup-product_map k ps p h = elim (lookup_fold k [] ps p h) [
  | inl e ↦ absurd (unfold lookup in ground arith)
  | inr found ↦ found
]

active-HasActive :
    (k : String) (ps : List Product) → is_active (lookup k (product_map ps)) ≡ true → HasActive ps k
active-HasActive k ps h = go (lookup k (product_map ps)) refl h
  where
    go : (o : Option Product) → lookup k (product_map ps) ≡ o → is_active o ≡ true → HasActive ps k
    go none e a = cc
    go (some p) e a = let (mem, same) = lookup-product_map k ps p e in (p, mem, same, a)

module _ (fl : Float64) where
  open fl use {F}

  -- An action names a marketing budget or an active product of the list.
  abbrev HasTarget : List Product → Action F → Type 0
  HasTarget products a = (a.type ≡ marketing_budget) ⊎ HasActive products a.target_id

  target_of_action :
      (t : ActionType) (products : List Product) (orders : Map F) (a : Action F)
      (p q : Projection fl)
      → a.type ≡ t
      → Passes (validate_action fl a)
      → apply_action_type fl t (product_map products) orders a p ≡ ok q
      → HasTarget products a
  unfolding apply_action_type validate_action
  target_of_action marketing_budget products orders a p q e valid h = inl e
  target_of_action (ActionType.other n) products orders a p q e valid h = absurd (ground arith)
  target_of_action _ products orders a p q e valid h =
      inr (active-HasActive a.target_id products (ground arith))

  targets_of_actions :
      (products : List Product) (orders : Map F) (actions : List (Action F)) (p q : Projection fl)
      → Passes (each (validate_action fl) actions)
      → apply_actions fl (product_map products) orders actions p ≡ ok q
      → All (HasTarget products) actions
  unfolding apply_actions
  targets_of_actions products orders [] p q valid h = tt
  targets_of_actions products orders (a ∷ actions) p q valid h =
      let (r, e, f) =
        >>=-eq-ok (apply_action_type fl a.type (product_map products) orders a p) _ h in
      let (here, later) = (seq-Passes _ _).0 valid in
      (
        target_of_action a.type products orders a p r refl here e,
        targets_of_actions products orders actions r q later f,
      )

  valid_actions :
      (s : Scenario F)
      → Passes (validate_scenario fl s)
      → Passes (each (validate_action fl) s.proposed_actions)
  unfolding validate_scenario
  valid_actions s h = ground arith

  -- Of a scenario that simulates, every action but a marketing budget has as its target a product
  -- of the snapshot that is active.
  simulate_targets :
      (snapshot : Snapshot F) (goal : Goal) (candidate next : Scenario F)
      → simulate fl snapshot goal candidate ≡ ok next
      → All (HasTarget snapshot.products) candidate.proposed_actions
  simulate_targets snapshot goal candidate next h =
      let v = simulate-IsSimulation fl snapshot goal candidate h in
      targets_of_actions snapshot.products _ candidate.proposed_actions _ v.projection
        (valid_actions candidate v.candidate_valid) v.applied
