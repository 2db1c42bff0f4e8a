-- ===== src/Domain/Scenario/Comparison/Recommendation.antt =====
-- What `Compare` accepts, and what it recommends.
use mathlib.Core.List.{Memᴰ, foldl, append_assoc, append-nil}
use webmcp_backend.Common.{
  ◌≡◌, ◌⊎◌, ◌↔◌, ◌≤◌, refl, true, false, Option, none, some, List, [], ◌∷◌, ◌++◌, map, arith, All,
  ok, Result-cases, Option-cases, inl, inr, length, any-false, any-true, All-imp,
}
use webmcp_backend.Common.Text.{equal_fold, text_ltb}
use webmcp_backend.Common.Int.{pos}
use webmcp_backend.Common.Maps.{lookup_or}
use webmcp_backend.Common.Float.{Float64}
use webmcp_backend.Domain.Scenario.{Scenario, Risk, simulated, compared, status_beq_iff}
use webmcp_backend.Domain.Scenario.Comparison.{
  Comparison, ComparisonItem, is_high, has_high_risk, margin, better_margin, item_of, next_best,
  compare_from, recommend, compare,
}
use webmcp_backend.Domain.Scenario.Comparison.Best.{fold_member, fold-Unbeaten, fold_none}

abbrev IsComparable : {F : Type 0} → Scenario F → Type 0
IsComparable s = ((s.status ≡ simulated) ⊎ (s.status ≡ compared)) × (s.result.calculated ≡ true)

module _ (fl : Float64) where
  open fl use {F, of_int, eq, lt, lt_irrefl, eq_lt}

  compare_from-eq :
      (ss : List (Scenario F)) (items : List (ComparisonItem F)) (best : Option (Scenario F))
      → All IsComparable ss
      → compare_from fl ss items best ≡ ok (items ++ map item_of ss, foldl (next_best fl) best ss)
  unfolding compare_from
  compare_from-eq [] items best h = rw append-nil
  compare_from-eq (s ∷ ss) items best (h, hs) = ground (
    arith,
    compare_from-eq ss (items ++ item_of s ∷ []) (next_best fl best s) hs,
    append_assoc items (item_of s ∷ []) (map item_of ss),
  )

  compare_from-IsComparable :
      (ss : List (Scenario F)) (items : List (ComparisonItem F)) (best : Option (Scenario F))
      (r : List (ComparisonItem F) × Option (Scenario F))
      → compare_from fl ss items best ≡ ok r
      → All IsComparable ss
  compare_from-IsComparable [] items best r h = tt
  compare_from-IsComparable (s ∷ ss) items best r h = (
    unfold compare_from in
        (
          ground (arith, status_beq_iff s.status simulated, status_beq_iff s.status compared),
          ground arith,
        ),
    compare_from-IsComparable ss (items ++ item_of s ∷ []) (next_best fl best s) r
        (unfold compare_from in ground arith),
  )

  -- The best candidate after the loop.
  abbrev best_of : List (Scenario F) → Option (Scenario F)
  best_of = foldl (next_best fl) none

  compare-eq :
      (candidates : List (Scenario F)) (c : Comparison F)
      → compare fl candidates ≡ ok c
      → (2 ≤ length candidates)
        × All IsComparable candidates
        × (c ≡ recommend fl (map item_of candidates, best_of candidates))
  compare-eq candidates c h = elim (Result-cases (compare_from fl candidates [] none)) [
    | inl (r, e) ↦
        let all = compare_from-IsComparable candidates [] none r e in
        let same = compare_from-eq candidates [] none all in
        (unfold compare in ground arith, all, unfold compare in ground (arith, e, same))
    | inr (e, f) ↦ absurd (unfold compare in ground (arith, f))
  ]

  compare_of_IsComparable :
      (candidates : List (Scenario F))
      → 2 ≤ length candidates
      → All IsComparable candidates
      → compare fl candidates ≡ ok (recommend fl (map item_of candidates, best_of candidates))
  unfolding compare
  compare_of_IsComparable candidates two all =
      ground (arith, compare_from-eq candidates [] none all)

  items-recommend :
      (items : List (ComparisonItem F)) (best : Option (Scenario F))
      → (recommend fl (items, best)).items ≡ items
  unfolding recommend
  items-recommend items none = refl
  items-recommend items (some b) = refl

  -- `Compare` returns a comparison exactly if there are at least two candidates and each has been
  -- simulated or compared and has a calculated result; its items then are those of the candidates,
  -- in their order.
  compare_iff :
      (candidates : List (Scenario F))
      → ((c : Comparison F) × (compare fl candidates ≡ ok c) × (c.items ≡ map item_of candidates))
        ↔ ((2 ≤ length candidates) × All IsComparable candidates)
  compare_iff candidates = (
    λ (c, h, _). let (two, all, _) = compare-eq candidates c h in (two, all),
    λ (two, all). (
      recommend fl (map item_of candidates, best_of candidates),
      compare_of_IsComparable candidates two all,
      items-recommend (map item_of candidates) (best_of candidates),
    ),
  )

  -- What a scenario is compared by: its projected margin, zero where it has none.
  abbrev projected : Scenario F → F
  projected s = lookup_or (of_int (pos 0)) "margin_cents" s.result.projected_metrics

  -- No risk has the severity `high`, in letters of any case.
  abbrev pub IsSafe : Scenario F → Type 0
  IsSafe s = All (λ r. equal_fold r.severity "high" ≡ false) s.risks

  abbrev pub HasHighRisk : Scenario F → Type 0
  HasHighRisk s = (r : Risk) × Memᴰ r s.risks × (equal_fold r.severity "high" ≡ true)

  -- The other scenario has no higher margin, and at an equal one no earlier identifier.
  pub record IsAtLeast (best other : Scenario F) : Type 0 where
    pub highest : lt (projected best) (projected other) ≡ false
    pub first : eq (projected other) (projected best) ≡ true → text_ltb other.id best.id ≡ false

  -- A safe candidate with the highest margin of the safe ones, the first of them by identifier.
  pub record IsRecommended (candidates : List (Scenario F)) (best : Scenario F) : Type 0 where
    pub member : Memᴰ best candidates
    pub safe : IsSafe best
    pub best_of_safe : All (λ s. IsSafe s → IsAtLeast best s) candidates

  at_least : (best s : Scenario F) → better_margin fl s best ≡ false → IsAtLeast best s
  unfolding better_margin margin
  at_least best s h = record {
    highest =
        ground
          (arith, h, eq_lt (projected s) (projected best) (projected s), lt_irrefl (projected s));
    first = λ tie. ground (arith, h, tie);
  }

  IsSafe-has_high_risk : (s : Scenario F) → (has_high_risk s.risks ≡ false) ↔ IsSafe s
  unfolding has_high_risk is_high
  IsSafe-has_high_risk s = any-false _ s.risks

  found_high : (s : Scenario F) → has_high_risk s.risks ≡ true → HasHighRisk s
  unfolding has_high_risk is_high
  found_high s h = any-true _ s.risks h

  is_recommended :
      (candidates : List (Scenario F)) (b : Scenario F)
      → best_of candidates ≡ some b
      → IsRecommended candidates b
  is_recommended candidates b h = elim (fold_member fl none candidates b h) [
    | inl e ↦ absurd (cc e)
    | inr (mem, safe) ↦ record {
      member = mem;
      safe = (IsSafe-has_high_risk b).0 safe;
      best_of_safe =
          All-imp (λ s unbeaten safe. at_least b s (unbeaten ((IsSafe-has_high_risk s).1 safe)))
            candidates (fold-Unbeaten fl none candidates b h);
    }
  ]

  -- A recommendation names a candidate without a risk of high severity whose projected margin no
  -- other such candidate exceeds, and whose identifier none with an equal margin precedes. There is
  -- no recommendation, and no identifier, only if every candidate has a risk of high severity.
  pub compare_recommends :
      (candidates : List (Scenario F)) (c : Comparison F)
      → compare fl candidates ≡ ok c
      → ((best : Scenario F) × (c.recommendation_available ≡ true)
          × (c.recommended_scenario_id ≡ best.id)
          × IsRecommended candidates best)
        ⊎ ((c.recommendation_available ≡ false)
            × (c.recommended_scenario_id ≡ "")
            × All HasHighRisk candidates)
  compare_recommends candidates c h =
      let (_, _, e) = compare-eq candidates c h in
      elim (Option-cases (best_of candidates)) [
        | inr (b, is_best) ↦ inl (
          b,
          unfold recommend in ground (arith, e, is_best),
          unfold recommend in ground (arith, e, is_best),
          is_recommended candidates b is_best,
        )
        | inl no_best ↦ inr (
          unfold recommend in ground (arith, e, no_best),
          unfold recommend in ground (arith, e, no_best),
          All-imp found_high candidates (fold_none fl none candidates no_best).1,
        )
      ]
