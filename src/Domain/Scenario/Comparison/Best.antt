-- ===== src/Domain/Scenario/Comparison/Best.antt =====
-- The best candidate of the comparison loop is unbeaten among the candidates without high risks.
use mathlib.Core.List.{Memᴰ, foldl}
use webmcp_backend.Common.{
  ◌≡◌, ◌⊎◌, sym, ◌∙◌, refl, not, ◌||◌, true, false, Option, none, some, List, [], ◌∷◌, arith, All,
  Bool-cases, inl, inr,
}
use webmcp_backend.Common.Text.Order.{text_ltb_trans, text_ltb_irrefl}
use webmcp_backend.Common.Float.{Float64}
use webmcp_backend.Domain.Scenario.{Scenario}
use webmcp_backend.Domain.Scenario.Comparison.{has_high_risk, margin, better_margin, next_best}

module _ (fl : Float64) where
  open fl use {F, eq, lt, lt_trans, lt_irrefl, eq_sym, eq_trans, eq_lt, lt_eq}

  -- `betterMargin` is a strict order, whatever the margins are.
  better_margin_trans :
      (a b c : Scenario F)
      → better_margin fl a b ≡ true
      → better_margin fl b c ≡ true
      → better_margin fl a c ≡ true
  unfolding better_margin
  better_margin_trans a b c h k =
      let x = margin fl a in
      let y = margin fl b in
      let z = margin fl c in
      ground (
        arith,
        text_ltb_trans a.id b.id c.id,
        eq_trans x y z,
        eq_sym x y,
        eq_sym y z,
        eq_sym x z,
        eq_lt z y x,
        lt_eq z y x,
        lt_trans z y x,
        eq_lt x z y,
        lt_irrefl x,
        lt_irrefl z,
        eq_lt x z x,
        lt_eq z y x,
        eq_sym y x,
        eq_lt z y x,
      )

  better_margin_irrefl : (a : Scenario F) → better_margin fl a a ≡ false
  unfolding better_margin
  better_margin_irrefl a = ground (arith, text_ltb_irrefl a.id, lt_irrefl (margin fl a))

  -- A candidate without high risks does not beat the best one.
  abbrev pub Unbeaten : Scenario F → Scenario F → Type 0
  Unbeaten best s = has_high_risk s.risks ≡ false → better_margin fl s best ≡ false

  next_best_kept :
      (a s : Scenario F)
      → (has_high_risk s.risks || not (better_margin fl s a)) ≡ true
      → next_best fl (some a) s ≡ some a
  unfolding next_best
  next_best_kept a s h = ground arith

  next_best_new :
      (a s : Scenario F)
      → (has_high_risk s.risks || not (better_margin fl s a)) ≡ false
      → next_best fl (some a) s ≡ some s
  unfolding next_best
  next_best_new a s h = ground arith

  -- Either the best one stays, and a candidate without high risks does not beat it, or the
  -- candidate has no high risk and takes its place.
  next_best_cases :
      (best : Option (Scenario F)) (s : Scenario F)
      → ((next_best fl best s ≡ best)
          × (has_high_risk s.risks ≡ false
              → (a : Scenario F) × (best ≡ some a) × (better_margin fl s a ≡ false)))
        ⊎ ((next_best fl best s ≡ some s) × (has_high_risk s.risks ≡ false))
  unfolding next_best
  next_best_cases none s = elim (Bool-cases (has_high_risk s.risks)) [
    | inl high ↦ inl (ground arith, λ safe. cc)
    | inr safe ↦ inr (ground arith, safe)
  ]
  next_best_cases (some a) s =
      elim (Bool-cases (has_high_risk s.risks || not (better_margin fl s a))) [
        | inl kept ↦ inl (ground arith, λ safe. (a, refl, ground arith))
        | inr new ↦ inr (ground arith, ground arith)
      ]

  -- Later candidates only improve on the best one.
  fold_improves :
      (a : Scenario F) (ss : List (Scenario F)) (b : Scenario F)
      → foldl (next_best fl) (some a) ss ≡ some b
      → (b ≡ a) ⊎ (better_margin fl b a ≡ true)
  fold_improves a [] b h = inl (ground arith)
  fold_improves a (s ∷ ss) b h =
      elim (Bool-cases (has_high_risk s.risks || not (better_margin fl s a))) [
        | inl kept ↦ fold_improves a ss b (rw (next_best_kept a s kept) at h)
        | inr new ↦ elim (fold_improves s ss b (rw (next_best_new a s new) at h)) [
          | inl e ↦ inr (rw e (ground arith))
          | inr better ↦ inr (better_margin_trans b s a better (ground arith))
        ]
      ]

  -- The best candidate is the one that the loop began with, or a candidate without high risks.
  pub fold_member :
      (best : Option (Scenario F)) (ss : List (Scenario F)) (b : Scenario F)
      → foldl (next_best fl) best ss ≡ some b
      → (best ≡ some b) ⊎ (Memᴰ b ss × (has_high_risk b.risks ≡ false))
  fold_member best [] b h = inl h
  fold_member best (s ∷ ss) b h = elim (fold_member (next_best fl best s) ss b h) [
    | inl e ↦ elim (next_best_cases best s) [
      | inl (same, _) ↦ inl (sym same ∙ e)
      | inr (new, safe) ↦ let p : s ≡ b = cc (new, e) in inr (Memᴰ.head (sym p), rw (← p) safe)
    ]
    | inr (mem, safe) ↦ inr (Memᴰ.tail mem, safe)
  ]

  -- What does not beat `a` does not beat what `a` became.
  unbeaten_later :
      (a s b : Scenario F)
      → better_margin fl s a ≡ false
      → (b ≡ a) ⊎ (better_margin fl b a ≡ true)
      → better_margin fl s b ≡ false
  unbeaten_later a s b h (inl e) = rw e h
  unbeaten_later a s b h (inr better) = ground (arith, better_margin_trans s b a)

  pub fold-Unbeaten :
      (best : Option (Scenario F)) (ss : List (Scenario F)) (b : Scenario F)
      → foldl (next_best fl) best ss ≡ some b
      → All (Unbeaten b) ss
  fold-Unbeaten best [] b h = tt
  fold-Unbeaten best (s ∷ ss) b h = (
    λ safe. elim (next_best_cases best s) [
      | inl (same, kept) ↦
          let (a, e, worse) = kept safe in
          unbeaten_later a s b worse (fold_improves a ss b (rw (same ∙ e) at h))
      | inr (new, _) ↦
          unbeaten_later s s b (better_margin_irrefl s) (fold_improves s ss b (rw new at h))
    ],
    fold-Unbeaten (next_best fl best s) ss b h,
  )

  high_of_none :
      (best : Option (Scenario F)) (s : Scenario F)
      → best ≡ none
      → (has_high_risk s.risks ≡ false
          → (a : Scenario F) × (best ≡ some a) × (better_margin fl s a ≡ false))
      → has_high_risk s.risks ≡ true
  high_of_none best s e kept = elim (Bool-cases (has_high_risk s.risks)) [
    | inl high ↦ high
    | inr safe ↦ let (a, e', _) = kept safe in absurd (cc (e, e'))
  ]

  -- No best candidate is left only where every candidate has a high risk.
  pub fold_none :
      (best : Option (Scenario F)) (ss : List (Scenario F))
      → foldl (next_best fl) best ss ≡ none
      → (best ≡ none) × All (λ s. has_high_risk s.risks ≡ true) ss
  fold_none best [] h = (h, tt)
  fold_none best (s ∷ ss) h =
      let (e, high) = fold_none (next_best fl best s) ss h in
      elim (next_best_cases best s) [
        | inl (same, kept) ↦ (sym same ∙ e, (high_of_none best s (sym same ∙ e) kept, high))
        | inr (new, safe) ↦ absurd (ground (arith, new))
      ]
