-- ===== src/Workflow/Scenarios/Compared.antt =====
-- What the scenario service has checked where it returns a comparison.
use webmcp_backend.Common.{
  ℕ, ◌≡◌, ◌≢◌, ◌∙◌, ◌≤◌, sym, false, not, ◌||◌, ◌==◌, string_eq, nat_eq, Option, some, List, [],
  ◌∷◌, any, All, length, ltb, arith, eq_iff, Passes, seq-Passes, reject-Passes, each-Passes, ok,
}
use webmcp_backend.Common.{reject as reject_if}
use mathlib.Core.Path.{subst}
use webmcp_backend.Common.Float.{Float64}
use webmcp_backend.Common.Io.Laws.{Returns, bind-Returns, lift-Returns, reject-Returns}
use webmcp_backend.Domain.Core.{Ident, IsIdent, validate_id-Passes}
use webmcp_backend.Domain.Scenario.{Scenario}
use webmcp_backend.Domain.Scenario.Comparison.{Comparison, compare}
use webmcp_backend.Workflow.Ports.{ScenarioRepository}
use webmcp_backend.Workflow.Ports.Laws.{required-Returns}
use webmcp_backend.Workflow.Scenarios.{
  CompareInput, scenario_context, check_scenario_ids, check_context, compare_scenarios,
}

abbrev Distinct : List Ident → Type 0
Distinct [] = Unit
Distinct (id ∷ ids) = All (λ j. id ≢ j) ids × Distinct ids

abbrev Unseen : List Ident → List Ident → Type 0
Unseen seen = All (λ j. any (λ s. s == j) seen ≡ false)

split_seen :
    (id : Ident) (seen ids : List Ident)
    → Unseen (id ∷ seen) ids
    → All (λ j. id ≢ j) ids × Unseen seen ids
split_seen id seen [] h = (tt, tt)
split_seen id seen (j ∷ ids) (h, hs) =
    let (a, b) = split_seen id seen ids hs in
    let unequal : id ≢ j = λ e. ground (arith, h, (eq_iff id j).1 e) in
    ((unequal, a), (ground (arith, h), b))

check_scenario_ids-Distinct :
    (seen ids : List Ident)
    → Passes (check_scenario_ids seen ids)
    → All IsIdent ids × Unseen seen ids × Distinct ids
unfolding check_scenario_ids
check_scenario_ids-Distinct seen [] h = (tt, tt, tt)
check_scenario_ids-Distinct seen (id ∷ ids) h =
    let (valid, rest) = (seq-Passes _ _).0 h in
    let (fresh, rest') = (seq-Passes _ _).0 rest in
    let (valids, unseen, distinct) = check_scenario_ids-Distinct (id ∷ seen) ids rest' in
    let (apart, old) = split_seen id seen ids unseen in
    (
      ((validate_id-Passes id "scenario_id").0 valid, valids),
      ((reject-Passes _ _).0 fresh, old),
      (apart, distinct),
    )

module _ {F : Type 0} where
  -- Scenarios of one business, all based on the same version of it.
  abbrev SameContext : Ident → List (Scenario F) → Type 0
  SameContext business_id [] = Unit
  SameContext business_id (c ∷ cs) =
      All
        (λ (s : Scenario F).
          (s.business_id ≡ business_id) × (s.base_business_version ≡ c.base_business_version))
        (c ∷ cs)

  check_context-SameContext :
      (business_id : Ident) (cs : List (Scenario F))
      → Passes (check_context business_id cs)
      → SameContext business_id cs
  unfolding check_context
  check_context-SameContext business_id [] h = tt
  check_context-SameContext business_id (c ∷ cs) h =
      (each-Passes
          (λ (s : Scenario F).
            (s.business_id ≡ business_id) × (s.base_business_version ≡ c.base_business_version))
          (λ s.
            reject_if
              (not (s.business_id == business_id)
                || not (s.base_business_version == c.base_business_version))
              scenario_context)
          (λ s. (
            λ g. (ground (arith, g, eq_iff s.business_id business_id), ground (arith, g)),
            λ (a, b). ground (arith, (eq_iff s.business_id business_id).1 a, b),
          ))
          (c ∷ cs)).0
        h

module _ (fl : Float64) {W : Type 0} (scenarios : Option (ScenarioRepository fl.F W)) where
  open fl use {F}

  pub record Compared (i : CompareInput) (c : Comparison F) (w w' : W) : Type 0 where
    pub port : ScenarioRepository F W
    pub wired : scenarios ≡ some port
    pub candidates : List (Scenario F)
    pub read :
        Returns (port.list_scenarios i.organization_id i.business_id i.scenario_ids) w candidates w'
    pub enough : 2 ≤ length i.scenario_ids
    pub bounded : length i.scenario_ids ≤ 8
    pub idents : All IsIdent i.scenario_ids
    pub distinct : Distinct i.scenario_ids
    pub all_found : length candidates ≡ length i.scenario_ids
    pub context : SameContext i.business_id candidates
    pub comparison : compare fl candidates ≡ ok c

  -- A comparison that the service returns is that of the scenarios read for two to eight distinct
  -- identifiers, one for each, all of the named business and of one version of it; nothing but
  -- the read has touched the world.
  compare_scenarios-Compared :
      (i : CompareInput) (c : Comparison F) (w w' : W)
      → Returns (compare_scenarios fl scenarios i) w c w'
      → Compared i c w w'
  unfolding compare_scenarios
  compare_scenarios-Compared i c w w' h =
      let (_, w1, h1, k1) = bind-Returns _ _ w w' c h in
      let (_, w2, h2, k2) = bind-Returns _ _ w1 w' c k1 in
      let (_, w3, h3, k3) = bind-Returns _ _ w2 w' c k2 in
      let (port, w4, h4, k4) = bind-Returns _ _ w3 w' c k3 in
      let (cs, w5, h5, k5) = bind-Returns _ _ w4 w' c k4 in
      let (_, w6, h6, k6) = bind-Returns _ _ w5 w' c k5 in
      let (_, w7, h7, k7) = bind-Returns _ _ w6 w' c k6 in
      let (_, e1) = lift-Returns _ w w1 _ h1 in
      let (g2, e2) = reject-Returns _ _ w1 w2 _ h2 in
      let (checked, e3) = lift-Returns _ w2 w3 _ h3 in
      let (wired, e4) = required-Returns _ scenarios w3 w4 port h4 in
      let (g6, e6) = reject-Returns _ _ w5 w6 _ h6 in
      let (context, e7) = lift-Returns _ w6 w7 _ h7 in
      let (done, e8) = lift-Returns _ w7 w' c k7 in
      let (valids, _, distinct) = check_scenario_ids-Distinct [] i.scenario_ids checked in
      let (two, eight) = bounds (length i.scenario_ids) g2 in
      record {
        port = port;
        wired = wired;
        candidates = cs;
        read =
            subst
              (λ v.
                Returns (port.list_scenarios i.organization_id i.business_id i.scenario_ids) w cs v)
              (sym (e8 ∙ e7 ∙ e6))
              (subst
                (λ v.
                  Returns (port.list_scenarios i.organization_id i.business_id i.scenario_ids) v cs
                    w5)
                (e4 ∙ e3 ∙ e2 ∙ e1) h5);
        enough = two;
        bounded = eight;
        idents = valids;
        distinct = distinct;
        all_found = equal (length cs) (length i.scenario_ids) g6;
        context = check_context-SameContext i.business_id cs context;
        comparison = done;
      }
    where
      bounds : (n : ℕ) → (ltb n 2 || ltb 8 n) ≡ false → (2 ≤ n) × (n ≤ 8)
      bounds n g = (ground (arith, g), ground (arith, g))

      equal : (m n : ℕ) → not (m == n) ≡ false → m ≡ n
      equal m n g = ground (arith, g)
