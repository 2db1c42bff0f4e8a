-- ===== src/Workflow/Proposals/Created.antt =====
-- What the proposal service has checked and stored where it returns a new proposal or a revision.
use webmcp_backend.Common.{
  ℕ, ◌≡◌, ◌⊎◌, ◌≤◌, refl, ◌∙◌, sym, true, false, not, ◌&&◌, ◌||◌, ◌==◌, string_eq, Option, some,
  arith, eq_iff, ltb, ok-injective, List, [], ◌∷◌, map, ap,
}
use mathlib.Core.Path.{subst}
use Prim.Native.String.{len, ◌++◌ as append}
use webmcp_backend.Common.Text.{trim}
use webmcp_backend.Common.Float.{Float64}
use webmcp_backend.Common.Int.{pos, to_bits}
use webmcp_backend.Common.Io.Laws.{Returns, bind-Returns, lift-Returns, reject-Returns}
use webmcp_backend.Domain.Core.{Ident}
use webmcp_backend.Domain.Proposal
use webmcp_backend.Domain.Proposal.{
  Proposal, Change, status_beq_iff as proposal_status_beq_iff, status_eq as proposal_status_eq,
}
use webmcp_backend.Domain.Proposal.Validity.{
  IsProposal, IsVersion, validate_proposal-Passes, validate_version-Passes,
}
use webmcp_backend.Domain.Scenario
use webmcp_backend.Domain.Scenario.{
  Scenario, Action, status_eq as scenario_status_eq, status_beq_iff as scenario_status_beq_iff,
}
use webmcp_backend.Workflow.Ports.{ScenarioRepository, ProposalRepository, Random}
use webmcp_backend.Workflow.Ports.Laws.{required-Returns}
use webmcp_backend.Workflow.Proposals.{
  CreateInput, ReviseInput, changes_for, draft_of, propose, create_proposal, revised,
  revise_proposal,
}

module _ (fl : Float64) {W : Type 0} (random : Random W)
    (scenarios : Option (ScenarioRepository fl.F W))
    (proposals : Option (ProposalRepository W)) where
  open fl use {F, format4}

  -- The scenario is the named one's, of the same business and goal, and it has been simulated.
  pub record Grounds (i : CreateInput) (candidate : Scenario F) : Type 0 where
    pub same_business : candidate.business_id ≡ i.business_id
    pub same_goal : candidate.goal_id ≡ i.goal_id
    pub status :
        (candidate.status ≡ Scenario.Status.simulated)
        ⊎ (candidate.status ≡ Scenario.Status.compared)
    pub calculated : candidate.result.calculated ≡ true

  guard-Grounds :
      (i : CreateInput) (c : Scenario F)
      → (not (c.business_id == i.business_id)
          || not (c.goal_id == i.goal_id)
          || (not (c.status == Scenario.Status.simulated)
              && not (c.status == Scenario.Status.compared))
          || not c.result.calculated)
        ≡ false
      → Grounds i c
  guard-Grounds i c g = record {
    same_business = ground (arith, g, eq_iff c.business_id i.business_id);
    same_goal = ground (arith, g, eq_iff c.goal_id i.goal_id);
    status = ground (
      arith,
      g,
      scenario_status_beq_iff c.status Scenario.Status.simulated,
      scenario_status_beq_iff c.status Scenario.Status.compared,
    );
    calculated = ground (arith, g);
  }

  -- A first draft for a scenario: version one, number one, in the status `draft`, of the scenario and
  -- the business version that it was based on, with the trimmed summary and a change for each action.
  pub record IsFirstDraft (i : CreateInput) (candidate : Scenario F) (p : Proposal) : Type 0 where
    pub of_business : p.business_id ≡ i.business_id
    pub of_goal : p.goal_id ≡ i.goal_id
    pub first_version : p.version ≡ 1
    pub own_version : p.current.proposal_id ≡ p.id
    pub first_number : p.current.number ≡ pos 1
    pub is_draft : p.current.status ≡ Proposal.Status.draft
    pub of_scenario : p.current.scenario_id ≡ candidate.id
    pub of_base : p.current.base_business_version ≡ candidate.base_business_version
    pub summary : p.current.summary ≡ trim i.summary
    pub targets :
        map (λ (c : Change). c.entity_id) p.current.changes
        ≡ map (λ (a : Action F). a.target_id) candidate.proposed_actions
    pub values :
        map (λ (c : Change). c.to) p.current.changes
        ≡ map
            (λ (a : Action F). append (format4 a.value) (append " " a.unit))
            candidate.proposed_actions

  changes_for-targets :
      (actions : List (Action F))
      → map (λ (c : Change). c.entity_id) (changes_for fl actions)
        ≡ map (λ (a : Action F). a.target_id) actions
  unfolding changes_for
  changes_for-targets [] = refl
  changes_for-targets (a ∷ actions) = ap (λ ids. a.target_id ∷ ids) (changes_for-targets actions)

  changes_for-values :
      (actions : List (Action F))
      → map (λ (c : Change). c.to) (changes_for fl actions)
        ≡ map (λ (a : Action F). append (format4 a.value) (append " " a.unit)) actions
  unfolding changes_for
  changes_for-values [] = refl
  changes_for-values (a ∷ actions) =
      ap (λ values. append (format4 a.value) (append " " a.unit) ∷ values)
        (changes_for-values actions)

  draft_of-IsFirstDraft :
      (i : CreateInput) (c : Scenario F) (proposal_id version_id : Ident)
      → IsFirstDraft i c (draft_of fl i c proposal_id version_id)
  unfolding draft_of
  draft_of-IsFirstDraft i c proposal_id version_id = record {
    of_business = refl;
    of_goal = refl;
    first_version = refl;
    own_version = refl;
    first_number = refl;
    is_draft = refl;
    of_scenario = refl;
    of_base = refl;
    summary = refl;
    targets = changes_for-targets c.proposed_actions;
    values = changes_for-values c.proposed_actions;
  }

  pub record Proposed (i : CreateInput) (target : ProposalRepository W) (candidate : Scenario F)
      (p : Proposal) (w w' : W) : Type 0 where
    pub before : W
    pub grounds : Grounds i candidate
    pub draft : IsFirstDraft i candidate p
    pub valid : IsProposal p
    pub written :
        Returns (target.create_proposal i.organization_id i.actor_id p i.request_id) before tt w'

  propose-Proposed :
      (i : CreateInput) (target : ProposalRepository W) (c : Scenario F) (p : Proposal) (w w' : W)
      → Returns (propose fl random target i c) w p w'
      → Proposed i target c p w w'
  unfolding propose
  propose-Proposed i target c p w w' h =
      let (_, w1, h1, k1) = bind-Returns _ _ w w' p h in
      let (a, w2, h2, k2) = bind-Returns _ _ w1 w' p k1 in
      let (b, w3, h3, k3) = bind-Returns _ _ w2 w' p k2 in
      let (_, w4, h4, k4) = bind-Returns _ _ w3 w' p k3 in
      let (_, w5, h5, k5) = bind-Returns _ _ w4 w' p k4 in
      let (guard, _) = reject-Returns _ _ w w1 _ h1 in
      let (valid, _) = lift-Returns _ w3 w4 _ h4 in
      let (done, e5) = lift-Returns _ w5 w' p k5 in
      let found : Proposed i target c (draft_of fl i c a b) w w5 = record {
        before = w4;
        grounds = guard-Grounds i c guard;
        draft = draft_of-IsFirstDraft i c a b;
        valid = (validate_proposal-Passes (draft_of fl i c a b)).0 valid;
        written = h5;
      } in
      subst (λ x. Proposed i target c x w w') (ok-injective done)
        (subst (λ v. Proposed i target c (draft_of fl i c a b) w v) (sym e5) found)

  pub record Created (i : CreateInput) (p : Proposal) (w w' : W) : Type 0 where
    pub source : ScenarioRepository F W
    pub target : ProposalRepository W
    pub wired : (scenarios ≡ some source) × (proposals ≡ some target)
    pub candidate : Scenario F
    pub between : W
    pub read :
        Returns
          (source.get_scenario i.organization_id i.business_id i.scenario_id)
          w
          candidate
          between
    pub proposed : Proposed i target candidate p between w'

  -- A proposal that the service creates is a valid first draft for the scenario that it has read,
  -- which is of the same business and goal and has been simulated: version and number one, the status
  -- draft, the scenario and its business version, the trimmed summary, and one change for each action
  -- of the scenario with its target and value. It is what the repository has stored.
  pub create_proposal-Created :
      (i : CreateInput) (p : Proposal) (w w' : W)
      → Returns (create_proposal fl random scenarios proposals i) w p w'
      → Created i p w w'
  unfolding create_proposal
  create_proposal-Created i p w w' h =
      let (_, w1, h1, k1) = bind-Returns _ _ w w' p h in
      let (_, w2, h2, k2) = bind-Returns _ _ w1 w' p k1 in
      let (_, w3, h3, k3) = bind-Returns _ _ w2 w' p k2 in
      let (source, w4, h4, k4) = bind-Returns _ _ w3 w' p k3 in
      let (target, w5, h5, k5) = bind-Returns _ _ w4 w' p k4 in
      let (c, w6, h6, k6) = bind-Returns _ _ w5 w' p k5 in
      let (_, e1) = lift-Returns _ w w1 _ h1 in
      let (_, e2) = reject-Returns _ _ w1 w2 _ h2 in
      let (_, e3) = reject-Returns _ _ w2 w3 _ h3 in
      let (wired, e4) = required-Returns _ scenarios w3 w4 source h4 in
      let (wired', e5) = required-Returns _ proposals w4 w5 target h5 in
      record {
        source = source;
        target = target;
        wired = (wired, wired');
        candidate = c;
        between = w6;
        read =
            subst
              (λ v.
                Returns (source.get_scenario i.organization_id i.business_id i.scenario_id) v c w6)
              (e5 ∙ e4 ∙ e3 ∙ e2 ∙ e1) h6;
        proposed = propose-Proposed i target c p w6 w' k6;
      }

module _ {W : Type 0} (random : Random W) (proposals : Option (ProposalRepository W)) where
  pub record Revised (i : ReviseInput) (p : Proposal) (w w' : W) : Type 0 where
    pub port : ProposalRepository W
    pub wired : proposals ≡ some port
    pub stored : Proposal
    pub between : W
    pub before : W
    pub read :
        Returns (port.get_proposal i.organization_id i.business_id i.proposal_id) w stored between
    pub drafted : stored.current.status ≡ Proposal.Status.draft
    pub version_id : Ident
    pub returned : p ≡ revised stored (trim i.feedback) version_id
    pub valid : IsVersion p.current
    pub short : len p.current.summary ≤ 5000
    pub written :
        Returns
          (port.save_revision i.organization_id i.actor_id p
            (to_bits stored.current.number)
            i.request_id)
          before
          tt
          w'

  -- A revision that the service returns follows a stored draft, carries the trimmed feedback, has
  -- a valid version with a summary of at most 5000 bytes, and is what the repository has stored
  -- against the draft's number.
  revise_proposal-Revised :
      (i : ReviseInput) (p : Proposal) (w w' : W)
      → Returns (revise_proposal random proposals i) w p w'
      → Revised i p w w'
  unfolding revise_proposal
  revise_proposal-Revised i p w w' h =
      let (_, w1, h1, k1) = bind-Returns _ _ w w' p h in
      let (_, w2, h2, k2) = bind-Returns _ _ w1 w' p k1 in
      let (port, w3, h3, k3) = bind-Returns _ _ w2 w' p k2 in
      let (q, w4, h4, k4) = bind-Returns _ _ w3 w' p k3 in
      let (_, w5, h5, k5) = bind-Returns _ _ w4 w' p k4 in
      let (id, w6, h6, k6) = bind-Returns _ _ w5 w' p k5 in
      let (_, w7, h7, k7) = bind-Returns _ _ w6 w' p k6 in
      let (_, w8, h8, k8) = bind-Returns _ _ w7 w' p k7 in
      let (_, w9, h9, k9) = bind-Returns _ _ w8 w' p k8 in
      let (_, e1) = lift-Returns _ w w1 _ h1 in
      let (_, e2) = reject-Returns _ _ w1 w2 _ h2 in
      let (wired, e3) = required-Returns _ proposals w2 w3 port h3 in
      let (g5, _) = reject-Returns _ _ w4 w5 _ h5 in
      let (g7, _) = reject-Returns _ _ w6 w7 _ h7 in
      let (valid, _) = lift-Returns _ w7 w8 _ h8 in
      let (done, e9) = lift-Returns _ w9 w' p k9 in
      let found : Revised i (revised q (trim i.feedback) id) w w9 = record {
        port = port;
        wired = wired;
        stored = q;
        between = w4;
        before = w8;
        read =
            subst
              (λ v.
                Returns (port.get_proposal i.organization_id i.business_id i.proposal_id) v q w4)
              (e3 ∙ e2 ∙ e1) h4;
        drafted = is_draft q g5;
        version_id = id;
        returned = refl;
        valid = (validate_version-Passes (revised q (trim i.feedback) id).current).0 valid;
        short = is_short (len (revised q (trim i.feedback) id).current.summary) g7;
        written = h9;
      } in
      subst (λ x. Revised i x w w') (ok-injective done)
        (subst (λ v. Revised i (revised q (trim i.feedback) id) w v) (sym e9) found)
    where
      is_draft :
          (q : Proposal)
          → not (q.current.status == Proposal.Status.draft) ≡ false
          → q.current.status ≡ Proposal.Status.draft
      is_draft q g =
          ground (arith, g, proposal_status_beq_iff q.current.status Proposal.Status.draft)

      is_short : (n : ℕ) → ltb 5000 n ≡ false → n ≤ 5000
      is_short n g = ground (arith, g)
