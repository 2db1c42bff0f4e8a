-- ===== src/Workflow/Planning/Added.antt =====
-- What the planning service has checked and stored where it returns a constraint.
use webmcp_backend.Common.{◌≡◌, ◌≤◌, refl, sym, false, ◌||◌, ltb, Option, some, arith, ok-injective}
use mathlib.Core.Path.{subst}
use Prim.Native.String.{len}
use webmcp_backend.Common.Text.{trim, is_empty, is_blank, NotBlank}
use webmcp_backend.Common.Io.Laws.{Returns, bind-Returns, lift-Returns, reject-Returns}
use webmcp_backend.Domain.Core.{human}
use webmcp_backend.Domain.Planning.{Constraint}
use webmcp_backend.Domain.Planning.Validity.{IsConstraint, validate_constraint-Passes}
use webmcp_backend.Workflow.Ports.{ConstraintWriter, Random}
use webmcp_backend.Workflow.Ports.Laws.{required-Returns}
use webmcp_backend.Workflow.Planning.{ConstraintInput, constraint_for, add_constraint}

-- The texts of an input that are short enough to keep.
pub record WithinLimits (i : ConstraintInput) : Type 0 where
  pub key : len (trim i.key) ≤ 120
  pub value : len (trim i.value) ≤ 500
  pub requested : NotBlank i.request_id

within_limits :
    (i : ConstraintInput)
    → (is_empty (trim i.key)
        || ltb 120 (len (trim i.key))
        || is_empty (trim i.value)
        || ltb 500 (len (trim i.value))
        || is_blank i.request_id)
      ≡ false
    → WithinLimits i
within_limits i g = record {
  key = ground (arith, g);
  value = ground (arith, g);
  requested = ground (arith, g);
}

module _ {W : Type 0} (random : Random W) (writer : Option (ConstraintWriter W)) where
  pub record Added (i : ConstraintInput) (c : Constraint) (w' : W) : Type 0 where
    pub port : ConstraintWriter W
    pub wired : writer ≡ some port
    pub limits : WithinLimits i
    pub valid : IsConstraint c
    pub by_human : c.created_by ≡ human
    pub same_goal : c.goal_id ≡ i.goal_id
    pub same_value : c.value ≡ trim i.value
    pub same_force : c.hard ≡ i.hard
    pub before : W
    pub written :
        Returns (port.add_constraint i.organization_id i.actor_id c i.request_id) before tt w'

  -- A constraint that the service returns is valid, within its limits and a human's, carries the
  -- input's goal, trimmed value and force, and is what the writer has stored.
  add_constraint-Added :
      (i : ConstraintInput) (c : Constraint) (w w' : W)
      → Returns (add_constraint random writer i) w c w'
      → Added i c w'
  unfolding add_constraint constraint_for
  add_constraint-Added i c w w' h =
      let (_, w1, h1, k1) = bind-Returns _ _ w w' c h in
      let (_, w2, h2, k2) = bind-Returns _ _ w1 w' c k1 in
      let (port, w3, h3, k3) = bind-Returns _ _ w2 w' c k2 in
      let (id, w4, h4, k4) = bind-Returns _ _ w3 w' c k3 in
      let (_, w5, h5, k5) = bind-Returns _ _ w4 w' c k4 in
      let (_, w6, h6, k6) = bind-Returns _ _ w5 w' c k5 in
      let (g2, _) = reject-Returns _ _ w1 w2 _ h2 in
      let (wired, _) = required-Returns _ writer w2 w3 port h3 in
      let (valid, _) = lift-Returns _ w4 w5 _ h5 in
      let (done, e6) = lift-Returns _ w6 w' c k6 in
      let found : Added i (constraint_for i id) w6 = record {
        port = port;
        wired = wired;
        limits = within_limits i g2;
        valid = (validate_constraint-Passes (constraint_for i id)).0 valid;
        by_human = refl;
        same_goal = refl;
        same_value = refl;
        same_force = refl;
        before = w5;
        written = h6;
      } in
      subst (λ x. Added i x w') (ok-injective done)
        (subst (λ v. Added i (constraint_for i id) v) (sym e6) found)
