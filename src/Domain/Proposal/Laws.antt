-- ===== src/Domain/Proposal/Laws.antt =====
-- The state machine of a proposal version against its diagram.

use webmcp_backend.Common.{
  ◌≡◌, ◌≢◌, ◌⊎◌, ◌↔◌, refl, sym, ◌∙◌, ap, inl, inr, List, [], ◌∷◌, arith, Result, ok, ◌>>=◌,
  >>=-eq-ok,
}
use webmcp_backend.Domain.Proposal.{
  Status, draft, in_review, approved, rejected, committed, superseded, Version, transition,
}

infix 40 ◌⟶◌
pub data ◌⟶◌ : Status → Status → Type 0 where
  submit : draft ⟶ in_review
  approve : in_review ⟶ approved
  reject : in_review ⟶ rejected
  commit : approved ⟶ committed
  replace_draft : draft ⟶ superseded
  replace_in_review : in_review ⟶ superseded
  replace_approved : approved ⟶ superseded

ruleset edges =
    (submit, approve, reject, commit, replace_draft, replace_in_review, replace_approved)

transition_of_edge :
    {s to : Status} (v : Version)
    → s ⟶ to
    → v.status ≡ s
    → transition v to ≡ ok (record v { status = to })
unfolding transition
transition_of_edge v submit e = ground arith
transition_of_edge v _ e = ground arith

edge_of_transition :
    (v w : Version) (to : Status)
    → transition v to ≡ ok w
    → (v.status ⟶ to) × (w ≡ record v { status = to })
unfolding transition
edge_of_transition v w to h = (grind (arith, edges), ground arith)

-- A transition succeeds exactly along an edge of the diagram, and then changes the status only.
version_transition_iff :
    (v w : Version) (to : Status)
    → (transition v to ≡ ok w) ↔ ((v.status ⟶ to) × (w ≡ record v { status = to }))
version_transition_iff v w to =
    (edge_of_transition v w to, λ (edge, e). transition_of_edge v edge refl ∙ ap ok (sym e))

-- A chain of transitions, which stops at the first that fails.
unfoldable pub advance : Version → List Status → Result Version
advance v [] = ok v
advance v (to ∷ path) = transition v to >>= λ w. advance w path

abbrev IsTerminal : Status → Type 0
IsTerminal s = (s ≡ rejected) ⊎ (s ≡ committed) ⊎ (s ≡ superseded)

advance_of_IsTerminal :
    (v w : Version) (path : List Status)
    → IsTerminal v.status
    → advance v path ≡ ok w
    → (path ≡ []) × (w ≡ v)
unfolding advance transition
advance_of_IsTerminal v w [] t h = (refl, ground arith)
advance_of_IsTerminal v w (to ∷ path) t h = absurd (ground arith)

-- One step of a chain.
advance_step :
    (v w : Version) (to : Status) (path : List Status)
    → advance v (to ∷ path) ≡ ok w
    → (v.status ⟶ to) × (advance (record v { status = to }) path ≡ ok w)
unfolding advance
advance_step v w to path h =
    let (u, e, f) = >>=-eq-ok (transition v to) (λ w. advance w path) h in
    let (edge, same) = edge_of_transition v u to e in
    (edge, ap (λ u. advance u path) (sym same) ∙ f)

next_of_draft : {s to : Status} → s ⟶ to → s ≡ draft → (to ≡ in_review) ⊎ (to ≡ superseded)
next_of_draft submit e = inl refl
next_of_draft _ e = ground arith

next_of_in_review :
    {s to : Status} → s ⟶ to → s ≡ in_review → (to ≡ approved) ⊎ IsTerminal to × (to ≢ committed)
next_of_in_review approve e = inl refl
next_of_in_review _ e = ground arith

next_of_approved : {s to : Status} → s ⟶ to → s ≡ approved → (to ≡ committed) ⊎ (to ≡ superseded)
next_of_approved commit e = inl refl
next_of_approved _ e = ground arith

-- A chain that has reached a status that is final and not `committed` does not commit.
not_committed :
    (v w : Version) (path : List Status)
    → IsTerminal v.status
    → v.status ≢ committed
    → advance v path ≡ ok w
    → w.status ≢ committed
not_committed v w path t n h c =
    n (ap (λ (u : Version). u.status) (sym (advance_of_IsTerminal v w path t h).1) ∙ c)

from_approved :
    (v w : Version) (path : List Status)
    → v.status ≡ approved
    → advance v path ≡ ok w
    → w.status ≡ committed
    → path ≡ committed ∷ []
from_approved v w [] a h c = absurd (unfold advance in ground arith)
from_approved v w (to ∷ path) a h c =
    let (edge, rest) = advance_step v w to path h in
    elim (next_of_approved edge a) [
      | inl e ↦ cc (e, (advance_of_IsTerminal _ w path (inr (inl e)) rest).0)
      | inr e ↦ absurd (not_committed _ w path (inr (inr e)) (λ k. cc (e, k)) rest c)
    ]

from_in_review :
    (v w : Version) (path : List Status)
    → v.status ≡ in_review
    → advance v path ≡ ok w
    → w.status ≡ committed
    → path ≡ approved ∷ committed ∷ []
from_in_review v w [] a h c = absurd (unfold advance in ground arith)
from_in_review v w (to ∷ path) a h c =
    let (edge, rest) = advance_step v w to path h in
    elim (next_of_in_review edge a) [
      | inl e ↦ cc (e, from_approved _ w path e rest c)
      | inr (t, n) ↦ absurd (not_committed _ w path t n rest c)
    ]

-- A draft is committed in one way only: submitted for review, approved, and then committed.
pub committed_path :
    (v w : Version) (path : List Status)
    → v.status ≡ draft
    → advance v path ≡ ok w
    → w.status ≡ committed
    → path ≡ in_review ∷ approved ∷ committed ∷ []
committed_path v w [] a h c = absurd (unfold advance in ground arith)
committed_path v w (to ∷ path) a h c =
    let (edge, rest) = advance_step v w to path h in
    elim (next_of_draft edge a) [
      | inl e ↦ cc (e, from_in_review _ w path e rest c)
      | inr e ↦ absurd (not_committed _ w path (inr (inr e)) (λ k. cc (e, k)) rest c)
    ]
