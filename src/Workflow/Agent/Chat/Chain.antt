-- ===== src/Workflow/Agent/Chat/Chain.antt =====
-- internal/application/agentworkflow/service.go: the chain of providers answers as long as its last
-- provider does.
use webmcp_backend.Common.{
  String, ℕ, suc, ◌≡◌, ◌≢◌, refl, false, Option, none, some, List, [], ◌∷◌, ◌++◌, arith, Bool-cases,
  inl, inr, ◌⊎◌, All, Error,
}
use webmcp_backend.Common.Io.Laws.{Returns}
use webmcp_backend.Common.Text.{is_blank}
use webmcp_backend.Workflow.Agent.Data.{
  Prompt, ProviderResponse, Provider, Generated, answered, cancelled, failed,
}
use webmcp_backend.Workflow.Agent.Chat.{Used, provider_label, first_answer}

Generated-cases :
    {A : Type 0} (g : Generated A)
    → ((r : ProviderResponse A) × (g ≡ answered r))
      ⊎ ((e : Error) × (g ≡ cancelled e))
      ⊎ (g ≡ failed)
Generated-cases (answered r) = inl (r, refl)
Generated-cases (cancelled e) = inr (inl (e, refl))
Generated-cases failed = inr (inr refl)

abbrev pub used : {A : Type 0} → ℕ → Option String → ProviderResponse A → Used A
used index label r = record { index = index; label = provider_label label; answer = r }

module _ {F A W : Type 0} where
  -- A provider whose calls are never cancelled.
  abbrev pub Steady : Option (Provider F A W) → Type 0
  Steady none = Unit
  Steady (some p) = (prompt : Prompt F) (w : W) (e : Error) → (p.generate prompt w).0 ≢ cancelled e

  -- A provider that answers every prompt, with a message that is not blank.
  abbrev pub Answers : Provider F A W → Type 0
  Answers p =
      (prompt : Prompt F) (w : W)
      → (r : ProviderResponse A) × (w' : W) × (p.generate prompt w ≡ (answered r, w'))
        × (is_blank r.text ≡ false)

  -- Where no provider's call is cancelled and the last provider answers every prompt, a turn has
  -- an answer that is not blank.
  pub first_answer-Returns :
      (prompt : Prompt F) (index : ℕ) (providers : List (Option (Provider F A W)))
      (last : Provider F A W) (w : W)
      → All Steady providers
      → Answers last
      → (u : Used A) × (w' : W) × Returns
          (first_answer prompt index (providers ++ (some last ∷ [])))
          w
          (some u)
          w'
        × (is_blank u.answer.text ≡ false)
  unfolding first_answer
  first_answer-Returns prompt index [] last w steady answers =
      let (r, w', e, there) = answers prompt w in
      (used index last.label r, w', ground (arith, e, there), there)
  first_answer-Returns prompt index (none ∷ providers) last w steady answers =
      first_answer-Returns prompt (suc index) providers last w steady.1 answers
  first_answer-Returns prompt index (some p ∷ providers) last w steady answers =
      elim (Generated-cases (p.generate prompt w).0) [
        | inl (r, e) ↦ elim (Bool-cases (is_blank r.text)) [
          | inl blank ↦
              let (u, w', h, there) =
                first_answer-Returns prompt (suc index) providers last (p.generate prompt w).1
                  steady.1 answers in
              (u, w', ground (arith, e, blank, h), there)
          | inr there ↦
              (used index p.label r, (p.generate prompt w).1, ground (arith, e, there), there)
        ]
        | inr (inl (e, h)) ↦ absurd (steady.0 prompt w e h)
        | inr (inr e) ↦
            let (u, w', h, there) =
              first_answer-Returns prompt (suc index) providers last (p.generate prompt w).1
                steady.1 answers in
            (u, w', ground (arith, e, h), there)
      ]
