-- ===== src/Http/Server/Windows/Stored.antt =====
-- internal/httpapi/server.go: what the server forgets of the issues makes no difference to later
-- calls.
use webmcp_backend.Common.{
  ℕ, ◌≤◌, ◌≡◌, refl, sym, ap, ◌∙◌, String, true, false, List, [], ◌∷◌, ◌++◌, length, leb, ◌==◌,
  string_eq, eq_iff, if◌then◌else◌, arith, inl, inr, Bool-cases,
}
use webmcp_backend.Common.Maps.{Map, lookup, insert, lookup-insert}
use webmcp_backend.Http.Server.{recent, issues_of, allow}
use webmcp_backend.Http.Server.Windows.{Call, InOrder, granted, ideal}

issues_of-insert :
    (ip address : String) (times : List ℕ) (issues : Map (List ℕ))
    → issues_of ip (insert address times issues)
      ≡ (if address == ip then times else issues_of ip issues)
issues_of-insert ip address times issues = ground (arith, lookup-insert address ip times issues)

module _ (limit window : ℕ) where
  recent-append :
      (now : ℕ) (xs ys : List ℕ)
      → recent window now (xs ++ ys) ≡ recent window now xs ++ recent window now ys
  unfolding recent
  recent-append now [] ys = refl
  recent-append now (x ∷ xs) ys = ground (arith, recent-append now xs ys)

  -- What an earlier call forgets, a later one would forget too.
  recent-recent :
      (early late : ℕ) (xs : List ℕ)
      → early ≤ late
      → recent window late (recent window early xs) ≡ recent window late xs
  unfolding recent
  recent-recent early late [] h = refl
  recent-recent early late (x ∷ xs) h = ground (arith, recent-recent early late xs h)

  -- The stored times and all the times are the same for every call from now on.
  abbrev SameRecent : ℕ → List ℕ → List ℕ → Type 0
  SameRecent from stored past =
      (now : ℕ) → from ≤ now → recent window now stored ≡ recent window now past

  SameRecent-later :
      (from now : ℕ) (stored past : List ℕ)
      → from ≤ now
      → SameRecent from stored past
      → SameRecent now stored past
  SameRecent-later from now stored past h same later after = same later (omega arith)

  SameRecent-kept :
      (now : ℕ) (stored past : List ℕ)
      → SameRecent now stored past
      → SameRecent now (recent window now stored) past
  SameRecent-kept now stored past same later after =
      recent-recent now later stored after ∙ same later after

  SameRecent-added :
      (now : ℕ) (stored past : List ℕ)
      → SameRecent now stored past
      → SameRecent now (recent window now stored ++ now ∷ []) (past ++ now ∷ [])
  SameRecent-added now stored past same later after =
      recent-append later (recent window now stored) (now ∷ [])
      ∙ ap (λ xs. xs ++ recent window later (now ∷ []))
          (SameRecent-kept now stored past same later after)
      ∙ sym (recent-append later past (now ∷ []))

  -- A call sets what is stored for its own address, and nothing else.
  issues_of-allow :
      (ip address : String) (now : ℕ) (issues : Map (List ℕ))
      → issues_of ip (allow limit window address now issues).1 ≡ (
          if address == ip
          then (if leb limit (length (recent window now (issues_of address issues)))
              then recent window now (issues_of address issues)
              else recent window now (issues_of address issues) ++ now ∷ [])
          else issues_of ip issues)
  unfolding allow
  issues_of-allow ip address now issues =
      elim (Bool-cases (leb limit (length (recent window now (issues_of address issues))))) [
        | inl full ↦ rw full (issues_of-insert ip address _ issues)
        | inr free ↦ rw free (issues_of-insert ip address _ issues)
      ]

  allow_iff :
      (address : String) (now : ℕ) (issues : Map (List ℕ))
      → (allow limit window address now issues).0 ≡ (
          if leb limit (length (recent window now (issues_of address issues))) then false else true)
  unfolding allow
  allow_iff address now issues = ground arith

  module _ (ip address : String) (now : ℕ) (issues : Map (List ℕ)) (past : List ℕ) where
    -- A call is let through as the ideal decides, and keeps the agreement.
    allow-eq :
        recent window now (issues_of address issues) ≡ recent window now past
        → (allow limit window address now issues).0
          ≡ (if leb limit (length (recent window now past)) then false else true)
    allow-eq same = rw (allow_iff address now issues, same) refl

    SameRecent-refused :
        SameRecent now (issues_of ip issues) past
        → (address == ip) ≡ true
        → leb limit (length (recent window now past)) ≡ true
        → SameRecent now (issues_of ip (allow limit window address now issues).1) past
    SameRecent-refused same own full =
        let e = (eq_iff address ip).0 own in
        let stored : issues_of ip (allow limit window address now issues).1
            ≡ recent window now (issues_of ip issues) =
          rw (issues_of-allow ip address now issues, own, e, same now (omega arith), full) refl in
        rw stored (SameRecent-kept now (issues_of ip issues) past same)

    SameRecent-passed :
        SameRecent now (issues_of ip issues) past
        → (address == ip) ≡ true
        → leb limit (length (recent window now past)) ≡ false
        → SameRecent now (issues_of ip (allow limit window address now issues).1) (past ++ now ∷ [])
    SameRecent-passed same own free =
        let e = (eq_iff address ip).0 own in
        let stored : issues_of ip (allow limit window address now issues).1
            ≡ recent window now (issues_of ip issues) ++ now ∷ [] =
          rw (issues_of-allow ip address now issues, own, e, same now (omega arith), free) refl in
        rw stored (SameRecent-added now (issues_of ip issues) past same)

    SameRecent-elsewhere :
        SameRecent now (issues_of ip issues) past
        → (address == ip) ≡ false
        → SameRecent now (issues_of ip (allow limit window address now issues).1) past
    SameRecent-elsewhere same other later after =
        rw (issues_of-allow ip address now issues, other) (same later after)

  -- The calls from here on are let through exactly as by the ideal.
  granted-ideal_from :
      (ip : String) (calls : List Call) (from : ℕ) (issues : Map (List ℕ)) (past : List ℕ)
      → InOrder from calls
      → SameRecent from (issues_of ip issues) past
      → granted (allow limit window) ip calls issues ≡ ideal limit window ip calls past
  unfolding granted ideal
  granted-ideal_from ip [] from issues past order same = refl
  granted-ideal_from ip (call ∷ calls) from issues past order same =
      let later = SameRecent-later from call.1 (issues_of ip issues) past order.0 same in
      elim (Bool-cases (call.0 == ip)) [
        | inl own ↦
            let same_address = (eq_iff call.0 ip).0 own in
            let recently : recent window call.1 (issues_of call.0 issues)
                ≡ recent window call.1 past =
              rw same_address (later call.1 (omega arith)) in
            elim (Bool-cases (leb limit (length (recent window call.1 past)))) [
              | inl full ↦
                  rw (allow-eq ip call.0 call.1 issues past recently, own, full)
                    (granted-ideal_from ip calls call.1 _ past order.1
                      (SameRecent-refused ip call.0 call.1 issues past later own full))
              | inr free ↦
                  rw (allow-eq ip call.0 call.1 issues past recently, own, free)
                    (ap (λ rest. call.1 ∷ rest)
                      (granted-ideal_from ip calls call.1 _ (past ++ call.1 ∷ []) order.1
                        (SameRecent-passed ip call.0 call.1 issues past later own free)))
            ]
        | inr other ↦ elim (Bool-cases (allow limit window call.0 call.1 issues).0) [
          | inl passed ↦
              rw (passed, other)
                (granted-ideal_from ip calls call.1 _ past order.1
                  (SameRecent-elsewhere ip call.0 call.1 issues past later other))
          | inr refused ↦
              rw (refused, other)
                (granted-ideal_from ip calls call.1 _ past order.1
                  (SameRecent-elsewhere ip call.0 call.1 issues past later other))
        ]
      ]

  -- A run that starts with an empty map lets an address through exactly as the ideal does, which
  -- remembers every time at which it let the address through: what the server forgets changes
  -- nothing. The times of the calls do not go back.
  pub granted-ideal :
      (ip : String) (calls : List Call)
      → InOrder 0 calls
      → granted (allow limit window) ip calls [] ≡ ideal limit window ip calls []
  unfolding lookup
  granted-ideal ip calls order = granted-ideal_from ip calls 0 [] [] order (λ now after. refl)
