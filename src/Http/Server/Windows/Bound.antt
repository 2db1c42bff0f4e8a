-- ===== src/Http/Server/Windows/Bound.antt =====
-- internal/httpapi/server.go: how many calls of one address the windows let through.
use webmcp_backend.Common.{
  ℕ, ◌+◌, ◌≤◌, ◌≡◌, String, true, false, List, [], ◌∷◌, ◌++◌, length, leb, ◌==◌, string_eq, arith,
  inl, inr, Bool-cases,
}
use mathlib.Core.Path.{subst}
use mathlib.Core.List.{append-nil, append_assoc}
use webmcp_backend.Http.Server.{minute, hour, recent, allow, allow_guest_issue, allow_agent_chat}
use webmcp_backend.Http.Server.Windows.{Call, InOrder, in_window, within, granted, ideal}
use webmcp_backend.Http.Server.Windows.Stored.{granted-ideal}

module _ (limit window : ℕ) where
  within-append :
      (start : ℕ) (xs ys : List ℕ)
      → within window start (xs ++ ys) ≡ within window start xs + within window start ys
  unfolding within
  within-append start [] ys = omega arith
  within-append start (x ∷ xs) ys = ground (arith, within-append start xs ys)

  -- What lies in a window with a time was recent at that time.
  within-le-recent :
      (start now : ℕ) (past : List ℕ)
      → in_window window start now ≡ true
      → within window start past ≤ length (recent window now past)
  unfolding within recent
  within-le-recent start now [] h = omega arith
  within-le-recent start now (x ∷ past) h = ground (arith, within-le-recent start now past h)

  within-passed :
      (start now : ℕ) (past : List ℕ)
      → leb limit (length (recent window now past)) ≡ false
      → within window start past ≤ limit
      → within window start (past ++ now ∷ []) ≤ limit
  unfolding within
  within-passed start now past free h = elim (Bool-cases (in_window window start now)) [
    | inl inside ↦
        ground (
          arith,
          within-append start past (now ∷ []),
          within-le-recent start now past inside,
          inside,
        )
    | inr outside ↦ ground (arith, within-append start past (now ∷ []), outside)
  ]

  ideal-bound_from :
      (ip : String) (start : ℕ) (calls : List Call) (past : List ℕ)
      → within window start past ≤ limit
      → within window start (past ++ ideal limit window ip calls past) ≤ limit
  unfolding ideal
  ideal-bound_from ip start [] past h = rw append-nil h
  ideal-bound_from ip start (call ∷ calls) past h = elim (Bool-cases (call.0 == ip)) [
    | inl own ↦ elim (Bool-cases (leb limit (length (recent window call.1 past)))) [
      | inl full ↦ rw (own, full) (ideal-bound_from ip start calls past h)
      | inr free ↦
          rw (own, free)
            (subst (λ (xs : List ℕ). within window start xs ≤ limit)
              (append_assoc past (call.1 ∷ []) (ideal limit window ip calls (past ++ call.1 ∷ [])))
              (ideal-bound_from ip start calls (past ++ call.1 ∷ [])
                (within-passed start call.1 past free h)))
    ]
    | inr other ↦ rw other (ideal-bound_from ip start calls past h)
  ]

  -- In a run that starts with an empty map, and in which the times of the calls do not go back, at
  -- most `limit` calls of one address are let through in any window.
  granted-bound :
      (ip : String) (calls : List Call) (start : ℕ)
      → InOrder 0 calls
      → within window start (granted (allow limit window) ip calls []) ≤ limit
  unfolding within
  granted-bound ip calls start order =
      rw (granted-ideal limit window ip calls order)
        (ideal-bound_from ip start calls [] (omega arith))

-- In a run of `allowGuestIssue` that starts with an empty map, and in which the times of the calls
-- do not go back, at most twelve calls of one address are let through in any hour.
pub allow_guest_issue_bound :
    (ip : String) (calls : List Call) (start : ℕ)
    → InOrder 0 calls
    → within hour start (granted allow_guest_issue ip calls []) ≤ 12
unfolding allow_guest_issue
allow_guest_issue_bound ip calls start order = granted-bound 12 hour ip calls start order

-- In a run of `allowAgentChat` that starts with an empty map, and in which the times of the calls
-- do not go back, at most thirty calls of one address are let through in any minute.
allow_agent_chat_bound :
    (ip : String) (calls : List Call) (start : ℕ)
    → InOrder 0 calls
    → within minute start (granted allow_agent_chat ip calls []) ≤ 30
unfolding allow_agent_chat
allow_agent_chat_bound ip calls start order = granted-bound 30 minute ip calls start order

-- In a run of `allowGuestIssue` that starts with an empty map, and in which the times of the calls
-- do not go back, an address is let through exactly as by an ideal that remembers every time at
-- which it let the address through: what the server forgets changes nothing.
pub allow_guest_issue-ideal :
    (ip : String) (calls : List Call)
    → InOrder 0 calls
    → granted allow_guest_issue ip calls [] ≡ ideal 12 hour ip calls []
unfolding allow_guest_issue
allow_guest_issue-ideal ip calls order = granted-ideal 12 hour ip calls order
