-- ===== src/Http/Server/Windows.antt =====
-- internal/httpapi/server.go: runs of the calls that the windows limit, and an ideal window that
-- forgets nothing.
pub mod Stored
pub mod Bound
use webmcp_backend.Common.{
  ℕ, suc, ◌+◌, ◌≤◌, ◌≡◌, refl, sym, ap, ◌∙◌, String, Bool, true, false, ◌&&◌, List, [], ◌∷◌, ◌++◌,
  length, length-append, filter, ltb, leb, ◌==◌, string_eq, eq_iff, if◌then◌else◌, arith, inl, inr,
  Bool-cases,
}
use mathlib.Core.Path.{subst}
use mathlib.Core.List.{append-nil, append_assoc}
use webmcp_backend.Common.Maps.{Map, lookup, insert, lookup-insert}
use webmcp_backend.Http.Server.{
  minute, hour, is_recent, recent, issues_of, allow, allow_guest_issue, allow_agent_chat,
}

-- A call: the address, and the time that it reads.
abbrev pub Call : Type 0
Call = String × ℕ

-- The calls come in the order of their times.
abbrev pub InOrder : ℕ → List Call → Type 0
InOrder from [] = Unit {0}
InOrder from (call ∷ calls) = (from ≤ call.1) × InOrder call.1 calls

-- The times in a window that starts at `start`.
abbrev pub in_window : ℕ → ℕ → ℕ → Bool
in_window window start at = leb start at && ltb at (start + window)

unfoldable pub within : ℕ → ℕ → List ℕ → ℕ
within window start times = length (filter (in_window window start) times)

-- The times at which a run of calls of an operation lets an address through.
unfoldable pub granted :
    (String → ℕ → Map (List ℕ) → Bool × Map (List ℕ)) → String → List Call → Map (List ℕ) → List ℕ
granted op ip [] issues = []
granted op ip (call ∷ calls) issues =
    let rest = granted op ip calls (op call.0 call.1 issues).1 in
    if (op call.0 call.1 issues).0 && call.0 == ip then call.1 ∷ rest else rest

module _ (limit window : ℕ) where
  -- The same by an ideal that forgets nothing: it lets a call through if fewer than `limit` of all
  -- that it ever let through lie in the window before it.
  unfoldable pub ideal : String → List Call → List ℕ → List ℕ
  ideal ip [] past = []
  ideal ip (call ∷ calls) past =
      let refused = ideal ip calls past in
      let passed = ideal ip calls (past ++ call.1 ∷ []) in
      if call.0 == ip
      then (if leb limit (length (recent window call.1 past)) then refused else call.1 ∷ passed)
      else refused
