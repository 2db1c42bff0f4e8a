-- ===== src/Http/Server.antt =====
-- internal/httpapi/server.go: the windows by which the server limits how often an address opens a
-- guest session and calls the agent. The map is guarded by a mutex, so calls run one by one; a time
-- is a number of nanoseconds since an origin more than an hour ago.
pub mod Windows
pub mod Sessions
use webmcp_backend.Common.{
  ℕ, suc, ◌+◌, ◌*◌, String, Bool, true, false, Option, none, some, List, [], ◌∷◌, ◌++◌, length,
  filter, ltb, leb, if◌then◌else◌, ok, err, Result,
}
use webmcp_backend.Common.Maps.{Map, lookup_or, insert}
use webmcp_backend.Common.Text.{is_empty}

abbrev pub second : ℕ
second = 1000000000

abbrev pub minute : ℕ
minute = 60 * second

abbrev pub hour : ℕ
hour = 60 * minute

-- `at.After(now.Add(-window))`
abbrev pub is_recent : ℕ → ℕ → ℕ → Bool
is_recent window now at = ltb now (at + window)

-- The loop that keeps the issues after the cutoff.
unfoldable pub recent : ℕ → ℕ → List ℕ → List ℕ
recent window now issues = filter (is_recent window now) issues

-- The issues of an address: a missing one has the empty slice.
abbrev pub issues_of : String → Map (List ℕ) → List ℕ
issues_of ip issues = lookup_or [] ip issues

unfoldable pub allow : ℕ → ℕ → String → ℕ → Map (List ℕ) → Bool × Map (List ℕ)
unfolding recent
allow limit window ip now issues =
    let kept = recent window now (issues_of ip issues) in
    if leb limit (length kept)
    then (false, insert ip kept issues)
    else (true, insert ip (kept ++ now ∷ []) issues)

-- `allowGuestIssue`
unfoldable pub allow_guest_issue : String → ℕ → Map (List ℕ) → Bool × Map (List ℕ)
unfolding allow
allow_guest_issue ip now issues = allow 12 hour ip now issues

-- `allowAgentChat`
unfoldable pub allow_agent_chat : String → ℕ → Map (List ℕ) → Bool × Map (List ℕ)
unfolding allow
allow_agent_chat ip now issues = allow 30 minute ip now issues

-- `clientIP`, of the remote address and what `net.SplitHostPort` makes of it.
unfoldable client_ip : (String → Result String) → String → String
client_ip split_host remote = elim (split_host remote) [
  | ok host ↦ if is_empty host then (if is_empty remote then "unknown" else remote) else host
  | err e ↦ if is_empty remote then "unknown" else remote
]
