-- ===== src/Examples/Windows.antt =====
-- The theorems on the limits of the server, at a run of three calls.
use webmcp_backend.Common.{◌≡◌, ◌≤◌, List, [], ◌∷◌, arith}
use webmcp_backend.Http.Server.{hour, allow_guest_issue}
use webmcp_backend.Http.Server.Windows.{Call, within, granted, ideal}
use webmcp_backend.Http.Server.Windows.Bound.{allow_guest_issue_bound, allow_guest_issue-ideal}

abbrev some_calls : List Call
some_calls = ("10.0.0.1", 5) ∷ ("10.0.0.2", 6) ∷ ("10.0.0.1", 7) ∷ []

allow_guest_issue_bound_example :
    within hour 0 (granted allow_guest_issue "10.0.0.1" some_calls []) ≤ 12
allow_guest_issue_bound_example = allow_guest_issue_bound "10.0.0.1" some_calls 0 (omega arith)

allow_guest_issue-ideal_example :
    granted allow_guest_issue "10.0.0.1" some_calls [] ≡ ideal 12 hour "10.0.0.1" some_calls []
allow_guest_issue-ideal_example = allow_guest_issue-ideal "10.0.0.1" some_calls (omega arith)
