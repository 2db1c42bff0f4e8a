-- ===== src/Http/Server/Sessions.antt =====
-- internal/httpapi/server.go: the guest session and the readiness probe. The issuer of guest tokens,
-- with its business and goal, and the check of the dependencies are parameters.
use webmcp_backend.Common.{
  ℕ, ◌≡◌, inl, inr, refl, sym, ap, ◌∙◌, String, Bool, true, false, Option, none, some, List, arith,
  Checked, Result, ok, err, Bool-cases,
}
use webmcp_backend.Common.Maps.{Map}
use webmcp_backend.Http.Server.{allow_guest_issue}
use webmcp_backend.Http.Replies.{Reply, Served, refuses, proceeds, reply}

-- `GuestSessionIssuer`
pub record GuestSessionIssuer : Type 0 where
  pub issue : Result (String × ℕ)
  pub business_id : String
  pub goal_id : String

-- The answer of `guestSession`: the token, when it expires, and what it is for.
pub record GuestSession : Type 0 where
  pub access_token : String
  pub expires_at : ℕ
  pub business_id : String
  pub goal_id : String

abbrev guest_unavailable : Reply
guest_unavailable = reply 503 "guest_unavailable" "guest demo is temporarily unavailable"

abbrev session_of : GuestSessionIssuer → Result (String × ℕ) → Served GuestSession
session_of issuer (err e) = refuses guest_unavailable
session_of issuer (ok (token, expires)) = proceeds (record {
  access_token = token;
  expires_at = expires;
  business_id = issuer.business_id;
  goal_id = issuer.goal_id;
})

-- `s.deps.Readiness`, where there is one
abbrev pub is_ready : Option Checked → Bool
is_ready none = true
is_ready (some (ok _)) = true
is_ready (some (err e)) = false

abbrev when_ready : Bool → GuestSessionIssuer → Served GuestSession
when_ready true issuer = session_of issuer issuer.issue
when_ready false issuer = refuses guest_unavailable

abbrev within_limit :
    GuestSessionIssuer → Option Checked → Bool × Map (List ℕ) → Served GuestSession × Map (List ℕ)
within_limit issuer readiness (false, issues) = (
  refuses (reply 429 "guest_rate_limited" "guest demo session limit reached; try again later"),
  issues,
)
within_limit issuer readiness (true, issues) = (when_ready (is_ready readiness) issuer, issues)

-- `guestSession`
unfoldable pub guest_session :
    Option GuestSessionIssuer
    → Option Checked
    → String
    → ℕ
    → Map (List ℕ)
    → Served GuestSession × Map (List ℕ)
unfolding allow_guest_issue
guest_session none readiness ip now issues =
    (refuses (reply 404 "guest_demo_disabled" "guest demo is not enabled"), issues)
guest_session (some issuer) readiness ip now issues =
    within_limit issuer readiness (allow_guest_issue ip now issues)

-- `readyCheck`
unfoldable ready_check : Bool → Option Checked → Served (Unit {0})
ready_check false readiness = refuses (reply 503 "not_ready" "service is not ready")
ready_check true none = proceeds tt
ready_check true (some (ok _)) = proceeds tt
ready_check true (some (err e)) =
    refuses (reply 503 "dependency_not_ready" "required dependency is not ready")

session_of-proceeds :
    (issuer : GuestSessionIssuer) (r : Result (String × ℕ)) (out : GuestSession)
    → session_of issuer r ≡ proceeds out
    → r ≡ ok (out.access_token, out.expires_at)
session_of-proceeds issuer (err e) out h = absurd (ground (arith, h))
session_of-proceeds issuer (ok (token, expires)) out h = ground (arith, h)

within_limit-proceeds :
    (issuer : GuestSessionIssuer) (readiness : Option Checked) (r : Bool × Map (List ℕ))
    (issues' : Map (List ℕ)) (out : GuestSession)
    → within_limit issuer readiness r ≡ (proceeds out, issues')
    → (r ≡ (true, issues'))
      × (is_ready readiness ≡ true)
      × (issuer.issue ≡ ok (out.access_token, out.expires_at))
within_limit-proceeds issuer readiness (false, issues) issues' out h = absurd (ground (arith, h))
within_limit-proceeds issuer readiness (true, issues) issues' out h =
    elim (Bool-cases (is_ready readiness)) [
      | inl e ↦ (
        ap (λ x. (true, x)) (ap (λ r. r.1) h),
        e,
        session_of-proceeds issuer issuer.issue out
            (ap (λ b. when_ready b issuer) (sym e) ∙ ap (λ r. r.0) h),
      )
      | inr e ↦ absurd (ground (arith, ap (λ b. when_ready b issuer) (sym e) ∙ ap (λ r. r.0) h))
    ]

-- A guest session is opened only if guests are enabled, the limit of the address lets the call
-- through and counts it, the dependencies are ready, and the issuer has issued the token.
pub guest_session-proceeds :
    (guests : Option GuestSessionIssuer) (readiness : Option Checked) (ip : String) (now : ℕ)
    (issues issues' : Map (List ℕ)) (out : GuestSession)
    → guest_session guests readiness ip now issues ≡ (proceeds out, issues')
    → (issuer : GuestSessionIssuer) × (guests ≡ some issuer)
      × (allow_guest_issue ip now issues ≡ (true, issues'))
      × (is_ready readiness ≡ true)
      × (issuer.issue ≡ ok (out.access_token, out.expires_at))
unfolding guest_session
guest_session-proceeds none readiness ip now issues issues' out h = absurd (ground (arith, h))
guest_session-proceeds (some issuer) readiness ip now issues issues' out h =
    let (let_through, ready, issued) =
      within_limit-proceeds issuer readiness (allow_guest_issue ip now issues) issues' out h in
    (issuer, refl, let_through, ready, issued)
