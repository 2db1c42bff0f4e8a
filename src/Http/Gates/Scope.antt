-- ===== src/Http/Gates/Scope.antt =====
-- internal/httpapi/api_handlers.go: what it means that a handler stays within what its principal may
-- do.
use webmcp_backend.Common.{
  ℕ, ◌≡◌, ◌⊎◌, inl, inr, refl, sym, ap, String, Bool, true, false, not, ◌&&◌, Option, none, some,
  arith, string_eq, eq_iff, Error, Result, ok, err, Bool-cases,
}
use webmcp_backend.Common.Io.{Io}
use webmcp_backend.Domain.Core.{Ident}
use webmcp_backend.Auth.Principal.{
  Principal, viewer, role_eq, role_beq_iff, can_operate, can_demo_operate, guest_allows,
}
use webmcp_backend.Http.Replies.{
  Reply, Served, refuses, proceeds, ◌>>=◌, refuse_if, present_or, Body, read, unreadable, body_or,
  Success, Handler, answer_with, run, unauthenticated,
}
use webmcp_backend.Http.Gates.{Gate, admit, call_and_answer, gated}

-- An owner or an operator, or a guest in its own business.
pub data MayWork (p : Principal) (business_id : Ident) : Type 0 where
  as_staff : can_operate p ≡ true → MayWork p business_id
  as_guest :
      p.guest ≡ true → p.role ≡ viewer → business_id ≡ p.guest_business_id → MayWork p business_id

-- `!principal.CanOperate() && !principal.CanDemoOperate()`
abbrev pub may_not_operate : Principal → Bool
may_not_operate p = not (can_operate p) && not (can_demo_operate p)

pub MayWork-allowed :
    (p : Principal) (business_id goal_id : Ident)
    → may_not_operate p ≡ false
    → not (guest_allows p business_id goal_id) ≡ false
    → MayWork p business_id
unfolding can_demo_operate guest_allows
MayWork-allowed p business_id goal_id allowed scope = elim (Bool-cases (can_operate p)) [
  | inl staff ↦ as_staff staff
  | inr other ↦
      as_guest (ground (arith, allowed, other))
        ((role_beq_iff p.role viewer).0 (ground (arith, allowed, other)))
        (ground (arith, allowed, other, scope, eq_iff business_id p.guest_business_id))
]

pub bind-proceeds :
    {A B : Type 0} (m : Served A) (f : A → Served B) {b : B}
    → (m >>= f) ≡ proceeds b
    → (a : A) × (m ≡ proceeds a) × (f a ≡ proceeds b)
bind-proceeds (refuses r) f h = absurd (ground (arith, h))
bind-proceeds (proceeds a) f h = (a, refl, h)

pub present_or-proceeds :
    {A : Type 0} (r : Reply) (o : Option A) {a : A} → present_or r o ≡ proceeds a → o ≡ some a
present_or-proceeds r none h = absurd (ground (arith, h))
present_or-proceeds r (some a) h = ground (arith, h)

pub body_or-proceeds :
    {A : Type 0} (code : String) (b : Body A) {a : A} → body_or code b ≡ proceeds a → b ≡ read a
body_or-proceeds code (read a) h = ground (arith, h)
body_or-proceeds code (unreadable text) h = absurd (ground (arith, h))

pub refuse_if-proceeds :
    (test : Bool) (r : Reply) (u : Unit {0}) → refuse_if test r ≡ proceeds u → test ≡ false
refuse_if-proceeds true r u h = absurd (ground (arith, h))
refuse_if-proceeds false r u h = refl

pub proceeds-injective : {A : Type 0} {a b : A} → proceeds a ≡ proceeds b → a ≡ b
proceeds-injective h = cc (h)

-- A success is what the service has returned.
pub answer_with-proceeds :
    {W A : Type 0} (on_error : Error → Reply) (status : ℕ) (request_id : String) (r : Result A × W)
    (out : Success A) (w' : W)
    → answer_with on_error status request_id r ≡ (proceeds out, w')
    → r ≡ (ok out.value, w')
answer_with-proceeds on_error status request_id (err e, w) out w' h = absurd (ground (arith, h))
answer_with-proceeds on_error status request_id (ok a, w) out w' h =
    let value : a ≡ out.value =
      ap (λ (s : Success _). s.value) (proceeds-injective (ap (λ x. x.0) h)) in
    let world : w ≡ w' = ap (λ x. x.1) h in λ i. (ok (value i), world i)

-- The handler answers with an error and leaves the world alone.
abbrev pub Refuses : {W A : Type 0} → Handler W A → W → Type 0
Refuses h w = (r : Reply) × (h w ≡ (refuses r, w))

module _ {R I W A : Type 0} (g : Gate R I) (principal : Option Principal)
    (service : Option (I → Io W A)) (body : Body R) where
  -- The checks have passed, and the answer is that to the single call of the service.
  pub record Calls (request_id : String) (w : W) : Type 0 where
    pub user : Principal
    pub call : I → Io W A
    pub request : R
    pub signed_in : principal ≡ some user
    pub allowed : g.forbidden user ≡ false
    pub wired : service ≡ some call
    pub readable : body ≡ read request
    pub inside : g.outside user request ≡ false
    pub answered :
        gated g principal service body request_id w
        ≡ answer_with g.on_error g.status request_id (call (g.input user request) w)

  gated_cases :
      (m : Served ((I → Io W A) × I)) (request_id : String) (w : W)
      → admit g principal service body ≡ m
      → Refuses (run m (call_and_answer g principal service body request_id)) w
        ⊎ ((user : Principal) × (call : I → Io W A) × (request : R) × (principal ≡ some user)
            × (g.forbidden user ≡ false)
            × (service ≡ some call)
            × (body ≡ read request)
            × (g.outside user request ≡ false)
            × (m ≡ proceeds (call, g.input user request)))
  unfolding admit
  gated_cases (refuses r) request_id w e = inl (r, refl)
  gated_cases (proceeds x) request_id w e =
      let (user, signed, h1) = bind-proceeds (present_or unauthenticated principal) _ e in
      let (u, allowed, h2) = bind-proceeds (refuse_if (g.forbidden user) g.forbidden_reply) _ h1 in
      let (call, wired, h3) = bind-proceeds (present_or g.unavailable_reply service) _ h2 in
      let (request, readable, h4) = bind-proceeds (body_or g.body_code body) _ h3 in
      let (u', inside, h5) =
        bind-proceeds (refuse_if (g.outside user request) g.outside_reply) _ h4 in
      inr (
        user,
        call,
        request,
        present_or-proceeds unauthenticated principal signed,
        refuse_if-proceeds (g.forbidden user) g.forbidden_reply u allowed,
        present_or-proceeds g.unavailable_reply service wired,
        body_or-proceeds g.body_code body readable,
        refuse_if-proceeds (g.outside user request) g.outside_reply u' inside,
        sym h5,
      )

  -- A handler answers with an error and leaves the world alone, or its checks have passed and it
  -- answers with what the service returns to one call.
  pub gated-Calls :
      (request_id : String) (w : W)
      → Refuses (gated g principal service body request_id) w ⊎ Calls request_id w
  unfolding gated
  gated-Calls request_id w = elim (gated_cases (admit g principal service body) request_id w refl) [
    | inl stopped ↦ inl stopped
    | inr (user, call, request, signed, allowed, wired, readable, inside, e) ↦ inr (record {
      user = user;
      call = call;
      request = request;
      signed_in = signed;
      allowed = allowed;
      wired = wired;
      readable = readable;
      inside = inside;
      answered = ap (λ m. run m (call_and_answer g principal service body request_id) w) e;
    })
  ]
