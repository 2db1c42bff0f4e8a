-- ===== src/Http/Gates.antt =====
-- internal/httpapi/api_handlers.go: the checks that the handlers share, in the order in which each of
-- them makes them: the principal, its role, the service, the body, and the scope of a guest.
pub mod Scope
use webmcp_backend.Common.{ℕ, String, Bool, Option, Error}
use webmcp_backend.Common.Io.{Io}
use webmcp_backend.Auth.Principal.{Principal}
use webmcp_backend.Http.Replies.{
  Reply, Served, proceeds, ◌>>=◌, ◌>>◌, refuse_if, present_or, Body, body_or, Handler, answer_with,
  run, unauthenticated,
}

-- What distinguishes a handler, for the body `R` and the input `I` of its service.
pub record Gate (R I : Type 0) : Type 0 where
  -- who is turned away, and the answers to them and without the service
  pub forbidden : Principal → Bool
  pub forbidden_reply : Reply
  pub unavailable_reply : Reply
  -- the code for a body that cannot be read
  pub body_code : String
  -- which requests a principal may not make, and the answer to them
  pub outside : Principal → R → Bool
  pub outside_reply : Reply
  pub input : Principal → R → I
  pub on_error : Error → Reply
  pub status : ℕ

module _ {R I W A : Type 0} (g : Gate R I) (principal : Option Principal)
    (service : Option (I → Io W A)) (body : Body R) where
  unfoldable pub admit : Served ((I → Io W A) × I)
  admit = do
    p ← present_or unauthenticated principal
    refuse_if (g.forbidden p) g.forbidden_reply
    call ← present_or g.unavailable_reply service
    request ← body_or g.body_code body
    refuse_if (g.outside p request) g.outside_reply
    proceeds (call, g.input p request)

  abbrev pub call_and_answer : String → (I → Io W A) × I → Handler W A
  call_and_answer request_id (call, input) w =
      answer_with g.on_error g.status request_id (call input w)

  -- A handler: its checks, the call, and the answer.
  unfoldable pub gated : String → Handler W A
  unfolding admit
  gated request_id = run admit (call_and_answer request_id)
