-- ===== src/Examples/Handlers.antt =====
-- The theorems on the handlers and on guest sessions, at concrete requests.
use webmcp_backend.Common.{ℕ, suc, ◌≡◌, ◌⊎◌, refl, String, true, none, some, [], ◌∷◌, ok, Error}
use webmcp_backend.Common.Io.{Io}
use webmcp_backend.Common.Int.{ℤ}
use webmcp_backend.Common.Maps.{lookup, insert}
use webmcp_backend.Common.Text.{trim, trim_left, trim_right, is_space}
use webmcp_backend.Domain.Core.{Ident, validate_id}
use webmcp_backend.Domain.Business.{Snapshot}
use webmcp_backend.Auth.Principal.{guest_allows}
use webmcp_backend.Http.Server.{recent, allow, allow_guest_issue}
use webmcp_backend.Http.Server.Sessions.{
  GuestSessionIssuer, GuestSession, is_ready, guest_session, guest_session-proceeds,
}
use webmcp_backend.Http.Replies.{proceeds, Success, read}
use webmcp_backend.Http.Gates.{gated}
use webmcp_backend.Http.Gates.Scope.{MayWork, Refuses, Calls}
use webmcp_backend.Http.Handlers.Writes.{
  InputOf, submits, organization_of, actor_of, business_of, write_gate, write_gate-MayWork,
}
use webmcp_backend.Http.Handlers.Reads.{admit_snapshot, business_snapshot}
use webmcp_backend.Http.Handlers.Reads.Guests.{IsReadOf, business_snapshot-IsReadOf}
use webmcp_backend.Examples.Data.{a_guest, a_snapshot}

abbrev its_text : Error → String
its_text e = ""

-- A service that counts its calls.
abbrev counts : InputOf ℤ (submits "proposal-1") → Io ℕ (Unit {0})
counts i n = (ok tt, suc n)

write_gate-MayWork_example :
    Refuses
      (gated
        (write_gate ℤ its_text "request-1" (submits "proposal-1"))
        (some a_guest)
        (some counts)
        (read "shop")
        "request-1")
      0
    ⊎ ((c : Calls
          (write_gate ℤ its_text "request-1" (submits "proposal-1"))
          (some a_guest)
          (some counts)
          (read "shop")
          "request-1"
          0)
        × MayWork c.user (
            business_of ℤ
              (submits "proposal-1")
              ((write_gate ℤ its_text "request-1" (submits "proposal-1")).input c.user c.request))
        × (organization_of ℤ
              (submits "proposal-1")
              ((write_gate ℤ its_text "request-1" (submits "proposal-1")).input c.user c.request)
            ≡ c.user.organization_id)
        × (actor_of ℤ
              (submits "proposal-1")
              ((write_gate ℤ its_text "request-1" (submits "proposal-1")).input c.user c.request)
            ≡ c.user.user_id))
write_gate-MayWork_example =
    write_gate-MayWork ℤ its_text "request-1" (submits "proposal-1") (some a_guest) (some counts)
      (read "shop") 0

abbrev an_issuer : GuestSessionIssuer
an_issuer = record { issue = ok ("token", 9); business_id = "shop"; goal_id = "goal-1" }

abbrev an_open_guest : GuestSession
an_open_guest = record {
  access_token = "token";
  expires_at = 9;
  business_id = "shop";
  goal_id = "goal-1";
}

it_opens :
    guest_session (some an_issuer) none "10.0.0.1" 5 []
    ≡ (proceeds an_open_guest, ("10.0.0.1", 5 ∷ []) ∷ [])
unfolding guest_session allow_guest_issue allow recent lookup insert
it_opens = refl

guest_session-proceeds_example :
    (issuer : GuestSessionIssuer) × (some an_issuer ≡ some issuer)
    × (allow_guest_issue "10.0.0.1" 5 [] ≡ (true, ("10.0.0.1", 5 ∷ []) ∷ []))
    × (is_ready none ≡ true)
    × (issuer.issue ≡ ok ("token", 9))
guest_session-proceeds_example =
    guest_session-proceeds (some an_issuer) none "10.0.0.1" 5 [] (("10.0.0.1", 5 ∷ []) ∷ [])
      an_open_guest it_opens

abbrev a_reader : Ident → Ident → Io ℕ (Snapshot ℤ)
a_reader org id n = (ok a_snapshot, suc n)

abbrev the_snapshot : Success (Snapshot ℤ)
the_snapshot = record { status = 200; value = a_snapshot; request_id = "request-1" }

it_reads :
    business_snapshot (some a_guest) "request-1" (some a_reader) "shop" 0
    ≡ (proceeds the_snapshot, 1)
unfolding business_snapshot admit_snapshot guest_allows validate_id trim trim_left trim_right
    is_space
it_reads = refl

business_snapshot-IsReadOf_example :
    (get : Io ℕ (Snapshot ℤ)) × IsReadOf (some a_guest) (some a_reader) "shop" get
    × (get 0 ≡ (ok a_snapshot, 1))
business_snapshot-IsReadOf_example =
    business_snapshot-IsReadOf (some a_guest) "request-1" (some a_reader) "shop" 0 1 the_snapshot
      it_reads
