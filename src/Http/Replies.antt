-- ===== src/Http/Replies.antt =====
-- internal/httpapi/response.go and api_handlers.go: what a handler answers, the decoding of a body,
-- and the answers for the errors of the services. The text of an error is a parameter.
use webmcp_backend.Common.{
  ℕ, String, Bool, true, false, Option, none, some, if◌then◌else◌, Error, Result, ok, err, is_error,
}
use webmcp_backend.Common.Text.{contains}

-- `writeError`, without the request's identifier: the status, the code and the message.
pub record Reply : Type 0 where
  pub status : ℕ
  pub code : String
  pub text : String

abbrev pub reply : ℕ → String → String → Reply
reply status code text = record { status = status; code = code; text = text }

-- A handler has answered with an error, or goes on.
pub data Served (A : Type 0) : Type 0 where
  refuses : Reply → Served A
  proceeds : A → Served A

infixl 5 ◌>>=◌ ◌>>◌
abbrev pub ◌>>=◌ : {A B : Type 0} → Served A → (A → Served B) → Served B
refuses r >>= f = refuses r
proceeds a >>= f = f a

abbrev pub ◌>>◌ : {B : Type 0} → Served (Unit {0}) → Served B → Served B
m >> n = m >>= λ _. n

-- `if test { writeError(...); return }`
abbrev pub refuse_if : Bool → Reply → Served (Unit {0})
refuse_if true r = refuses r
refuse_if false r = proceeds tt

-- `if value == nil { writeError(...); return }`, and `principalFromRequest`
abbrev pub present_or : {A : Type 0} → Reply → Option A → Served A
present_or r none = refuses r
present_or r (some a) = proceeds a

abbrev pub unauthenticated : Reply
unauthenticated = reply 401 "unauthenticated" "authenticated principal is required"

abbrev pub scope_forbidden : String → Reply
scope_forbidden text = reply 403 "guest_scope_forbidden" text

-- What the JSON decoder makes of a body: a value, its end, or an error.
data Decoded (A : Type 0) : Type 0 where
  decoded : A → Decoded A
  ends garbled : Decoded A

pub data Body (A : Type 0) : Type 0 where
  read : A → Body A
  unreadable : String → Body A

-- `decodeJSON`, of the first value and whether the body ends after it
unfoldable decode_json : {A : Type 0} → Decoded A → Bool → Body A
decode_json ends ended = unreadable "request body is required"
decode_json garbled ended = unreadable "request body is invalid"
decode_json (decoded a) true = read a
decode_json (decoded a) false = unreadable "request body must contain one JSON object"

abbrev pub body_or : {A : Type 0} → String → Body A → Served A
body_or code (read a) = proceeds a
body_or code (unreadable text) = refuses (reply 400 code text)

-- A successful answer: the status and the value that is encoded, with the request's identifier.
pub record Success (A : Type 0) : Type 0 where
  pub status : ℕ
  pub value : A
  pub request_id : String

abbrev pub Handler : Type 0 → Type 0 → Type 0
Handler W A = W → Served (Success A) × W

module _ {W A : Type 0} where
  -- The answer to what the service has returned.
  abbrev pub answer_with : (Error → Reply) → ℕ → String → Result A × W → Served (Success A) × W
  answer_with on_error status request_id (err e, w) = (refuses (on_error e), w)
  answer_with on_error status request_id (ok a, w) =
      (proceeds (record { status = status; value = a; request_id = request_id }), w)

  -- The checks, and then the call of the service.
  abbrev pub run : {X : Type 0} → Served X → (X → Handler W A) → Handler W A
  run (refuses r) call w = (refuses r, w)
  run (proceeds x) call w = call x w

-- `strings.Contains(err.Error(), "dependencies are unavailable")`
abbrev lacks_dependencies : (Error → String) → Error → Bool
lacks_dependencies text e = contains (text e) "dependencies are unavailable"

module _ (text : Error → String) where
  -- `writeScenarioError`
  unfoldable pub scenario_error : Error → Reply
  scenario_error e =
      if is_error "goal not found" e
      then reply 404 "goal_not_found" "goal was not found"
      else if is_error "scenario not found" e
      then reply 404 "scenario_not_found" "scenario was not found"
      else if is_error "business not found" e
      then reply 404 "business_not_found" "business was not found"
      else if is_error "scenario context mismatch" e
      then reply 409 "scenario_context_mismatch"
          "scenario context does not match the current business state"
      else if is_error "scenario changed before update" e
      then reply 409 "scenario_conflict" "scenario changed before the operation completed"
      else if is_error "scenario is based on a stale business version" e
      then reply 409 "stale_scenario" "scenario was based on an outdated business version"
      else if is_error "scenario actor is not authorized" e
      then reply 403 "scenario_forbidden" "scenario authorization was denied"
      else if lacks_dependencies text e
      then reply 503 "scenario_unavailable" "scenario service is unavailable"
      else reply 422 "scenario_rejected" "scenario request was rejected"

  -- `writeProposalError`
  unfoldable pub proposal_error : Error → Reply
  proposal_error e =
      if is_error "proposal not found" e
      then reply 404 "proposal_not_found" "proposal was not found"
      else if is_error "proposal context mismatch" e
      then reply 409 "proposal_context_mismatch"
          "proposal is not based on the requested scenario context"
      else if is_error "proposal state does not allow this operation" e
      then reply 409 "proposal_state_conflict"
          "proposal is not in a state that allows this operation"
      else if is_error "proposal changed before update" e
      then reply 409 "proposal_conflict" "proposal changed before the operation completed"
      else if is_error "proposal actor is not authorized" e
      then reply 403 "proposal_forbidden" "proposal authorization was denied"
      else if is_error "scenario not found" e
      then reply 404 "scenario_not_found" "scenario was not found"
      else if lacks_dependencies text e
      then reply 503 "proposal_unavailable" "proposal service is unavailable"
      else reply 422 "proposal_rejected" "proposal request was rejected"

  -- `writeApprovalError`
  unfoldable pub approval_error : Error → Reply
  approval_error e =
      if is_error "approval actor is not authorized" e
      then reply 403 "approval_forbidden" "approval authorization was denied"
      else if is_error "approval context mismatch" e
      then reply 409 "approval_context_mismatch"
          "approval context does not match the current proposal"
      else if is_error "proposal is not awaiting approval" e
      then reply 409 "approval_state_conflict" "proposal is not awaiting approval"
      else if is_error "proposal is stale" e
      then reply 409 "stale_proposal" "proposal was created from an outdated business version"
      else if lacks_dependencies text e
      then reply 503 "approval_unavailable" "approval service is unavailable"
      else reply 422 "approval_rejected" "approval request was rejected"

  -- The answers for the errors of `Analyze` and of `AddConstraint`.
  unfoldable pub analysis_error : Error → Reply
  analysis_error e =
      if lacks_dependencies text e
      then reply 503 "analysis_unavailable" "analysis service is unavailable"
      else reply 422 "analysis_rejected" "business analysis could not be produced"

  unfoldable pub constraint_error : Error → Reply
  constraint_error e =
      if lacks_dependencies text e
      then reply 503 "planning_unavailable" "planning service is unavailable"
      else reply 422 "constraint_rejected" "constraint could not be saved"

-- `writeCommitError`
unfoldable pub commit_error : Error → Reply
commit_error e =
    if is_error "commit actor is not authorized" e
    then reply 403 "commit_forbidden" "commit authorization was denied"
    else if is_error "business not found" e
    then reply 404 "business_not_found" "business was not found"
    else if is_error "approved proposal version not found" e
    then reply 404 "proposal_not_found" "approved proposal version was not found"
    else if is_error "matching approval not found" e
    then reply 422 "approval_required" "a matching human approval is required"
    else if is_error "commit is already in progress" e
    then reply 409 "commit_in_progress" "commit is already in progress"
    else if is_error "idempotency key belongs to another operation" e
    then reply 409 "idempotency_conflict" "idempotency key conflicts with another operation"
    else reply 409 "commit_rejected" "commit was rejected"
