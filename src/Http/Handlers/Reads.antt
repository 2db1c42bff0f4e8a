-- ===== src/Http/Handlers/Reads.antt =====
-- internal/httpapi/api_handlers.go, agent_chat_handlers.go and server.go: the snapshot of a business,
-- the conversation with the agent, the guest session, and the two probes.
pub mod Guests
use webmcp_backend.Common.{
  ℕ, ◌≡◌, String, Bool, true, false, not, ◌||◌, Option, none, some, List, Error, message, about,
  wrap, Checked, Result, ok, err, is_error, ◌==◌, string_eq, if◌then◌else◌,
}
use webmcp_backend.Common.Io.{Io}
use webmcp_backend.Common.Maps.{Map}
use webmcp_backend.Common.Text.{trim}
use webmcp_backend.Domain.Core.{Ident, validate_id}
use webmcp_backend.Domain.Business.{Snapshot}
use webmcp_backend.Auth.Principal.{Principal, guest_allows}
use webmcp_backend.Workflow.Agent.Data.{ChatInput, Response, Turn}
use webmcp_backend.Http.Server.{allow_agent_chat, allow_guest_issue}
use webmcp_backend.Http.Replies.{
  Reply, Served, refuses, proceeds, ◌>>=◌, ◌>>◌, refuse_if, present_or, Body, body_or, Success,
  Handler, answer_with, run, reply, unauthenticated, scope_forbidden,
}
use webmcp_backend.Http.Handlers.Commits.{valid_or}

-- The answer to an error of `GetSnapshot`.
abbrev pub snapshot_error : Error → Reply
snapshot_error e =
    if is_error "business not found" e
    then reply 404 "business_not_found" "business was not found"
    else reply 500 "snapshot_failed" "business snapshot could not be loaded"

module _ {F W : Type 0} (principal : Option Principal) (request_id : String)
    (reader : Option (Ident → Ident → Io W (Snapshot F))) where
  -- The checks of `businessSnapshot`, and what it asks for.
  unfoldable pub admit_snapshot : Ident → Served (Io W (Snapshot F))
  admit_snapshot business_id = do
    p ← present_or unauthenticated principal
    get_snapshot ←
        present_or (reply 503 "snapshot_unavailable" "business snapshot service is unavailable")
          reader
    valid_or (reply 400 "invalid_business_id" "business_id is invalid")
        (validate_id business_id "business_id")
    refuse_if (not (guest_allows p business_id ""))
        (scope_forbidden "guest demo is limited to its configured business")
    proceeds (get_snapshot p.organization_id business_id)

  -- `businessSnapshot`, of the business in its path
  unfoldable pub business_snapshot : Ident → Handler W (Snapshot F)
  unfolding admit_snapshot
  business_snapshot business_id =
      run (admit_snapshot business_id) λ get w. answer_with snapshot_error 200 request_id (get w)

record AgentChatRequest : Type 0 where
  pub business_id : String
  pub goal_id : String
  pub conversation_id : String
  pub text : String
  pub current_stage : String
  pub available_tools : List String
  pub recent_messages : List Turn

-- `errors.Is(err, target)` where `Chat` wraps the target itself, as in `fmt.Errorf("%w: %v", ...)`.
abbrev names_error : String → Error → Bool
names_error target (message s) = s == target
names_error target (about s x) = false
names_error target (wrap s e) = s == target || is_error target e

abbrev agent_error : Error → Reply
agent_error e =
    if names_error "agent chat input is invalid" e
    then reply 400 "invalid_agent_chat_request" "message or chat context is invalid"
    else if names_error "agent chat context was not found" e
    then reply 404 "agent_context_not_found" "the requested business goal context was not found"
    else reply 503 "agent_chat_unavailable" "agent chat could not produce a safe response"

module _ {F A W : Type 0} (enabled : Bool) (principal : Option Principal) (request_id : String)
    (chat : Option (ChatInput → Io W (Response F A))) where
  -- The checks before the rate limit.
  unfoldable admit_chat : Served (Principal × (ChatInput → Io W (Response F A)))
  admit_chat = do
    refuse_if (not enabled)
        (reply 404 "agent_chat_disabled" "agent chat is not enabled on this deployment")
    p ← present_or unauthenticated principal
    answer ←
        present_or (reply 503 "agent_chat_unavailable" "agent chat service is unavailable") chat
    proceeds (p, answer)

  -- The checks after it, and the input of `Chat`.
  unfoldable chat_input : Principal → Body AgentChatRequest → Served ChatInput
  chat_input p body = do
    r ← body_or "invalid_agent_chat_request" body
    refuse_if (not (guest_allows p (trim r.business_id) (trim r.goal_id)))
        (scope_forbidden "guest demo is limited to its configured business and goal")
    proceeds (record {
      organization_id = p.organization_id;
      actor_id = p.user_id;
      business_id = trim r.business_id;
      goal_id = trim r.goal_id;
      conversation_id = r.conversation_id;
      text = r.text;
      current_stage = r.current_stage;
      available_tools = r.available_tools;
      recent_messages = r.recent_messages;
      guest = p.guest;
    })

  -- What is left once the rate limit has let the address through, or not.
  abbrev chat_within :
      Principal × (ChatInput → Io W (Response F A))
      → Body AgentChatRequest
      → Bool
      → Handler W (Response F A)
  chat_within (p, answer) body false w = (
    refuses
        (reply 429 "agent_chat_rate_limited" "agent chat rate limit reached; try again shortly"),
    w,
  )
  chat_within (p, answer) body true w =
      run (chat_input p body) (λ i w'. answer_with agent_error 200 request_id (answer i w')) w

  abbrev chat_limited :
      Served (Principal × (ChatInput → Io W (Response F A)))
      → Body AgentChatRequest
      → Bool × Map (List ℕ)
      → Map (List ℕ)
      → W
      → Served (Success (Response F A)) × Map (List ℕ) × W
  chat_limited (refuses r) body limited issues w = (refuses r, issues, w)
  chat_limited (proceeds x) body (let_through, issues') issues w =
      let (answered, w') = chat_within x body let_through w in (answered, issues', w')

  -- `agentChat`, which counts the call of an address before it reads the body.
  unfoldable agent_chat :
      String
      → ℕ
      → Body AgentChatRequest
      → Map (List ℕ)
      → W
      → Served (Success (Response F A)) × Map (List ℕ) × W
  unfolding admit_chat chat_input allow_agent_chat
  agent_chat ip now body issues w =
      chat_limited admit_chat body (allow_agent_chat ip now issues) issues w
