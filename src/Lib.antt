-- ===== src/Lib.antt =====
-- A verification library for the backend of a governed decision system. Humans set a goal for a
-- business; scenarios of bounded actions are simulated against a verified snapshot of it and
-- compared; a proposal is drafted from a scenario, revised and submitted for review; an owner or an
-- operator decides on it; and an approved version is committed once, against the business version
-- that it was based on.
--
-- The parts of the program, and the files that model them:
-- - internal/domain: the pure rules. Domain/Core (core/core.go), Domain/Business
--   (business/business.go), Domain/Planning (planning/planning.go), Domain/Proposal
--   (proposal/proposal.go), Domain/Approval (approval/approval.go), Domain/Audit (audit/audit.go),
--   Domain/Scenario (scenario/scenario.go), with Domain/Scenario/Simulation for Simulate and
--   Domain/Scenario/Comparison for Compare (scenario/simulation.go), and Domain/Commit
--   (commit/commit.go) for the gate of a commit. `T.Validate` is `validate_t`, `T.CanTransition` and
--   `T.Transition` are `can_transition` and `transition`.
-- - internal/auth: Auth/Principal has the principals and their capabilities (principal.go), Auth/Guest
--   the tokens of guest sessions (guest.go), Auth/Chain the authenticators that are tried in turn
--   (guest.go), and Auth/Jwt the bearer tokens of an issuer (jwt.go): Tokens takes a token apart and
--   tests its claims, Keys has the cached keys and their refresh, Bearer the authenticator.
-- - internal/platform/postgres: the adapters. Store/Tables has the rows of
--   migrations/000001_initial.up.sql, Store/Sql the searches and updates, Store/Tx the tenant
--   transaction (tenant_tx.go), Store/Members whether a principal is a member of its organization
--   (principal_authorizer.go), Store/Commits the commit (commit_service.go), Store/Approvals the
--   recorded decision (approval_repository.go) and Store/Proposals the proposals and their versions
--   (proposal_repository.go). Store/Steps is the relation of one operation of theirs to the database
--   before and after it, and of a run of them.
-- - internal/application: Workflow/Ports has the ports (ports/ports.go), and Workflow/Planning,
--   Workflow/Approvals, Workflow/Analysis, Workflow/Proposals and Workflow/Scenarios the services
--   (planningworkflow, approvalworkflow, analysisworkflow, proposalworkflow and scenarioworkflow,
--   service.go in each). A service calls its repositories through the ports, and Workflow/Approvals
--   is also composed with Store/Approvals, which implements its port, as Workflow/Proposals is with
--   Store/Proposals. Workflow/Agent is the advisory conversation (agentworkflow/service.go): Data has
--   its records, Tools the tools of a stage, Context the checks of the input and what a provider is
--   told, Suggestions the check of a tool suggestion, Chat the turn with its chain of providers, and
--   Deterministic the provider without a model (agentworkflow/deterministic.go).
-- - internal/httpapi: Http/Authenticated is the authentication middleware (auth_middleware.go),
--   Http/RequestIds the identifier of a request and Http/Cors the origins that are allowed, with the
--   preflight requests (both middleware.go), Http/Server the windows that limit the
--   calls of an address (server.go), with Http/Server/Sessions for the guest session and the readiness
--   probe. Http/Replies has the answers, and the decoding of a body (response.go, api_handlers.go),
--   Http/Gates the checks that the handlers share, and Http/Handlers the handlers (api_handlers.go,
--   agent_chat_handlers.go). Most handlers are a `Gate`, which says what distinguishes them, and `gated`
--   makes the checks in the order of the code, calls the service and answers; the commit, the snapshot
--   and the conversation check in orders of their own, which their definitions write out. A service is
--   a function from its input to an operation on a world; Http/Handlers/Decisions and
--   Http/Handlers/Commits/Called put the services and the PostgreSQL adapters in its place.
-- - cmd/server/main.go: Http/Access is how the authenticators and the authorizer are put together for a
--   deployment, around a protected handler.
-- - Common has what all of them use: results and errors, texts, integers, maps, floats, and code
--   that acts on a world (Common/Io). Examples has concrete inputs.
--
-- How the code is modelled. An error is a value of `Error`, with the message of the code; a check
-- that returns an error is a `Checked`. A Go string that names a status is a data type with the
-- constants of the code and a constructor `other` for every other string. `uint64` is ℕ with its
-- sums taken modulo 2 ^ 64; `int64` is ℤ with sums that wrap. A text is a list of code points, and
-- `len` counts its bytes in UTF-8. Go runs through a map in an order of its own; a map that only
-- labels identifiers to check is a list, in one such order. `float64` is a parameter, the interface
-- Common/Float with the operations that the code calls and the laws of IEEE 754 comparison that the
-- proofs use. An instant is the number of nanoseconds since the zero `time.Time`.
--
-- The database is a record of lists of rows, a newer row before an older one, so that the order of
-- `created_at` is that of the list. A session has the database, the server's clock and a list of
-- faults, one for each round trip: a request succeeds, fails, or, for a commit, is carried out
-- although its answer is lost. Row-level security is the organization that every search filters by.
-- A constraint of the schema that a statement could break is an error of that statement. One
-- transaction runs at a time: row locks, which order the transactions on one business, are not
-- modelled beyond that. A service acts on a world that its repositories read and change; random
-- bytes, clocks and repositories are parameters. SHA-256 in hexadecimal is the parameter `digest`.
-- Every loop is structural recursion on its list; the decimal digits of a `uint64` take twenty steps,
-- which is enough below 10 ^ 20. A text has no NUL, which PostgreSQL refuses.
--
-- HMAC, RSA verification, base64, JSON, `url.Parse`, `net.SplitHostPort` and the request for the keys
-- of an issuer are parameters, and so is the text of an error in an answer. The times of a token are
-- nanoseconds since 1970, and those of the windows since an origin more than an hour ago. What a mutex
-- guards is a state that calls change one after the other; a request reads the clock anew where the
-- code does.
--
-- Not modelled: internal/config, cmd/migrate, cmd/seed-demo and the rest of cmd/server,
-- internal/application/agentworkflow/groq.go, the pool, the migrator and the remaining repositories of
-- internal/platform/postgres (business_repository.go, scenario_repository.go, guest_readiness.go), the
-- table of routes and the rest of middleware.go (security headers, the limit of a body, the recovery
-- from a panic, the access log), and the records of internal/httpapi that an answer is encoded
-- from. They are I/O and wiring around the parts above, or rest on HTTP and JSON libraries; what the
-- agent reads of a tool's JSON arguments is a parameter. The columns created_at and updated_at are not
-- modelled, and no text of a Go error beyond the message of the code.
pub mod Common
pub mod Domain
pub mod Auth
pub mod Store
pub mod Workflow
pub mod Http
pub mod Examples
