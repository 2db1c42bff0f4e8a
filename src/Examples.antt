-- ===== src/Examples.antt =====
-- Concrete inputs for the theorems of the other modules.
pub mod Committed
pub mod Numbers
pub mod Data
pub mod Domain
pub mod Scenarios
pub mod Stores
pub mod Ports
pub mod Services
pub mod Workflows
pub mod Proposals
pub mod ProposalServices
pub mod Agent
pub mod Http
pub mod Windows
pub mod Tokens
pub mod Bearer
pub mod Handlers
pub mod Answered
