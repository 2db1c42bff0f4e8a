-- ===== src/Workflow.antt =====
-- internal/application: the workflow services over their ports.
pub mod Ports
pub mod Planning
pub mod Approvals
pub mod Analysis
pub mod Proposals
pub mod Scenarios
pub mod Agent
