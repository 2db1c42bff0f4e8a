-- ===== src/Workflow/Agent.antt =====
-- internal/application/agentworkflow: the advisory conversation about a business.
pub mod Data
pub mod Tools
pub mod Context
pub mod Suggestions
pub mod Chat
pub mod Deterministic
