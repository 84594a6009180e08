-- ===== src/Execution.antt =====
-- netherbrain/agent_runtime/execution: from a request to a finished session.
pub mod Specs
pub mod Resolver
pub mod Deferred
pub mod Streamer
pub mod Hooks
pub mod Coordinator
pub mod MailboxPrompt
pub mod Launch
