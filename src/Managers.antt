-- ===== src/Managers.antt =====
-- netherbrain/agent_runtime/managers: the operations on the database's tables.
pub mod Mailbox
pub mod Conversations
pub mod Execution
pub mod Sessions
pub mod Users
pub mod Files
pub mod Presets
