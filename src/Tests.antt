-- ===== src/Tests.antt =====
-- Runs of the model at fixed inputs, and the properties applied to them.
mod Conversation
mod Live
mod Access
mod History
mod Accounts
mod Config
mod Execution
mod Files
