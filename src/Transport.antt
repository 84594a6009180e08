-- ===== src/Transport.antt =====
-- netherbrain/agent_runtime/transport: event delivery.
pub mod Sse
pub mod Bridge
