-- ===== src/Streaming.antt =====
-- netherbrain/agent_runtime/streaming: the protocol adapter and the compressor.
pub mod Compress
pub mod Agui
