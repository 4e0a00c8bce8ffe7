-- ===== src/Providers.antt =====
-- The providers: packages/kogg-providers/src.
pub mod Sse
pub mod Frames
pub mod Chunks
pub mod Codex
pub mod Reply
pub mod Scenarios
