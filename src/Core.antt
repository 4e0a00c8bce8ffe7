-- ===== src/Core.antt =====
-- The core: packages/kogg-core/src.
pub mod Journal
pub mod Publish
pub mod Chain
pub mod Scenarios
