-- ===== src/InteractionModes.antt =====
-- The interaction modes: packages/kogg-interaction-modes/src.
pub mod Authority
pub mod Minted
pub mod Scenarios
