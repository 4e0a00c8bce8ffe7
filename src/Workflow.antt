-- ===== src/Workflow.antt =====
-- The workflow package: packages/kogg-workflow/src.
pub mod Kinds
pub mod Effects
pub mod Graph
pub mod Maps
pub mod Catalog
pub mod Search
pub mod Checked
pub mod Compiler
pub mod Cycle
pub mod Check
pub mod Reaches
pub mod NodeChecks
pub mod NodeMap
pub mod EdgeChecks
pub mod Passed
pub mod Sound
pub mod Degrees
pub mod Release
pub mod Order
pub mod Acyclic
pub mod Forks
pub mod Plan
pub mod Integrity
pub mod Scenarios
