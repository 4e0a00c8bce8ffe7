-- ===== src/Operations/Legal.antt =====
-- Every method of the registry is a chain of legal statements, whether it returns or throws:
-- packages/kogg-operations/src/node/operation-registry.ts.
pub mod Rules
pub mod Operation
pub mod Process
pub mod Cleanup
pub mod Lease
