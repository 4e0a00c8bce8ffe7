-- ===== src/Operations.antt =====
-- The operations registry: packages/kogg-operations/src.
pub mod States
pub mod Kinds
pub mod Codes
pub mod Transitions
pub mod Requests
pub mod Database
pub mod Prune
pub mod Registry
pub mod Operation
pub mod Process
pub mod Cleanup
pub mod Lease
pub mod Recovery
pub mod Snapshot
pub mod Attestation
pub mod Rows
pub mod Moves
pub mod Legal
pub mod Retention
pub mod Consistency
pub mod Evolution
pub mod Calls
pub mod Lifecycle
pub mod CleanupResults
pub mod Admission
pub mod Timers
pub mod Reads
pub mod Attested
pub mod Retained
pub mod Recovered
pub mod Reconciled
pub mod Answers
pub mod Replay
pub mod Examples
pub mod AttestedExamples
pub mod OwnerEvents
pub mod Texts
pub mod Publish
pub mod Published
pub mod Supervisor
pub mod PublishedExample
pub mod OwnerKinds
pub mod Scenarios
