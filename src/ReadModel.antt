-- ===== src/ReadModel.antt =====
-- The read model of packages/kogg-operations/src/node/operations-read-model.ts.
pub mod Owners
pub mod Lifecycles
pub mod Events
pub mod Canonical
pub mod Validate
pub mod Tables
pub mod Runs
pub mod Holds
pub mod Project
pub mod Metrics
pub mod Changes
pub mod Ingest
pub mod Chained
pub mod Effects
pub mod Bounded
pub mod Ended
pub mod Rebuilt
pub mod Stream
pub mod Streamed
pub mod Retention
pub mod Held
pub mod RunPages
pub mod Paged
pub mod MetricContracts
pub mod Contracted
pub mod Known
pub mod Labels
pub mod Measured
pub mod Metered
pub mod TimelinePages
pub mod Positions
pub mod TimelineRead
pub mod Replay
pub mod Delivered
pub mod Outcomes
pub mod Unopened
pub mod Cursors
pub mod Coded
pub mod CursorScenarios
pub mod Snapshots
pub mod Ascending
pub mod Separate
pub mod Places
pub mod Complete
pub mod Startup
pub mod Actions
pub mod Receipts
pub mod Scenarios
pub mod TimelineScenarios
