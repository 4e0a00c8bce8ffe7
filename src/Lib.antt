-- ===== src/Lib.antt =====
-- A verification library for Kogg, a desktop application that runs development work under a
-- registry of operations and processes.
--
-- Parts of the program and the files that model them
--
-- The operations registry (packages/kogg-operations/src/node/operation-registry.ts and
-- packages/kogg-operations/src/common/operations-protocol.ts) is modelled under Operations:
-- States, Kinds, Codes, Requests: the protocol's unions and records, with the request
--   validation; Transitions: `TERMINAL`, `TRANSITIONS` and `PROCESS_TRANSITIONS`.
-- Database: the four tables and the one row of `operation_meta`, as lists of rows in rowid
--   order, and the statements on them; Prune: the retention statement.
-- Registry: the state of `OperationRegistry` (tables, the `leases` map, `activityState`) and the
--   monad of its methods, which return or throw and leave a state in both cases.
-- Operation, Process, Cleanup: `startOperation`, `transitionOperation`, `activity`,
--   `registerProcess`, `transitionProcess`, `cleanupProcess`, `cleanupOperation`; Lease: the
--   methods of `DurableOperationLease` and `DurableProcessLease`, its timers, and `cancel`.
-- Recovery: `recover`; Supervisor: `onStop` and the start behind the recovery; Snapshot and
--   Attestation: the reads; OwnerEvents: the published kinds;
--   Texts, Publish: `publishOwnerEvents` and `mapOwnerEvent`, into the read model.
-- Calls: every call of a client or a timer as one value, and sequences of them.
-- Rows, Moves, Legal and the modules below it, Retention, Consistency, Evolution, Lifecycle,
--   CleanupResults, Admission, Timers, Reads, Retained, Recovered, Reconciled, Attested, Answers, Replay,
--   OwnerKinds and Published hold the proofs; Scenarios, Examples, AttestedExamples and
--   PublishedExample hold concrete runs.
-- The operations read model
-- (packages/kogg-operations/src/node/operations-read-model.ts, with the types of
-- packages/kogg-operations/src/common/operations-read-model-protocol.ts) takes the events that the
-- owners publish, and is modelled under ReadModel: Owners, Lifecycles, Events: the protocol's types;
-- Validate: `validateEvent`, `validatePayload`; Tables: the store's tables as lists of rows in rowid
-- order; Ingest: `ingest`, `registerOwner`, `reject`, `persistFault` and `rebuildDerived`; Runs, Holds,
-- Project: `projectEvent` and the projections it calls; Canonical, Metrics: `projectMetrics` and the
-- gauges; Changes: `appendChange`; Stream: `subscribe`; Retention: `applyRetention`, `rebuild`;
-- RunPages: `listRuns`; TimelinePages: `timeline`, `timelinePage`; MetricContracts: the contracts of
-- the metrics and `metrics`; Actions: `recordAction`, `actionReceipt`; Replay: the loop by which an
-- owner sends its log; Cursors: `encodeCursor`, `decodeCursor`; Snapshots: `snapshot`, `diagnostics` and
-- the reads beside them; Startup: `start`, `stop`, `rebuildDerived(false)` and the clients. Chained,
-- Effects, Outcomes, Bounded, Ended, Rebuilt, Streamed, Held, Paged, Receipts,
-- Positions, TimelineRead, Places, Ascending, Separate, Complete, Labels, Known, Contracted, Measured,
-- Metered, Delivered, Unopened and Coded hold the proofs, Scenarios, TimelineScenarios and
-- CursorScenarios concrete runs.
-- The provider streams (packages/kogg-providers/src/node/sse.ts) are modelled under Providers: Sse
-- holds `consumeSseStream`, Codex `handleCodexStreamEvent`, Frames and Chunks compare the stream
-- with the whole text, Reply is about the text of a reply, Scenarios a concrete stream.
-- The diagnostic owner journal (packages/kogg-core/src/node/diagnostic-owner-journal.ts) is modelled
-- under Core: Journal holds the log, `append` and the loop of `assertIntegrity`, Publish its
-- publication to the read model, Chain its proofs.
-- The authority over mode transitions
-- (packages/kogg-interaction-modes/src/node/mode-transition-authority.ts) is modelled under
-- InteractionModes: Authority holds its operations, Minted their laws.
-- The workflow compiler (packages/kogg-workflow/src/node/workflow-compiler.ts and
-- packages/kogg-workflow/src/node/workflow-node-catalog.ts, with the types of
-- packages/kogg-workflow/src/common/workflow-protocol.ts) is modelled under Workflow: Kinds, Effects
-- and Graph hold the types, Catalog the closed catalog, Maps the maps and sets, Checked a check that
-- passes or throws, Compiler the checks on nodes and edges, Search `reachable` and the search from the
-- root, Cycle `cycle`, Check `validateForkJoins` and `check`, Plan compilation and plan integrity.
-- NodeChecks, NodeMap, EdgeChecks, Passed, Sound, Reaches, Degrees, Release, Order, Acyclic, Forks
-- and Integrity hold the proofs, Scenarios a concrete graph.
-- Text holds the regular expressions that identifiers are tested with, and Prelude the shared
-- helpers.
--
-- Bounds and loops
--
-- Loops run over finite lists and are structural recursion. The inner loop of `consumeSseStream` runs
-- on fuel, the length of its buffer, which is enough since each frame is taken off it. A search over a
-- workflow graph runs on one more than the number of its edges, since a node's edges are put on the
-- queue once; the loop of `cycle` on the length of its queue and the sum of the degrees, since a node
-- that joins the queue has lowered a degree. The history of changes is cut to a thousand rows and to a
-- mebibyte by structural recursion on its rows. Sequence numbers are natural numbers. Times are
-- milliseconds as natural numbers; an identifier is a text.
--
-- What is not modelled
--
-- The digests of the journal are values of a parameter type, made by a parameter function of the texts
-- that are hashed and the digest before, and those of
-- the workflow compiler texts made by parameter functions; the executors that it asks for bindings are
-- a parameter too, and graphs are modelled after they are decoded. The read model asks a
-- parameter (`Platform`) for the SHA-256 digest, `JSON.stringify` of a text and of a number, the reading
-- and rendering of times and SQLite's `min` and `max`, and is given the identifier of a new epoch; its
-- store is open, its start begins behind the migration, with what the checks find given, and the
-- identifiers and times of faults and the update times of metrics are left out, and a rebuild takes the
-- accepted events as they were accepted, since `rowToEvent` reads back what was written. Where cursors are coded,
-- `base64url`, the HMAC and `JSON.parse` are a parameter (`Coding`), and elsewhere a cursor is the
-- position that it codes. What SQLite's own checks say is given to the diagnostics, the update times of
-- metrics to the retention, the identifiers of aggregates to the timeline, and to the clients whether
-- each of them takes a change. An event whose `safeCode` is a number other than 0 passes the validation
-- and then makes `safeCodeClass` throw in some projections; this error is not modelled.
-- The SQLite engine, the file system, the logger and the process table are not: what they tell the
-- code is a parameter (the clock and `randomUUID` as `Environment`, the host's processes as `Host`,
-- the end of a clean-up run as `RaceEnd`, the chunks of a stream, `JSON.parse` and
-- `JSON.stringify`). The registry is modelled after its start. Its calls are modelled without an attached
-- client or owner sink, so `changed()` does nothing in them; the publication that it makes where a sink
-- is attached is a function of its own, on the registry's tables and the read model's. The other
-- packages are not modelled.
pub mod Prelude
pub mod Operations
pub mod Text
pub mod Providers
pub mod Core
pub mod InteractionModes
pub mod Workflow
pub mod ReadModel
