-- ===== src/Operations/OwnerEvents.antt =====
-- How the rows of the event log are named for the read model: `ownerEventKind` and the functions
-- beside it in packages/kogg-operations/src/node/operation-registry.ts.
use kogg.Prelude.{
  String, String-Eq, Bool, true, false, List, [], ◌∷◌, ◌==◌, includes, if◌then◌else◌,
}
use kogg.Operations.States.{CleanupState}
use kogg.Operations.Database.{EventName}

-- The kind of a row that names a process, and of one that names none.
unfoldable pub owner_event_kind : EventName → Bool → String
owner_event_kind EventName.process_registered true = "process.reserved"
owner_event_kind EventName.process_spawn_started true = "process.spawning"
owner_event_kind EventName.process_started true = "process.started"
owner_event_kind EventName.process_ready true = "process.ready"
owner_event_kind EventName.process_activity true = "process.activity"
owner_event_kind EventName.process_failed true = "process.spawn-failed"
owner_event_kind EventName.process_exit true = "process.exited"
owner_event_kind EventName.cleanup_started true = "process.cleaning"
owner_event_kind EventName.cleanup_completed true = "process.cleaned"
owner_event_kind EventName.recovery_process_observed true = "process.ready"
owner_event_kind EventName.recovery_completed true = "process.cleaned"
owner_event_kind EventName.process_possible_residual true = "process.residual"
owner_event_kind EventName.operation_requested false = "operation.requested"
owner_event_kind EventName.operation_started false = "operation.started"
owner_event_kind EventName.operation_active false = "operation.active"
owner_event_kind EventName.operation_waiting false = "operation.waiting"
owner_event_kind EventName.operation_stalled false = "operation.stalled"
owner_event_kind EventName.operation_cancelling false = "operation.cancelling"
owner_event_kind EventName.operation_completed false = "operation.completed"
owner_event_kind EventName.operation_failed false = "operation.failed"
owner_event_kind EventName.operation_timeout false = "operation.timed-out"
owner_event_kind EventName.operation_cancelled false = "operation.cancelled"
owner_event_kind EventName.operation_refused false = "operation.refused"
owner_event_kind EventName.cleanup_started false = "operation.cleaning"
owner_event_kind EventName.cleanup_completed false = "operation.completed"
owner_event_kind EventName.recovery_started false = "operation.started"
owner_event_kind EventName.recovery_completed false = "operation.recovered"
owner_event_kind EventName.recovery_failed false = "operation.failed"
owner_event_kind _ true = "process.inventory-unknown"
owner_event_kind _ false = "operation.failed"

-- `OWNER_EVENT_KINDS.operation`.
unfoldable pub operation_event_kinds : List String
operation_event_kinds =
    "operation.requested" ∷ "operation.started" ∷ "operation.active" ∷ "operation.waiting"
    ∷ "operation.stalled" ∷ "operation.cancelling" ∷ "operation.cleaning" ∷ "operation.completed"
    ∷ "operation.failed" ∷ "operation.timed-out" ∷ "operation.cancelled" ∷ "operation.refused"
    ∷ "operation.recovered" ∷ "process.reserved" ∷ "process.spawning" ∷ "process.started"
    ∷ "process.ready" ∷ "process.activity" ∷ "process.exited" ∷ "process.cancelling"
    ∷ "process.cleaning" ∷ "process.cleaned" ∷ "process.spawn-failed" ∷ "process.timed-out"
    ∷ "process.residual" ∷ "process.lost" ∷ "process.quarantined" ∷ "process.inventory-unknown"
    ∷ "incident.retention-released" ∷ []

-- `processCleanupFor`.
unfoldable pub process_cleanup_for : String → CleanupState
process_cleanup_for kind =
    if kind == "process.cleaned"
    then CleanupState.cleaned
    else if kind == "process.cleaning"
    then CleanupState.cleaning
    else if includes
        ("process.residual" ∷ "process.lost" ∷ "process.quarantined" ∷ "process.inventory-unknown"
          ∷ [])
        kind
    then CleanupState.failed
    else CleanupState.required

-- `mapOwnerEvent`, as far as the kind and the clean-up state of its payload.
abbrev pub published_cleanup : EventName → CleanupState
published_cleanup name = process_cleanup_for (owner_event_kind name true)
