-- ===== src/Operations/OwnerKinds.antt =====
-- What the published kinds are: packages/kogg-operations/src/node/operation-registry.ts.
use kogg.Prelude.{String-Eq, Bool, true, false, ◌≡◌, refl, includes}
use kogg.Operations.Database.{EventName}
use kogg.Operations.OwnerEvents.{owner_event_kind, operation_event_kinds}

-- Every row of the event log is published under a kind that the read model lists for operations.
pub owner_event_kind-listed :
    (name : EventName) (of_process : Bool)
    → includes operation_event_kinds (owner_event_kind name of_process) ≡ true
unfolding owner_event_kind operation_event_kinds
owner_event_kind-listed EventName.operation_requested true = refl
owner_event_kind-listed EventName.operation_requested false = refl
owner_event_kind-listed EventName.operation_started true = refl
owner_event_kind-listed EventName.operation_started false = refl
owner_event_kind-listed EventName.operation_active true = refl
owner_event_kind-listed EventName.operation_active false = refl
owner_event_kind-listed EventName.operation_waiting true = refl
owner_event_kind-listed EventName.operation_waiting false = refl
owner_event_kind-listed EventName.operation_stalled true = refl
owner_event_kind-listed EventName.operation_stalled false = refl
owner_event_kind-listed EventName.operation_cancelling true = refl
owner_event_kind-listed EventName.operation_cancelling false = refl
owner_event_kind-listed EventName.operation_completed true = refl
owner_event_kind-listed EventName.operation_completed false = refl
owner_event_kind-listed EventName.operation_failed true = refl
owner_event_kind-listed EventName.operation_failed false = refl
owner_event_kind-listed EventName.operation_timeout true = refl
owner_event_kind-listed EventName.operation_timeout false = refl
owner_event_kind-listed EventName.operation_cancelled true = refl
owner_event_kind-listed EventName.operation_cancelled false = refl
owner_event_kind-listed EventName.operation_refused true = refl
owner_event_kind-listed EventName.operation_refused false = refl
owner_event_kind-listed EventName.process_registered true = refl
owner_event_kind-listed EventName.process_registered false = refl
owner_event_kind-listed EventName.process_spawn_started true = refl
owner_event_kind-listed EventName.process_spawn_started false = refl
owner_event_kind-listed EventName.process_started true = refl
owner_event_kind-listed EventName.process_started false = refl
owner_event_kind-listed EventName.process_ready true = refl
owner_event_kind-listed EventName.process_ready false = refl
owner_event_kind-listed EventName.process_activity true = refl
owner_event_kind-listed EventName.process_activity false = refl
owner_event_kind-listed EventName.process_failed true = refl
owner_event_kind-listed EventName.process_failed false = refl
owner_event_kind-listed EventName.process_exit true = refl
owner_event_kind-listed EventName.process_exit false = refl
owner_event_kind-listed EventName.process_possible_residual true = refl
owner_event_kind-listed EventName.process_possible_residual false = refl
owner_event_kind-listed EventName.cleanup_started true = refl
owner_event_kind-listed EventName.cleanup_started false = refl
owner_event_kind-listed EventName.cleanup_completed true = refl
owner_event_kind-listed EventName.cleanup_completed false = refl
owner_event_kind-listed EventName.cleanup_failed true = refl
owner_event_kind-listed EventName.cleanup_failed false = refl
owner_event_kind-listed EventName.recovery_started true = refl
owner_event_kind-listed EventName.recovery_started false = refl
owner_event_kind-listed EventName.recovery_process_observed true = refl
owner_event_kind-listed EventName.recovery_process_observed false = refl
owner_event_kind-listed EventName.recovery_completed true = refl
owner_event_kind-listed EventName.recovery_completed false = refl
owner_event_kind-listed EventName.recovery_failed true = refl
owner_event_kind-listed EventName.recovery_failed false = refl
