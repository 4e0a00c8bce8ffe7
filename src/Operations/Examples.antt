-- ===== src/Operations/Examples.antt =====
-- Concrete rows for the timers, the reads, retention, recovery and cancellation:
-- packages/kogg-operations/src/node/operation-registry.ts.
use kogg.Prelude.{
  List, includes, ◌≤◌, String-Eq, true, false, not, ◌&&◌, none, some, [], ◌∷◌, ◌≡◌, refl, arith,
  ◌==◌, any, filter, length,
}
use kogg.Operations.States.{OperationState}
use kogg.Operations.Codes.{Admission}
use kogg.Operations.Transitions.{transitions, is_terminal, may_become}
use kogg.Operations.Database.{
  EventName, append_event, update_operations, bump, event_row, update_processes, OperationRow,
  Database, success,
}
use kogg.Operations.Registry.{
  Environment, ◌>>=◌, transaction, commit, delete_activity, get_activity, update_leases, Registry,
  OperationLease, ok, state_after,
}
use kogg.Operations.Prune.{
  delete_events, delete_operations, delete_processes, ids, insert_newest, is_unclean_process_of,
  newest_first, old, prune, is_prunable,
}
use kogg.Operations.Recovery.{Host, recover}
use kogg.Operations.Snapshot.{OperationSummary, read_snapshot}
use kogg.Operations.Lease.{
  replay_or, find_request, cancel_fresh, require_lease, lease_cancel, cancel_run, processes_of,
  record_statements, request_row, CancelRequest, cancel, cancel_after_timeout, idle_timer,
}
use kogg.Operations.Timers.{idle_timer-without_edge}
use kogg.Operations.Reads.{IsPartition, read_snapshot-IsPartition, read_snapshot_complete}
use kogg.Operations.Retained.{unclean, prune-unclean, prune-bound}
use kogg.Operations.Reconciled.{IsReconciled, recover-IsReconciled}
use kogg.Operations.OwnerEvents.{owner_event_kind, operation_event_kinds}
use kogg.Operations.OwnerKinds.{owner_event_kind-listed}
use kogg.Operations.Calls.{Call, run}
use kogg.Operations.Replay.{cancel-idempotent}
use kogg.Text.{is_uuid}
use kogg.Operations.Operation.{
  transition_operation, operation_row, advance, transition_statements, forget, flush_activity,
}
use kogg.Operations.Cleanup.{
  after_cancel, after_race, cancel_processes, catch_cleanup, cleaned_statements,
  cleaning_statements, cleanup_failed_statements, cleanup_operation, fail_cleanup, finish_cleanup,
  has_dirty_process, is_dirty_process_of, race,
}
use kogg.Operations.Scenarios.{
  build_request, first_id, second_id, completed_row, clock, open_registry, database_with,
  database_with-IsConsistent,
}

abbrev starting_row : OperationRow
starting_row = record completed_row { state = OperationState.starting; safe_code = none }

abbrev starting_lease : OperationLease
starting_lease = record {
  id = first_id;
  cancellable = true;
  absolute = none;
  idle = some 1000;
  processes = [];
  registered = true;
  absolute_armed = false;
  idle_armed = true;
}

abbrev starting_registry : Registry
starting_registry = record open_registry {
  database = record (database_with Admission.enabled) { operations = starting_row ∷ [] };
  leases = starting_lease ∷ [];
}

starting_is_not_terminal : is_terminal OperationState.starting ≡ false
unfolding is_terminal
starting_is_not_terminal = refl

starting_may_not_stall : may_become OperationState.starting OperationState.stalled ≡ false
unfolding may_become
starting_may_not_stall = refl

idle_timer-without_edge_example :
    cancel_after_timeout clock first_id idle_timer [] starting_registry ≡ starting_registry
idle_timer-without_edge_example =
    idle_timer-without_edge clock first_id [] OperationState.starting starting_registry refl
      starting_is_not_terminal starting_may_not_stall

read_snapshot-IsPartition_example :
    IsPartition starting_registry.database.operations (read_snapshot starting_registry)
read_snapshot-IsPartition_example = read_snapshot-IsPartition starting_registry

one_is_few : length starting_registry.database.operations ≤ 200
one_is_few = omega arith

read_snapshot_complete_example :
    any (λ (s : OperationSummary). s.id == first_id) (read_snapshot starting_registry).active
    ≡ any
        (λ (o : OperationRow). not (is_terminal o.state) && o.id == first_id)
        starting_registry.database.operations
read_snapshot_complete_example = read_snapshot_complete starting_registry first_id one_is_few

prune-unclean_example :
    unclean (prune (database_with Admission.enabled)).processes
    ≡ unclean (database_with Admission.enabled).processes
prune-unclean_example = prune-unclean (database_with Admission.enabled)

prune-bound_example :
    length (
      filter
        (is_prunable (prune (database_with Admission.enabled)).processes)
        (prune (database_with Admission.enabled)).operations)
    ≤ 100
prune-bound_example = prune-bound (database_with Admission.enabled)

abbrev quiet_host : Host
quiet_host = record { is_alive = λ _. false; fingerprint_for = λ _. none; terminates = λ _. true }

recover-IsReconciled_example :
    (db' : Database) × (recover quiet_host 200 "next" (database_with Admission.blocked)
      ≡ success db')
    × IsReconciled db'
recover-IsReconciled_example =
    recover-IsReconciled quiet_host 200 "next" (database_with Admission.blocked)
      (database_with-IsConsistent Admission.blocked)

abbrev cancel_request : CancelRequest
cancel_request = record { request_id = second_id; operation_id = first_id }

abbrev cancelled_registry : Registry
cancelled_registry = state_after (cancel clock cancel_request [] starting_registry)

cancel_returns : cancel clock cancel_request [] starting_registry ≡ ok tt cancelled_registry
unfolding cancel ◌>>=◌ is_uuid replay_or find_request cancel_fresh require_lease lease_cancel
    transition_operation is_terminal operation_row advance may_become transaction
    transition_statements append_event update_operations forget after_cancel after_race
    cancel_processes catch_cleanup cleaned_statements cleaning_statements cleanup_failed_statements
    cleanup_operation fail_cleanup finish_cleanup has_dirty_process is_dirty_process_of race bump
    event_row update_processes cancel_run processes_of record_statements request_row flush_activity
    delete_events delete_operations delete_processes ids insert_newest is_prunable
    is_unclean_process_of newest_first old prune commit delete_activity get_activity update_leases
    transitions
cancel_returns = refl

-- What is called between the answer and the resend.
abbrev between : List (Environment × Call)
between = (clock, Call.starts_operation build_request) ∷ (clock, Call.starts second_id) ∷ []

cancel-idempotent_example :
    cancel (record clock { now = 900 }) cancel_request [] (run cancelled_registry between)
    ≡ ok tt (run cancelled_registry between)
cancel-idempotent_example =
    cancel-idempotent clock (record clock { now = 900 }) cancel_request [] [] starting_registry
      cancelled_registry between cancel_returns

owner_event_kind-listed_example :
    includes operation_event_kinds (owner_event_kind EventName.process_activity false) ≡ true
owner_event_kind-listed_example = owner_event_kind-listed EventName.process_activity false
