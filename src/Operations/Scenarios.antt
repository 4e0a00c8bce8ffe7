-- ===== src/Operations/Scenarios.antt =====
-- A registry with one completed operation, and what the results say of it:
-- packages/kogg-operations/src/node/operation-registry.ts.
use kogg.Prelude.{
  ◌≢◌, false, String, String-Eq, true, none, some, List, [], ◌∷◌, ◌≡◌, refl, ◌⊎◌, arith,
}
use kogg.Operations.States.{OperationState, CleanupState}
use kogg.Operations.Kinds.{OperationKind}
use kogg.Operations.Codes.{OperationSafeCode, Admission}
use kogg.Operations.Requests.{OperationCorrelations, StartOperation}
use kogg.Operations.Database.{OperationRow, EventName, Database, Meta}
use kogg.Operations.Registry.{Environment, Registry}
use kogg.Operations.Cleanup.{cleanup_operation, no_run}
use kogg.Operations.Calls.{Call, run}
use kogg.Operations.Prune.{ids}
use kogg.Operations.Transitions.{is_terminal}
use kogg.Operations.Moves.{state_of}
use kogg.Operations.Consistency.{IsConsistent}
use kogg.Operations.Lifecycle.{NeverOpens, opens, opened_by, run-IsConsistent, run-terminal}
use kogg.Operations.CleanupResults.{Ends, cleanup_operation-Ends}
use kogg.Operations.Admission.{RefusesUnchanged, start_operation-shut}
use kogg.Operations.Operation.{start_operation, is_lifecycle_kind}

abbrev pub first_id : String
first_id = "3f2504e0-4f89-41d3-9a0c-0305e82c3301"

abbrev pub second_id : String
second_id = "3f2504e0-4f89-41d3-9a0c-0305e82c3302"

abbrev pub process_id : String
process_id = "3f2504e0-4f89-41d3-9a0c-0305e82c33aa"

abbrev pub unrelated : OperationCorrelations
unrelated = record {
  project_id = none;
  task_id = none;
  run_id = none;
  attempt_id = none;
  session_id = none;
  worktree_id = none;
}

abbrev pub completed_row : OperationRow
completed_row = record {
  id = first_id;
  kind = OperationKind.build;
  state = OperationState.completed;
  cleanup_state = CleanupState.not_required;
  safe_code = some OperationSafeCode.operations_ok;
  correlations = unrelated;
  owner_instance_id = "instance";
  requested_at = 10;
  updated_at = 40;
  last_activity_at = none;
  activity_count = 0;
  error_type = none;
  revision = 4;
}

abbrev pub meta_with : Admission → Meta
meta_with admission = record {
  revision = 5;
  instance_id = "instance";
  owner_id = "owner";
  owner_epoch_id = "epoch";
  admission = admission;
}

abbrev pub database_with : Admission → Database
database_with admission = record {
  meta = meta_with admission;
  operations = completed_row ∷ [];
  processes = [];
  events =
      record {
        sequence = 1;
        operation_id = first_id;
        process_id = none;
        event_name = EventName.operation_completed;
        created_at = 40;
      }
      ∷ [];
  last_sequence = 1;
  request_results = [];
}

abbrev pub registry_with : Admission → Registry
registry_with admission = record {
  database = database_with admission;
  leases = [];
  activity_state = [];
  instance_id = "instance";
}

abbrev pub open_registry : Registry
open_registry = registry_with Admission.enabled

pub database_with-IsConsistent : (admission : Admission) → IsConsistent (database_with admission)
unfolding ids
database_with-IsConsistent admission = record {
  operation_keys = (refl, tt);
  process_keys = tt;
  process_parents = tt;
  event_parents = (refl, tt);
  event_order = (omega arith, omega arith);
}

abbrev pub clock : Environment
clock = record { now = 100; random_uuid = second_id }

abbrev pub build_request : StartOperation
build_request = record {
  id = some second_id;
  kind = OperationKind.build;
  correlations = some unrelated;
  absolute_timeout_ms = some 1000;
  idle_timeout_ms = none;
  cancellable = some true;
}

-- A second operation is opened, runs, is completed twice, and is asked to start again.
abbrev calls : List (Environment × Call)
calls =
    (clock, Call.starts_operation build_request)
    ∷ (clock, Call.starts second_id)
    ∷ (clock, Call.activates second_id)
    ∷ (clock, Call.completes second_id (some OperationSafeCode.operations_ok))
    ∷ (clock, Call.completes second_id none)
    ∷ (clock, Call.starts second_id)
    ∷ (clock, Call.fails first_id OperationSafeCode.operations_refused "Error")
    ∷ []

run-IsConsistent_example : IsConsistent (run open_registry calls).database
run-IsConsistent_example =
    run-IsConsistent open_registry calls (database_with-IsConsistent Admission.enabled)

-- What follows the opening of the second operation.
abbrev later_calls : List (Environment × Call)
later_calls =
    (clock, Call.starts second_id)
    ∷ (clock, Call.activates second_id)
    ∷ (clock, Call.fails first_id OperationSafeCode.operations_refused "Error")
    ∷ []

later_calls-NeverOpens : (id : String) → NeverOpens id later_calls
unfolding opens opened_by
later_calls-NeverOpens id = (refl, (refl, (refl, tt)))

run-terminal_example :
    (state_of first_id (run open_registry later_calls).database ≡ some OperationState.completed)
    ⊎ (state_of first_id (run open_registry later_calls).database ≡ none)
run-terminal_example =
    run-terminal open_registry later_calls first_id OperationState.completed
      (database_with-IsConsistent Admission.enabled) (later_calls-NeverOpens first_id) refl
      (unfold is_terminal in refl)

cleanup_operation-Ends_example :
    Ends first_id (cleanup_operation clock first_id no_run open_registry)
cleanup_operation-Ends_example =
    cleanup_operation-Ends clock first_id no_run open_registry refl (λ s h. h)

blocked_is_shut : Admission.blocked ≢ Admission.enabled
blocked_is_shut = cc

build_is_not_lifecycle : is_lifecycle_kind OperationKind.build ≡ false
unfolding is_lifecycle_kind
build_is_not_lifecycle = refl

start_operation-shut_example :
    RefusesUnchanged
      (registry_with Admission.blocked)
      (start_operation clock build_request (registry_with Admission.blocked))
start_operation-shut_example =
    start_operation-shut clock build_request (registry_with Admission.blocked) blocked_is_shut
      build_is_not_lifecycle
