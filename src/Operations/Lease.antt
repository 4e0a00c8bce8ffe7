-- ===== src/Operations/Lease.antt =====
-- `DurableOperationLease`, and the `cancel` of the registry that works through it:
-- packages/kogg-operations/src/node/operation-registry.ts.
use kogg.Prelude.{
  ℕ, String, String-Eq, false, Option, none, some, List, [], ◌∷◌, ◌++◌, ◌==◌, any, find?, is_some,
  if◌then◌else◌,
}
use kogg.Text.{is_uuid}
use kogg.Operations.States.{OperationState}
use kogg.Operations.Codes.{OperationSafeCode}
use kogg.Operations.Requests.{StartProcess}
use kogg.Operations.Database.{
  EventName, RegistryError, RequestRow, Database, Result, success, failure, bump,
}
use kogg.Operations.Operation.{transition_operation, activity}
use kogg.Operations.Process.{register_process}
use kogg.Operations.Cleanup.{CleanupRun, Settled, cleanup_operation, cancel_processes}
use kogg.Operations.Registry.{
  guard, Environment, OperationLease, Registry, ok, thrown, M, ◌>>=◌, ◌>>◌, return, transaction,
  update_leases, find_lease, lease_object,
}

unfoldable pub change_lease : String → (OperationLease → OperationLease) → M (Unit {0})
change_lease id change r = ok tt (record r { leases = update_leases id change r.leases })

-- `armIdle` and `arm`: a timer is set where a limit was given.
unfoldable pub arm_idle : String → M (Unit {0})
arm_idle id = change_lease id (λ l. record l { idle_armed = is_some l.idle })

unfoldable pub arm : String → M (Unit {0})
arm id =
    change_lease id
      (λ l. record l { absolute_armed = is_some l.absolute; idle_armed = is_some l.idle })

-- `clear`: both timers are taken down.
unfoldable pub clear : String → M (Unit {0})
clear id = change_lease id (λ l. record l { absolute_armed = false; idle_armed = false })

unfoldable pub start : Environment → String → M (Unit {0})
start env id = do
  transition_operation env id OperationState.starting EventName.operation_started none none
  arm id

unfoldable pub lease_active : Environment → String → M (Unit {0})
lease_active env id = do
  transition_operation env id OperationState.active EventName.operation_active none none
  arm_idle id

unfoldable pub waiting : Environment → String → M (Unit {0})
waiting env id = do
  transition_operation env id OperationState.waiting EventName.operation_waiting none none
  arm_idle id

unfoldable pub observe : Environment → String → M (Unit {0})
observe env id = do activity env id none; arm_idle id

unfoldable pub refuse : Environment → String → OperationSafeCode → M (Unit {0})
refuse env id code = do
  clear id
  transition_operation env id OperationState.refused EventName.operation_refused (some code) none

unfoldable pub complete : Environment → String → Option OperationSafeCode → M (Unit {0})
complete env id code = do
  clear id
  transition_operation env id OperationState.completed EventName.operation_completed code none

unfoldable pub fail : Environment → String → OperationSafeCode → String → M (Unit {0})
fail env id code error = do
  clear id
  transition_operation env id OperationState.failed EventName.operation_failed (some code)
      (some error)

unfoldable pub timeout : Environment → String → OperationSafeCode → M (Unit {0})
timeout env id code = do
  clear id
  transition_operation env id OperationState.timed_out EventName.operation_timeout (some code) none

unfoldable pub add_process : String → String → M String
add_process id process_id = do
  change_lease id (λ l. record l { processes = l.processes ++ process_id ∷ [] })
  return process_id

unfoldable pub lease_register_process : Environment → String → StartProcess → M String
lease_register_process env id request = do
  process_id ← register_process env id request
  add_process id process_id

-- The processes of the lease object.
unfoldable pub processes_of : String → List OperationLease → List String
processes_of id leases = elim (lease_object id leases) [ none ↦ [] | some l ↦ l.processes ]

-- The run that `cancel` and `cancelAfterTimeout` hand to `cleanup`.
unfoldable pub cancel_run : Environment → String → List Settled → CleanupRun
cancel_run env id settled r = cancel_processes env id settled (processes_of id r.leases) r

unfoldable pub lease_cancel : Environment → String → List Settled → M (Unit {0})
lease_cancel env id settled = do
  transition_operation env id OperationState.cancelling EventName.operation_cancelling none none
  cleanup_operation env id (cancel_run env id settled)
  transition_operation env id OperationState.cancelled EventName.operation_cancelled none none

-- The two timers.
pub data Timer : Type 0 where
  absolute_timer idle_timer : Timer

unfoldable pub timer_code : Timer → OperationSafeCode
timer_code absolute_timer = OperationSafeCode.operation_absolute_timeout
timer_code idle_timer = OperationSafeCode.operation_idle_timeout

unfoldable pub mark_stalled : Environment → String → Timer → M (Unit {0})
mark_stalled env id absolute_timer = return tt
mark_stalled env id idle_timer =
    transition_operation env id OperationState.stalled EventName.operation_stalled
      (some OperationSafeCode.operation_idle_timeout) none

-- The `try` of `cancelAfterTimeout`.
unfoldable pub timeout_steps : Environment → String → Timer → List Settled → M (Unit {0})
timeout_steps env id timer settled = do
  mark_stalled env id timer
  timeout env id (timer_code timer)
  cleanup_operation env id (cancel_run env id settled)

-- `cancelAfterTimeout`: whatever is thrown is logged and dropped.
unfoldable pub cancel_after_timeout :
    Environment → String → Timer → List Settled → Registry → Registry
cancel_after_timeout env id timer settled r = elim (timeout_steps env id timer settled r) [
  | ok _ r' ↦ r'
  | thrown e r' ↦ r'
]

pub record CancelRequest : Type 0 where
  pub request_id : String
  pub operation_id : String

unfoldable pub find_request : String → Database → Option RequestRow
find_request id db = find? (λ (q : RequestRow). q.request_id == id) db.request_results

unfoldable pub request_row : ℕ → CancelRequest → RequestRow
request_row now request = record {
  request_id = request.request_id;
  operation_id = request.operation_id;
  safe_code = OperationSafeCode.operation_cancelled;
  created_at = now;
}

-- The statements that end `cancel`; the request is the primary key.
unfoldable pub record_statements : ℕ → CancelRequest → Database → Result Database
record_statements now request db =
    if any (λ (q : RequestRow). q.request_id == request.request_id) db.request_results
    then failure RegistryError.constraint_failed
    else success
        (bump (record db { request_results = db.request_results ++ request_row now request ∷ [] }))

-- The lease that the map holds, which must be cancellable.
unfoldable pub require_lease : String → M (Unit {0})
require_lease id r = elim (find_lease id r.leases) [
  | none ↦ thrown RegistryError.not_active r
  | some lease ↦ guard lease.cancellable RegistryError.not_cancellable r
]

unfoldable pub cancel_fresh : Environment → CancelRequest → List Settled → M (Unit {0})
cancel_fresh env request settled = do
  require_lease request.operation_id
  lease_cancel env request.operation_id settled
  transaction (record_statements env.now request)

-- A request that was answered before is answered again, without a change.
unfoldable pub replay_or : CancelRequest → M (Unit {0}) → M (Unit {0})
replay_or request fresh r = elim (find_request request.request_id r.database) [
  | none ↦ fresh r
  | some replay ↦
      guard (replay.operation_id == request.operation_id) RegistryError.replay_mismatch r
]

-- `cancel`; the snapshot that it returns is `read_snapshot` of the state that it leaves.
unfoldable pub cancel : Environment → CancelRequest → List Settled → M (Unit {0})
cancel env request settled = do
  guard (is_uuid request.request_id) RegistryError.cancel_request_invalid
  guard (is_uuid request.operation_id) RegistryError.cancel_request_invalid
  replay_or request (cancel_fresh env request settled)
