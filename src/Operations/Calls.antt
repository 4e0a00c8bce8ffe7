-- ===== src/Operations/Calls.antt =====
-- Any sequence of calls on the registry, by its clients and by the timers:
-- packages/kogg-operations/src/node/operation-registry.ts.
use kogg.Prelude.{ℕ, String, Option, List, [], ◌∷◌}
use kogg.Operations.Codes.{OperationSafeCode, ExitClass}
use kogg.Operations.Requests.{StartOperation, StartProcess}
use kogg.Operations.Registry.{Environment, Registry, state_after}
use kogg.Operations.Operation.{start_operation, activity}
use kogg.Operations.Process.{
  process_spawning, process_started, process_ready, process_failed, process_exited, cleanup_process,
}
use kogg.Operations.Cleanup.{RaceEnd, Settled, cleanup_operation}
use kogg.Operations.Lease.{
  start, lease_active, waiting, observe, refuse, complete, fail, timeout, lease_register_process,
  lease_cancel, Timer, cancel_after_timeout, CancelRequest, cancel,
}

-- The calls, each with what the outside contributes to it.
pub data Call : Type 0 where
  starts_operation : StartOperation → Call
  starts activates waits observes : String → Call
  refuses : String → OperationSafeCode → Call
  completes : String → Option OperationSafeCode → Call
  fails : String → OperationSafeCode → String → Call
  times_out : String → OperationSafeCode → Call
  cleans_up : String → RaceEnd → Call
  cancels_lease : String → List Settled → Call
  fires : String → Timer → List Settled → Call
  cancels : CancelRequest → List Settled → Call
  registers_process : String → StartProcess → Call
  process_spawns process_is_ready process_cleans : String → String → Call
  process_starts : String → String → ℕ → Option String → Call
  process_fails : String → String → OperationSafeCode → String → Call
  process_exits : String → String → ExitClass → Option String → Call
  process_is_active : String → String → Call

-- The registry after one call, whether it returned or threw.
unfoldable pub call : Environment → Call → Registry → Registry
call env (starts_operation request) r = state_after (start_operation env request r)
call env (starts id) r = state_after (start env id r)
call env (activates id) r = state_after (lease_active env id r)
call env (waits id) r = state_after (waiting env id r)
call env (observes id) r = state_after (observe env id r)
call env (refuses id code) r = state_after (refuse env id code r)
call env (completes id code) r = state_after (complete env id code r)
call env (fails id code error) r = state_after (fail env id code error r)
call env (times_out id code) r = state_after (timeout env id code r)
call env (cleans_up id end) r = state_after (cleanup_operation env id (λ r'. (end, r')) r)
call env (cancels_lease id settled) r = state_after (lease_cancel env id settled r)
call env (fires id timer settled) r = cancel_after_timeout env id timer settled r
call env (cancels request settled) r = state_after (cancel env request settled r)
call env (registers_process id request) r = state_after (lease_register_process env id request r)
call env (process_spawns o id) r = state_after (process_spawning env o id r)
call env (process_is_ready o id) r = state_after (process_ready env o id r)
call env (process_cleans o id) r = state_after (cleanup_process env o id r)
call env (process_starts o id pid fingerprint) r =
    state_after (process_started env o id pid fingerprint r)
call env (process_fails o id code error) r = state_after (process_failed env o id code error r)
call env (process_exits o id class digest) r = state_after (process_exited env o id class digest r)
call env (process_is_active o id) r = state_after (activity env o (Option.some id) r)

unfoldable pub run : Registry → List (Environment × Call) → Registry
run r [] = r
run r ((env, c) ∷ cs) = run (call env c r) cs
