-- ===== src/Operations/Cleanup.antt =====
-- `cleanupOperation` of packages/kogg-operations/src/node/operation-registry.ts.
use kogg.Prelude.{
  true, false, ℕ, suc, String, String-Eq, Bool, false, not, none, some, List, [], ◌∷◌, ◌==◌, any,
  filter, includes, if◌then◌else◌,
}
use kogg.Operations.States.{CleanupState, CleanupState-Eq}
use kogg.Operations.Codes.{OperationSafeCode, Admission}
use kogg.Operations.Database
use kogg.Operations.Database.{
  EventName, RegistryError, OperationRow, ProcessRow, Database, Result, success, failure,
  on_operation, append_event, bump, set_admission,
}
use kogg.Operations.Process.{cleanup_process}
use kogg.Operations.Registry.{
  Environment, Registry, Outcome, ok, thrown, M, ◌>>◌, throw, transaction,
}

-- How the race between the clean-up's `run` and the timer ends, with the state that `run` leaves.
pub data RaceEnd : Type 0 where
  resolved rejected timed_out : RaceEnd

abbrev pub CleanupRun : Type 0
CleanupRun = Registry → RaceEnd × Registry

-- `run?.() ?? Promise.resolve()` where no `run` is given.
abbrev pub no_run : CleanupRun
no_run r = (resolved, r)

unfoldable pub cleaning_statements : ℕ → String → Database → Result Database
cleaning_statements now id db =
    Database.◌>>=◌
      (append_event now id none EventName.cleanup_started (
        on_operation id
          (λ o. record o {
            cleanup_state = CleanupState.cleaning;
            updated_at = now;
            revision = suc o.revision;
          })
          db))
      (λ db'. success (bump db'))

unfoldable pub cleaned_statements : ℕ → String → Database → Result Database
cleaned_statements now id db =
    Database.◌>>=◌
      (append_event now id none EventName.cleanup_completed (
        on_operation id
          (λ o. record o {
            cleanup_state = CleanupState.cleaned;
            updated_at = now;
            revision = suc o.revision;
          })
          db))
      (λ db'. success (bump db'))

-- The statements of the `catch`; they block admission, and do not bump a second time.
unfoldable pub cleanup_failed_statements :
    ℕ → String → OperationSafeCode → Database → Result Database
cleanup_failed_statements now id code db =
    Database.◌>>=◌
      (append_event now id none EventName.cleanup_failed (
        on_operation id
          (λ o. record o {
            cleanup_state = CleanupState.failed;
            safe_code = some code;
            updated_at = now;
            revision = suc o.revision;
          })
          db))
      (λ db'. success (set_admission Admission.blocked db'))

-- A registered process of the operation that is not cleaned.
unfoldable pub is_dirty_process_of : String → ProcessRow → Bool
is_dirty_process_of id p =
    if p.operation_id == id then not (p.cleanup_state == CleanupState.cleaned) else false

unfoldable pub has_dirty_process : String → Database → Bool
has_dirty_process id db = any (is_dirty_process_of id) db.processes

-- The `catch`: the failure is written down, then the error is thrown on.
unfoldable pub fail_cleanup :
    Environment → String → OperationSafeCode → RegistryError → M (Unit {0})
fail_cleanup env id code error = do
  transaction (cleanup_failed_statements env.now id code)
  throw error

-- An error of the last transaction is caught like the rest.
unfoldable pub catch_cleanup : Environment → String → Outcome (Unit {0}) → Outcome (Unit {0})
catch_cleanup env id (ok a r) = ok a r
catch_cleanup env id (thrown e r) = fail_cleanup env id OperationSafeCode.cleanup_failed e r

-- The `try` behind the race.
unfoldable pub finish_cleanup : Environment → String → M (Unit {0})
finish_cleanup env id r =
    if has_dirty_process id r.database
    then fail_cleanup env id OperationSafeCode.cleanup_failed RegistryError.cleanup_left_process r
    else catch_cleanup env id (transaction (cleaned_statements env.now id) r)

unfoldable pub after_race : Environment → String → RaceEnd × Registry → Outcome (Unit {0})
after_race env id (resolved, r) = finish_cleanup env id r
after_race env id (rejected, r) =
    fail_cleanup env id OperationSafeCode.cleanup_failed RegistryError.cleanup_rejected r
after_race env id (timed_out, r) =
    fail_cleanup env id OperationSafeCode.cleanup_timeout RegistryError.cleanup_timed_out r

unfoldable pub race : Environment → String → CleanupRun → M (Unit {0})
race env id run r = after_race env id (run r)

unfoldable pub cleanup_operation : Environment → String → CleanupRun → M (Unit {0})
cleanup_operation env id run = do transaction (cleaning_statements env.now id); race env id run

-- What happens to the processes' `cancel` before the race ends: the callback of a process returns,
-- or fails. No more entries while some process is still waited for means that the timer won.
pub data Settled : Type 0 where
  finished : String → Settled
  failed : String → Settled

abbrev pub remove : String → List String → List String
remove id ids = filter (λ x. not (x == id)) ids

-- The rest of the callback, where the clean-up of a process did not throw.
unfoldable pub after_cancel : CleanupRun → Outcome (Unit {0}) → RaceEnd × Registry
after_cancel rest (ok a r) = rest r
after_cancel rest (thrown e r) = (rejected, r)

-- `Promise.all` over `process.cancel()`, which runs the callback and then `cleanup()`.
unfoldable pub cancel_processes : Environment → String → List Settled → List String → CleanupRun
cancel_processes env operation_id [] [] r = (resolved, r)
cancel_processes env operation_id [] (w ∷ ws) r = (timed_out, r)
cancel_processes env operation_id (s ∷ ss) [] r = (resolved, r)
cancel_processes env operation_id (failed id ∷ ss) (w ∷ ws) r = elim (includes (w ∷ ws) id) [
  | true ↦ (rejected, r)
  | false ↦ cancel_processes env operation_id ss (w ∷ ws) r
]
cancel_processes env operation_id (finished id ∷ ss) (w ∷ ws) r = elim (includes (w ∷ ws) id) [
  | true ↦
      after_cancel (cancel_processes env operation_id ss (remove id (w ∷ ws)))
        (cleanup_process env operation_id id r)
  | false ↦ cancel_processes env operation_id ss (w ∷ ws) r
]
