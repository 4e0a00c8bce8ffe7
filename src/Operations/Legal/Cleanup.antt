-- ===== src/Operations/Legal/Cleanup.antt =====
-- `cleanupOperation` is a chain of legal statements, if its `run` is one.
use kogg.Prelude.{
  String-Eq, inr, inl, ℕ, String, none, List, [], ◌∷◌, refl, includes, Bool-cases, if◌then◌else◌,
}
use kogg.Operations.Codes.{OperationSafeCode, Admission}
use kogg.Operations.Database.{EventName, Database, RegistryError, on_operation, bump, set_admission}
use kogg.Operations.Cleanup.{
  RaceEnd, resolved, rejected, timed_out, CleanupRun, cleaning_statements, cleaned_statements,
  cleanup_failed_statements, has_dirty_process, fail_cleanup, catch_cleanup, finish_cleanup,
  after_race, race, cleanup_operation, Settled, finished, failed, remove, after_cancel,
  cancel_processes,
}
use kogg.Operations.Registry.{Environment, Registry, Outcome, ok, thrown, transaction}
use kogg.Operations.Moves.{Step, Steps, done, ◌then◌, Steps-trans}
use kogg.Operations.Legal.Rules.{
  Legal, LegalFrom, chain, chain_of, LegalStatements, Legal-bind, transaction-Legal, bump-Step,
  set_admission-Step, logged-Steps,
}
use kogg.Operations.Legal.Process.{cleanup_process-Legal}

-- The callback of a clean-up leaves a state that legal statements reach.
abbrev pub LegalRun : CleanupRun → Type 0
LegalRun run = (r : Registry) → Steps r.database (run r).1.database

cleaning_statements-Legal : (now : ℕ) (id : String) → LegalStatements (cleaning_statements now id)
unfolding cleaning_statements
cleaning_statements-Legal now id db db' h =
    logged-Steps now id none EventName.cleanup_started db (on_operation id _) bump db'
      (Step.operation_kept id _ (λ o. refl) (λ o. refl) refl) (λ last. done then bump-Step last) h

cleaned_statements-Legal : (now : ℕ) (id : String) → LegalStatements (cleaned_statements now id)
unfolding cleaned_statements
cleaned_statements-Legal now id db db' h =
    logged-Steps now id none EventName.cleanup_completed db (on_operation id _) bump db'
      (Step.operation_kept id _ (λ o. refl) (λ o. refl) refl) (λ last. done then bump-Step last) h

cleanup_failed_statements-Legal :
    (now : ℕ) (id : String) (code : OperationSafeCode)
    → LegalStatements (cleanup_failed_statements now id code)
unfolding cleanup_failed_statements
cleanup_failed_statements-Legal now id code db db' h =
    logged-Steps now id none EventName.cleanup_failed db (on_operation id _)
      (set_admission Admission.blocked) db' (Step.operation_kept id _ (λ o. refl) (λ o. refl) refl)
      (λ last. done then set_admission-Step Admission.blocked last) h

fail_cleanup-Legal :
    (env : Environment) (id : String) (code : OperationSafeCode) (e : RegistryError)
    → Legal (fail_cleanup env id code e)
unfolding fail_cleanup
fail_cleanup-Legal env id code e =
    Legal-bind (transaction _) _
      (transaction-Legal _ (cleanup_failed_statements-Legal env.now id code)) (λ _ r. chain done)

catch_cleanup-LegalFrom :
    (env : Environment) (id : String) (db : Database) (o : Outcome (Unit {0}))
    → LegalFrom db o
    → LegalFrom db (catch_cleanup env id o)
unfolding catch_cleanup
catch_cleanup-LegalFrom env id db (ok a r) h = h
catch_cleanup-LegalFrom env id db (thrown e r) h = chain (
    Steps-trans (chain_of h)
      (chain_of (fail_cleanup-Legal env id OperationSafeCode.cleanup_failed e r)))

finish_cleanup-Legal : (env : Environment) (id : String) → Legal (finish_cleanup env id)
unfolding finish_cleanup
finish_cleanup-Legal env id r = elim (Bool-cases (has_dirty_process id r.database)) [
  | inl e ↦ rw e (fail_cleanup-Legal env id _ _ r)
  | inr e ↦ rw e (
      catch_cleanup-LegalFrom env id r.database _
        (transaction-Legal _ (cleaned_statements-Legal env.now id) r))
]

after_race-LegalFrom :
    (env : Environment) (id : String) (end : RaceEnd) (r : Registry)
    → LegalFrom r.database (after_race env id (end, r))
unfolding after_race
after_race-LegalFrom env id resolved r = finish_cleanup-Legal env id r
after_race-LegalFrom env id rejected r = fail_cleanup-Legal env id _ _ r
after_race-LegalFrom env id timed_out r = fail_cleanup-Legal env id _ _ r

race-Legal :
    (env : Environment) (id : String) (run : CleanupRun) → LegalRun run → Legal (race env id run)
unfolding race
race-Legal env id run legal r =
    chain (Steps-trans (legal r) (chain_of (after_race-LegalFrom env id (run r).0 (run r).1)))

-- Cleaning up is a chain of legal statements, however the race ends.
pub cleanup_operation-Legal :
    (env : Environment) (id : String) (run : CleanupRun)
    → LegalRun run
    → Legal (cleanup_operation env id run)
unfolding cleanup_operation
cleanup_operation-Legal env id run legal =
    Legal-bind (transaction _) _ (transaction-Legal _ (cleaning_statements-Legal env.now id))
      (λ _. race-Legal env id run legal)

after_cancel-Steps :
    (rest : CleanupRun) (db : Database) (o : Outcome (Unit {0}))
    → LegalRun rest
    → LegalFrom db o
    → Steps db (after_cancel rest o).1.database
unfolding after_cancel
after_cancel-Steps rest db (ok a r) legal h = Steps-trans (chain_of h) (legal r)
after_cancel-Steps rest db (thrown e r) legal h = chain_of h

pub cancel_processes-Legal :
    (env : Environment) (operation_id : String) (settled : List Settled) (ids : List String)
    → LegalRun (cancel_processes env operation_id settled ids)
unfolding cancel_processes
cancel_processes-Legal env operation_id [] [] r = done
cancel_processes-Legal env operation_id [] (w ∷ ws) r = done
cancel_processes-Legal env operation_id (s ∷ ss) [] r = done
cancel_processes-Legal env operation_id (failed id ∷ ss) (w ∷ ws) r =
    elim (Bool-cases (includes (w ∷ ws) id)) [
      | inl e ↦ rw (e, cancel_processes) done
      | inr e ↦ rw (e, cancel_processes) (cancel_processes-Legal env operation_id ss (w ∷ ws) r)
    ]
cancel_processes-Legal env operation_id (finished id ∷ ss) (w ∷ ws) r =
    elim (Bool-cases (includes (w ∷ ws) id)) [
      | inl e ↦
          rw (e, cancel_processes)
            (after_cancel-Steps _ r.database _
              (cancel_processes-Legal env operation_id ss (remove id (w ∷ ws)))
              (cleanup_process-Legal env operation_id id r))
      | inr e ↦ rw (e, cancel_processes) (cancel_processes-Legal env operation_id ss (w ∷ ws) r)
    ]
