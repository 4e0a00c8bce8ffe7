-- ===== src/Operations/Legal/Process.antt =====
-- `registerProcess`, `transitionProcess` and `cleanupProcess` are chains of legal statements.

use kogg.Prelude.{
  ℕ, String, String-Eq, true, Option, some, ◌≡◌, refl, inl, inr, ◌==◌, any, if◌then◌else◌, arith,
  Bool-cases, Option-cases,
}
use kogg.Operations.States.{ProcessState, ProcessState-Eq}
use kogg.Operations.Transitions.{process_may_become}
use kogg.Operations.Requests.{StartProcess}
use kogg.Operations.Database
use kogg.Operations.Database.{
  OperationRow, ProcessRow, EventName, Database, RegistryError, Result, success, failure,
  append_event, find_process, has_operation, on_operation, on_process, insert_process, bump,
}
use kogg.Operations.Process.{
  registered_row, register_statements, insert_registered, register_process, ProcessValues,
  digest_given_ok, pid_given_ok, transition_process_statements, advance_process, process_row,
  transition_process, cleanup_process_statements, cleanup_process,
}
use kogg.Operations.Registry.{Environment, Registry, ok}
use kogg.Operations.Moves.{Step, Steps, done, ◌then◌, Steps-trans, process_state_of}
use kogg.Operations.Legal.Rules.{
  Legal, LegalFrom, chain, LegalStatements, bind-LegalFrom, Legal-bind, guard-Legal,
  transaction-LegalFrom, transaction-Legal, bump-Step, logged-Steps,
}

insert_process-Steps :
    (row : ProcessRow) (db db' : Database)
    → row.state ≡ ProcessState.registered
    → insert_process row db ≡ success db'
    → Steps db db'
unfolding insert_process
insert_process-Steps row db db' new h =
    elim (Bool-cases (any (λ (p : ProcessRow). p.id == row.id) db.processes)) [
      | inl e ↦ absurd (ground arith)
      | inr e ↦ elim (Bool-cases (has_operation row.operation_id db)) [
        | inl parent ↦ done then Step.process_added row new e parent (ground arith)
        | inr orphan ↦ absurd (ground arith)
      ]
    ]

register_statements-Legal :
    (now : ℕ) (row : ProcessRow)
    → row.state ≡ ProcessState.registered
    → LegalStatements (register_statements now row)
unfolding register_statements
register_statements-Legal now row new db db' h =
    let (mid, inserted, rest) = Database.>>=-eq-success (insert_process row db) _ h in
    Steps-trans (insert_process-Steps row db mid new inserted) (
      logged-Steps now row.operation_id (some row.id) EventName.process_registered mid
        (on_operation row.operation_id _) bump db'
        (Step.operation_kept row.operation_id _ (λ o. refl) (λ o. refl) refl)
        (λ last. done then bump-Step last) rest)

insert_registered-Legal :
    (env : Environment) (operation_id : String) (request : StartProcess)
    → Legal (insert_registered env operation_id request)
unfolding insert_registered registered_row
insert_registered-Legal env operation_id request r =
    transaction-Legal _ (register_statements-Legal env.now _ refl) r

-- Registering a process is a chain of legal statements, whether it returns or throws.
pub register_process-Legal :
    (env : Environment) (operation_id : String) (request : StartProcess)
    → Legal (register_process env operation_id request)
unfolding register_process
register_process-Legal env operation_id request = Legal-bind _ _ (guard-Legal _ _) (λ _.
    Legal-bind (insert_registered env operation_id request) _
      (insert_registered-Legal env operation_id request) (λ _ r. chain done))

transition_process_statements-Steps :
    (now : ℕ) (operation_id id : String) (s t : ProcessState) (name : EventName)
    (values : ProcessValues) (fingerprint : Option String) (db db' : Database)
    → process_state_of operation_id id db ≡ some s
    → process_may_become s t ≡ true
    → transition_process_statements now operation_id id t name values fingerprint db ≡ success db'
    → Steps db db'
unfolding transition_process_statements
transition_process_statements-Steps now operation_id id s t name values fingerprint db db' at edge
      h =
    elim (Bool-cases (digest_given_ok values.result_artifact_digest)) [
      | inr e ↦ absurd (ground arith)
      | inl e ↦ elim (Bool-cases (pid_given_ok values.pid)) [
        | inr e' ↦ absurd (ground arith)
        | inl e' ↦
            logged-Steps now operation_id (some id) name db (on_process operation_id id _) bump db'
              (Step.process_moved operation_id id _ s t (λ p. (refl, refl)) (λ p. refl) at edge
                refl)
              (λ last. done then bump-Step last) (rw (e, e') at h)
      ]
    ]

advance_process-LegalFrom :
    (env : Environment) (operation_id id : String) (s t : ProcessState) (name : EventName)
    (values : ProcessValues) (fingerprint : Option String) (r : Registry)
    → process_state_of operation_id id r.database ≡ some s
    → LegalFrom r.database (advance_process env operation_id id s t name values fingerprint r)
unfolding advance_process
advance_process-LegalFrom env operation_id id s t name values fingerprint r at =
    elim (Bool-cases (s == t)) [
      | inl e ↦ rw e (chain done)
      | inr e ↦ elim (Bool-cases (process_may_become s t)) [
        | inr other ↦ rw (e, other) (chain done)
        | inl edge ↦
            rw (e, edge)
              (transaction-LegalFrom _ r (λ db'.
                transition_process_statements-Steps env.now operation_id id s t name values
                  fingerprint r.database db' at edge))
      ]
    ]

process_row-Legal : (operation_id id : String) → Legal (process_row operation_id id)
unfolding process_row
process_row-Legal operation_id id r =
    elim (Option-cases (find_process operation_id id r.database)) [
      | inl e ↦ rw (e, process_row) (chain done)
      | inr (p, e) ↦ rw (e, process_row) (chain done)
    ]

process_row-finds :
    (operation_id id : String) (r r' : Registry) (p : ProcessRow)
    → process_row operation_id id r ≡ ok p r'
    → (r' ≡ r) × (process_state_of operation_id id r.database ≡ some p.state)
unfolding process_row
process_row-finds operation_id id r r' p h = ground arith

-- A transition of a process is a chain of legal statements, whether it returns or throws.
pub transition_process-Legal :
    (env : Environment) (operation_id id : String) (t : ProcessState) (name : EventName)
    (values : ProcessValues) (fingerprint : Option String)
    → Legal (transition_process env operation_id id t name values fingerprint)
unfolding transition_process
transition_process-Legal env operation_id id t name values fingerprint r =
    bind-LegalFrom (process_row operation_id id) _ r.database r
      (process_row-Legal operation_id id r)
      (λ p r' found.
        let at = process_row-finds operation_id id r r' p found in
        advance_process-LegalFrom env operation_id id p.state t name values fingerprint r'
          (ground arith))

cleanup_process_statements-Legal :
    (now : ℕ) (operation_id id : String)
    → LegalStatements (cleanup_process_statements now operation_id id)
unfolding cleanup_process_statements
cleanup_process_statements-Legal now operation_id id db db' h =
    logged-Steps now operation_id (some id) EventName.cleanup_completed db
      (on_process operation_id id _) bump db'
      (Step.process_kept operation_id id _ (λ p. (refl, refl)) (λ p. refl) refl)
      (λ last. done then bump-Step last) h

-- Cleaning up after a process is a chain of legal statements.
pub cleanup_process-Legal :
    (env : Environment) (operation_id id : String) → Legal (cleanup_process env operation_id id)
unfolding cleanup_process
cleanup_process-Legal env operation_id id =
    transaction-Legal _ (cleanup_process_statements-Legal env.now operation_id id)
