-- ===== src/Operations/Process.antt =====
-- `registerProcess`, `transitionProcess` and `cleanupProcess` of
-- packages/kogg-operations/src/node/operation-registry.ts.
use kogg.Prelude.{
  ltb, ℕ, suc, String, String-Eq, Bool, true, Option, none, some, ◌==◌, if◌then◌else◌,
}
use kogg.Text.{is_digest}
use kogg.Operations.States.{CleanupState, ProcessState, ProcessState-Eq}
use kogg.Operations.Codes.{OperationSafeCode, ExitClass, ExitClass-Eq}
use kogg.Operations.Transitions.{process_may_become}
use kogg.Operations.Requests.{StartProcess, validate_start_process}
use kogg.Operations.Database
use kogg.Operations.Database.{
  EventName, RegistryError, OperationRow, ProcessRow, Database, Result, success, failure,
  find_process, on_operation, on_process, insert_process, append_event, bump,
}
use kogg.Operations.Registry.{
  ◌>>=◌, ◌>>◌, ok, Environment, thrown, M, ◌>>◌, throw, return, guard, transaction,
}

-- The row that `registerProcess` inserts.
unfoldable pub registered_row : String → String → String → StartProcess → ProcessRow
registered_row id operation_id instance_id request = record {
  id = id;
  operation_id = operation_id;
  kind = request.kind;
  owner = request.owner;
  state = ProcessState.registered;
  cleanup_state = CleanupState.required;
  owner_instance_id = instance_id;
  pid = none;
  identity_fingerprint = none;
  safe_code = none;
  error_type = none;
  exit_class = none;
  execution_authority = request.execution_authority;
  result_artifact_digest = none;
  updated_at = none;
}

-- The statements of `registerProcess`.
unfoldable pub register_statements : ℕ → ProcessRow → Database → Result Database
register_statements now row db = Database.◌>>=◌ (insert_process row db) (λ db'.
    Database.◌>>=◌
      (append_event now row.operation_id (some row.id) EventName.process_registered (
        on_operation row.operation_id
          (λ o. record o {
            cleanup_state = CleanupState.required;
            updated_at = now;
            revision = suc o.revision;
          })
          db'))
      (λ db''. success (bump db'')))

unfoldable pub insert_registered : Environment → String → StartProcess → M (Unit {0})
insert_registered env operation_id request r =
    transaction
      (register_statements env.now
        (registered_row env.random_uuid operation_id r.instance_id request))
      r

unfoldable pub register_process : Environment → String → StartProcess → M String
register_process env operation_id request = do
  guard (validate_start_process request) RegistryError.process_request_invalid
  insert_registered env operation_id request
  return env.random_uuid

-- The values that a transition of a process may carry.
pub record ProcessValues : Type 0 where
  pub pid : Option ℕ
  pub safe_code : Option OperationSafeCode
  pub error_type : Option String
  pub exit_class : Option ExitClass
  pub result_artifact_digest : Option String

-- SQL's `COALESCE(?, column)`.
abbrev pub coalesce {ℓ} : {A : Type ℓ} → Option A → Option A → Option A
coalesce none column = column
coalesce (some a) column = some a

unfoldable pub digest_given_ok : Option String → Bool
digest_given_ok none = true
digest_given_ok (some digest) = is_digest digest

-- `CHECK(pid IS NULL OR pid>0)`.
unfoldable pub pid_given_ok : Option ℕ → Bool
pid_given_ok none = true
pid_given_ok (some pid) = ltb 0 pid

-- The statements of `transitionProcess`; `fingerprint` is what `fingerprintFor` reads of the pid.
unfoldable pub transition_process_statements :
    ℕ
    → String
    → String
    → ProcessState
    → EventName
    → ProcessValues
    → Option String
    → Database
    → Result Database
transition_process_statements now operation_id id state event_name values fingerprint db =
    if digest_given_ok values.result_artifact_digest
    then if pid_given_ok values.pid
      then Database.◌>>=◌
          (append_event now operation_id (some id) event_name (
            on_process operation_id id
              (λ p. record p {
                state = state;
                pid = coalesce values.pid p.pid;
                identity_fingerprint = coalesce fingerprint p.identity_fingerprint;
                safe_code = values.safe_code;
                error_type = values.error_type;
                exit_class = values.exit_class;
                result_artifact_digest =
                    coalesce values.result_artifact_digest p.result_artifact_digest;
                updated_at = some now;
              })
              db))
          (λ db'. success (bump db'))
      else failure RegistryError.constraint_failed
    else failure RegistryError.digest_invalid

-- What `transitionProcess` does once it has read the current state.
unfoldable pub advance_process :
    Environment
    → String
    → String
    → ProcessState
    → ProcessState
    → EventName
    → ProcessValues
    → Option String
    → M (Unit {0})
advance_process env operation_id id current state event_name values fingerprint =
    if current == state
    then return tt
    else if process_may_become current state
    then transaction
        (transition_process_statements env.now operation_id id state event_name values fingerprint)
    else throw RegistryError.process_transition_invalid

-- `SELECT state FROM processes WHERE id=? AND operation_id=?`.
unfoldable pub process_row : String → String → M ProcessRow
process_row operation_id id r = elim (find_process operation_id id r.database) [
  | none ↦ thrown RegistryError.process_missing r
  | some p ↦ ok p r
]

unfoldable pub transition_process :
    Environment
    → String
    → String
    → ProcessState
    → EventName
    → ProcessValues
    → Option String
    → M (Unit {0})
transition_process env operation_id id state event_name values fingerprint = do
  p ← process_row operation_id id
  advance_process env operation_id id p.state state event_name values fingerprint

-- The statements of `cleanupProcess`.
unfoldable pub cleanup_process_statements : ℕ → String → String → Database → Result Database
cleanup_process_statements now operation_id id db =
    Database.◌>>=◌
      (append_event now operation_id (some id) EventName.cleanup_completed (
        on_process operation_id id
          (λ p. record p { cleanup_state = CleanupState.cleaned; updated_at = some now }) db))
      (λ db'. success (bump db'))

unfoldable pub cleanup_process : Environment → String → String → M (Unit {0})
cleanup_process env operation_id id =
    transaction (cleanup_process_statements env.now operation_id id)

abbrev pub no_values : ProcessValues
no_values = record {
  pid = none;
  safe_code = none;
  error_type = none;
  exit_class = none;
  result_artifact_digest = none;
}

-- `DurableProcessLease.spawning`, `.started`, `.ready`, `.failed` and `.exited`.
unfoldable pub process_spawning : Environment → String → String → M (Unit {0})
process_spawning env operation_id id =
    transition_process env operation_id id ProcessState.spawning EventName.process_spawn_started
      no_values none

unfoldable pub process_started : Environment → String → String → ℕ → Option String → M (Unit {0})
process_started env operation_id id pid fingerprint =
    transition_process env operation_id id ProcessState.started EventName.process_started
      (record no_values { pid = some pid }) fingerprint

unfoldable pub process_ready : Environment → String → String → M (Unit {0})
process_ready env operation_id id =
    transition_process env operation_id id ProcessState.ready EventName.process_ready no_values none

unfoldable pub process_failed :
    Environment → String → String → OperationSafeCode → String → M (Unit {0})
process_failed env operation_id id code error =
    transition_process env operation_id id ProcessState.spawn_failed EventName.process_failed
      (record no_values { safe_code = some code; error_type = some error }) none

unfoldable pub process_exited :
    Environment → String → String → ExitClass → Option String → M (Unit {0})
process_exited env operation_id id exit_class digest =
    transition_process env operation_id id
      (if exit_class == ExitClass.exit_signal then ProcessState.signalled else ProcessState.exited)
      EventName.process_exit
      (record no_values { exit_class = some exit_class; result_artifact_digest = digest }) none
