-- ===== src/Operations/Attestation.antt =====
-- `processExecutionAttestation` of packages/kogg-operations/src/node/operation-registry.ts. The
-- authority column holds the decoded value, so `parseExecutionAuthority` is its validation; the
-- digest of the fact is left out.
use kogg.Prelude.{
  ℕ, String, String-Eq, Bool, true, false, ◌&&◌, Option, none, some, List, [], ◌∷◌, ◌==◌, find?,
  includes, if◌then◌else◌,
}
use kogg.Text.{is_uuid, is_digest}
use kogg.Operations.States.{
  OperationState, OperationState-Eq, CleanupState, CleanupState-Eq, ProcessState, ProcessState-Eq,
}
use kogg.Operations.Kinds.{OperationKind, OperationKind-Eq, ProcessKind, ProcessKind-Eq}
use kogg.Operations.Codes.{ExitClass, ExitClass-Eq, ProcessOwner}
use kogg.Operations.Requests.{CheckProcessAuthority, valid_execution_authority, is_check_kind}
use kogg.Operations.Database.{
  OperationRow, ProcessRow, EventRow, EventName, Database, find_operation,
}

pub record ProcessExecutionAttestation : Type 0 where
  pub operation_id : String
  pub process_registration_id : String
  pub process_kind : ProcessKind
  pub process_owner : ProcessOwner
  pub operation_state : OperationState
  pub exit_class : ExitClass
  pub started_at : ℕ
  pub finished_at : ℕ
  pub cleanup_at : ℕ
  pub authority : CheckProcessAuthority
  pub result_artifact_digest : String

names_process : String → Option String → Bool
names_process id none = false
names_process id (some process_id) = process_id == id

-- `event_name='process.started'`, and the two other names that the subqueries ask for.
unfoldable pub is_started : EventName → Bool
is_started EventName.process_started = true
is_started _ = false

unfoldable pub is_exit : EventName → Bool
is_exit EventName.process_exit = true
is_exit _ = false

unfoldable pub is_cleanup_completed : EventName → Bool
is_cleanup_completed EventName.cleanup_completed = true
is_cleanup_completed _ = false

-- `ORDER BY sequence ASC LIMIT 1`, over rows in the order of their sequence numbers.
unfoldable pub first_at : (EventName → Bool) → String → List EventRow → Option ℕ
unfolding names_process
first_at is_name id [] = none
first_at is_name id (e ∷ es) =
    if names_process id e.process_id && is_name e.event_name
    then some e.created_at
    else first_at is_name id es

-- `ORDER BY sequence DESC LIMIT 1`.
unfoldable pub last_at : (EventName → Bool) → String → List EventRow → Option ℕ
unfolding names_process
last_at is_name id [] = none
last_at is_name id (e ∷ es) = elim (last_at is_name id es) [
  | some t ↦ some t
  | none ↦ if names_process id e.process_id && is_name e.event_name then some e.created_at else none
]

-- `String(row.kind) === String(row.operation_kind)`.
unfoldable pub same_kind : ProcessKind → OperationKind → Bool
same_kind ProcessKind.check kind = kind == OperationKind.check
same_kind ProcessKind.build kind = kind == OperationKind.build
same_kind ProcessKind.test kind = kind == OperationKind.test
same_kind _ kind = false

-- The rows may be attested to.
unfoldable pub is_attestable : ProcessRow → OperationRow → Bool
unfolding same_kind
is_attestable p o =
    is_check_kind p.kind
    && (same_kind p.kind o.kind
        && (includes
              (OperationState.completed ∷ OperationState.failed ∷ OperationState.timed_out
                ∷ OperationState.cancelled ∷ [])
              o.state
            && (includes (ProcessState.exited ∷ ProcessState.signalled ∷ []) p.state
                && (p.cleanup_state == CleanupState.cleaned
                    && o.cleanup_state == CleanupState.cleaned))))

-- `['zero', 'nonzero', 'signal'].includes(exit_class)`.
unfoldable pub is_exit_class : ExitClass → Bool
is_exit_class class =
    includes (ExitClass.exit_zero ∷ ExitClass.exit_nonzero ∷ ExitClass.exit_signal ∷ []) class

abbrev pub guard_some {ℓ} : {A : Type ℓ} → Bool → Option A → Option A
guard_some true o = o
guard_some false o = none

infixl 5 ◌>>=◌
abbrev pub ◌>>=◌ {ℓ κ} : {A : Type ℓ} {B : Type κ} → Option A → (A → Option B) → Option B
none >>= f = none
some a >>= f = f a

unfoldable pub attest :
    ProcessRow → OperationRow → List EventRow → Option ProcessExecutionAttestation
unfolding is_exit_class is_attestable first_at last_at is_started is_exit is_cleanup_completed
attest p o events = guard_some (is_attestable p o) (do
  class ← p.exit_class
  started ← first_at is_started p.id events
  ended ← last_at is_exit p.id events
  cleaned ← last_at is_cleanup_completed p.id events
  authority ← p.execution_authority
  digest ← p.result_artifact_digest
  guard_some (is_exit_class class && (is_digest digest && valid_execution_authority authority)) (
      some (record {
        operation_id = p.operation_id;
        process_registration_id = p.id;
        process_kind = p.kind;
        process_owner = p.owner;
        operation_state = o.state;
        exit_class = class;
        started_at = started;
        finished_at = ended;
        cleanup_at = cleaned;
        authority = authority;
        result_artifact_digest = digest;
      })))

unfoldable pub process_execution_attestation :
    String → Database → Option ProcessExecutionAttestation
unfolding attest
process_execution_attestation id db = guard_some (is_uuid id) (do
  p ← find? (λ (p : ProcessRow). p.id == id) db.processes
  o ← find_operation p.operation_id db
  attest p o db.events)
