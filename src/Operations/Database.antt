-- ===== src/Operations/Database.antt =====
-- The tables of the operations registry and the statements that it runs on them:
-- packages/kogg-operations/src/node/operation-registry.ts. A table is the list of its rows in
-- rowid order; times are milliseconds; a statement that breaks a key of the schema is an error.
use kogg.Prelude.{
  ◌≡◌, refl, ℕ, suc, String, String-Eq, Bool, false, Option, List, [], ◌∷◌, ◌++◌, ◌==◌, any, find?,
  if◌then◌else◌,
}
use kogg.Operations.States.{OperationState, CleanupState, ProcessState}
use kogg.Operations.Kinds.{OperationKind, ProcessKind}
use kogg.Operations.Codes.{ProcessOwner, OperationSafeCode, Admission, ExitClass}
use kogg.Operations.Requests.{OperationCorrelations, CheckProcessAuthority}

pub data EventName : Type 0 where
  operation_requested operation_started operation_active operation_waiting : EventName
  operation_stalled operation_cancelling operation_completed operation_failed : EventName
  operation_timeout operation_cancelled operation_refused : EventName
  process_registered process_spawn_started process_started process_ready : EventName
  process_activity process_failed process_exit process_possible_residual : EventName
  cleanup_started cleanup_completed cleanup_failed : EventName
  recovery_started recovery_process_observed recovery_completed recovery_failed : EventName

-- What the methods throw, by the place that throws it.
pub data RegistryError : Type 0 where
  constraint_failed : RegistryError
  operation_request_invalid operation_id_invalid admission_refused : RegistryError
  operation_missing terminal_conflict transition_invalid : RegistryError
  process_request_invalid process_missing process_transition_invalid digest_invalid : RegistryError
  cleanup_timed_out cleanup_rejected cleanup_left_process : RegistryError
  cancel_request_invalid replay_mismatch not_active not_cancellable : RegistryError

pub record OperationRow : Type 0 where
  pub id : String
  pub kind : OperationKind
  pub state : OperationState
  pub cleanup_state : CleanupState
  pub safe_code : Option OperationSafeCode
  pub correlations : OperationCorrelations
  pub owner_instance_id : String
  pub requested_at : ℕ
  pub updated_at : ℕ
  pub last_activity_at : Option ℕ
  pub activity_count : ℕ
  pub error_type : Option String
  pub revision : ℕ

pub record ProcessRow : Type 0 where
  pub id : String
  pub operation_id : String
  pub kind : ProcessKind
  pub owner : ProcessOwner
  pub state : ProcessState
  pub cleanup_state : CleanupState
  pub owner_instance_id : String
  pub pid : Option ℕ
  pub identity_fingerprint : Option String
  pub safe_code : Option OperationSafeCode
  pub error_type : Option String
  pub exit_class : Option ExitClass
  pub execution_authority : Option CheckProcessAuthority
  pub result_artifact_digest : Option String
  pub updated_at : Option ℕ

pub record EventRow : Type 0 where
  pub sequence : ℕ
  pub operation_id : String
  pub process_id : Option String
  pub event_name : EventName
  pub created_at : ℕ

pub record RequestRow : Type 0 where
  pub request_id : String
  pub operation_id : String
  pub safe_code : OperationSafeCode
  pub created_at : ℕ

-- `operation_meta`, which has one row.
pub record Meta : Type 0 where
  pub revision : ℕ
  pub instance_id : String
  pub owner_id : String
  pub owner_epoch_id : String
  pub admission : Admission

pub record Database : Type 0 where
  pub meta : Meta
  pub operations : List OperationRow
  pub processes : List ProcessRow
  pub events : List EventRow
  -- the last AUTOINCREMENT value that was given out
  pub last_sequence : ℕ
  pub request_results : List RequestRow

pub data Result {ℓ} (A : Type ℓ) : Type ℓ where
  success : A → Result A
  failure : RegistryError → Result A

infixl 5 ◌>>=◌
abbrev pub ◌>>=◌ {ℓ κ} : {A : Type ℓ} {B : Type κ} → Result A → (A → Result B) → Result B
success a >>= f = f a
failure e >>= f = failure e

pub >>=-eq-success {ℓ κ} :
    {A : Type ℓ} {B : Type κ} (m : Result A) (f : A → Result B) {b : B}
    → (m >>= f) ≡ success b
    → (a : A) × (m ≡ success a) × (f a ≡ success b)
>>=-eq-success (success a) f h = (a, refl, h)
>>=-eq-success (failure e) f h = cc

abbrev pub find_operation : String → Database → Option OperationRow
find_operation id db = find? (λ (o : OperationRow). o.id == id) db.operations

abbrev pub has_operation : String → Database → Bool
has_operation id db = any (λ (o : OperationRow). o.id == id) db.operations

abbrev pub find_process : String → String → Database → Option ProcessRow
find_process operation_id id db =
    find? (λ (p : ProcessRow). if p.id == id then p.operation_id == operation_id else false)
      db.processes

-- `UPDATE operations SET … WHERE id=?`.
unfoldable pub update_operations :
    String → (OperationRow → OperationRow) → List OperationRow → List OperationRow
update_operations id change [] = []
update_operations id change (o ∷ os) =
    (if o.id == id then change o else o) ∷ update_operations id change os

-- `UPDATE processes SET … WHERE id=? AND operation_id=?`.
unfoldable pub update_processes :
    String → String → (ProcessRow → ProcessRow) → List ProcessRow → List ProcessRow
update_processes operation_id id change [] = []
update_processes operation_id id change (p ∷ ps) =
    (if p.id == id then (if p.operation_id == operation_id then change p else p) else p)
    ∷ update_processes operation_id id change ps

abbrev pub on_operation : String → (OperationRow → OperationRow) → Database → Database
on_operation id change db = record db { operations = update_operations id change db.operations }

abbrev pub on_process : String → String → (ProcessRow → ProcessRow) → Database → Database
on_process operation_id id change db = record db {
  processes = update_processes operation_id id change db.processes;
}

-- The identifier is the primary key.
unfoldable pub insert_operation : OperationRow → Database → Result Database
insert_operation row db =
    if has_operation row.id db
    then failure constraint_failed
    else success (record db { operations = db.operations ++ row ∷ [] })

-- The identifier is the primary key, and the operation must exist.
unfoldable pub insert_process : ProcessRow → Database → Result Database
insert_process row db =
    if any (λ (p : ProcessRow). p.id == row.id) db.processes
    then failure constraint_failed
    else if has_operation row.operation_id db
    then success (record db { processes = db.processes ++ row ∷ [] })
    else failure constraint_failed

-- The row that `appendEvent` inserts.
unfoldable pub event_row : ℕ → String → Option String → EventName → Database → EventRow
event_row now operation_id process_id event_name db = record {
  sequence = suc db.last_sequence;
  operation_id = operation_id;
  process_id = process_id;
  event_name = event_name;
  created_at = now;
}

-- `appendEvent`; the operation must exist.
unfoldable pub append_event : ℕ → String → Option String → EventName → Database → Result Database
unfolding event_row
append_event now operation_id process_id event_name db =
    if has_operation operation_id db
    then success (record db {
      last_sequence = suc db.last_sequence;
      events = db.events ++ event_row now operation_id process_id event_name db ∷ [];
    })
    else failure constraint_failed

-- `bump`.
unfoldable pub bump : Database → Database
bump db = record db { meta = record m { revision = suc m.revision } }
  where
    m : Meta
    m = db.meta

-- `UPDATE operation_meta SET admission=…,revision=revision+1`.
unfoldable pub set_admission : Admission → Database → Database
set_admission admission db = record db {
  meta = record m { admission = admission; revision = suc m.revision };
}
  where
    m : Meta
    m = db.meta
