-- ===== src/Operations/Snapshot.antt =====
-- The reads: `readSnapshot`, `recoveryResult`, `diagnostics` and `processExecutionAttestation` of
-- packages/kogg-operations/src/node/operation-registry.ts.
use kogg.Prelude.{
  ℕ, String, String-Eq, Bool, false, not, ◌&&◌, ◌||◌, Option, none, some, List, [], ◌∷◌, map, ◌==◌,
  any, filter, length, take, ltb, if◌then◌else◌,
}
use kogg.Text.{is_uuid}
use kogg.Operations.States.{
  OperationState, OperationState-Eq, CleanupState, CleanupState-Eq, ProcessState, ProcessState-Eq,
}
use kogg.Operations.Kinds.{OperationKind}
use kogg.Operations.Codes.{OperationSafeCode, Admission, Admission-Eq, ExitClass-Eq}
use kogg.Operations.Requests.{OperationCorrelations}
use kogg.Operations.Transitions.{is_terminal}
use kogg.Operations.Recovery.{is_unresolved_process_of}
use kogg.Operations.Cleanup.{has_dirty_process}
use kogg.Operations.Database.{OperationRow, ProcessRow, Database, find_operation}
use kogg.Operations.Registry.{OperationLease, Registry, find_lease}

pub record OperationSummary : Type 0 where
  pub id : String
  pub kind : OperationKind
  pub state : OperationState
  pub cleanup : CleanupState
  pub safe_code : Option OperationSafeCode
  pub correlations : OperationCorrelations
  pub process_count : ℕ
  pub activity_count : ℕ
  pub can_cancel : Bool
  pub blocks_admission : Bool

pub record OperationsSnapshot : Type 0 where
  pub revision : ℕ
  pub admission : Admission
  pub active : List OperationSummary
  pub recent : List OperationSummary

-- `ORDER BY updated_at DESC,rowid DESC`: the later row of two of one time comes first.
unfoldable pub insert_latest : OperationRow → List OperationRow → List OperationRow
insert_latest o [] = o ∷ []
insert_latest o (x ∷ xs) =
    if ltb x.updated_at o.updated_at then o ∷ x ∷ xs else x ∷ insert_latest o xs

unfoldable pub latest_first : List OperationRow → List OperationRow
unfolding insert_latest
latest_first [] = []
latest_first (o ∷ os) = insert_latest o (latest_first os)

is_cancellable : Option OperationLease → Bool
is_cancellable none = false
is_cancellable (some l) = l.cancellable

unfoldable pub summary : Registry → OperationRow → OperationSummary
unfolding is_cancellable
summary r o = record {
  id = o.id;
  kind = o.kind;
  state = o.state;
  cleanup = o.cleanup_state;
  safe_code = o.safe_code;
  correlations = o.correlations;
  process_count = length (filter (λ (p : ProcessRow). p.operation_id == o.id) r.database.processes);
  activity_count = o.activity_count;
  can_cancel = is_cancellable (find_lease o.id r.leases) && not (is_terminal o.state);
  blocks_admission =
      o.state == OperationState.recovery_required || o.cleanup_state == CleanupState.failed;
}

unfoldable pub summaries : Registry → List OperationSummary
unfolding summary
summaries r = map (summary r) (take 200 (latest_first r.database.operations))

unfoldable pub read_snapshot : Registry → OperationsSnapshot
unfolding summaries
read_snapshot r = record {
  revision = r.database.meta.revision;
  admission = r.database.meta.admission;
  active = filter (λ (s : OperationSummary). not (is_terminal s.state)) (summaries r);
  recent = take 100 (filter (λ (s : OperationSummary). is_terminal s.state) (summaries r));
}

pub data RecoveryStatus : Type 0 where
  cleaned unverified active missing : RecoveryStatus

recovery_status_of : OperationRow → Database → RecoveryStatus
recovery_status_of o db =
    if any (is_unresolved_process_of o.id) db.processes
    then unverified
    else if o.cleanup_state == CleanupState.failed
    then unverified
    else if o.cleanup_state == CleanupState.cleaned
    then (if has_dirty_process o.id db then active else cleaned)
    else active

-- `recoveryResult`.
unfoldable pub recovery_result : String → Database → RecoveryStatus × Option OperationSafeCode
unfolding recovery_status_of
recovery_result id db =
    if is_uuid id
    then elim (find_operation id db) [
      | none ↦ (missing, none)
      | some o ↦ (recovery_status_of o db, o.safe_code)
    ]
    else (missing, none)

pub record OperationDiagnostics : Type 0 where
  pub integrity : Bool
  pub foreign_keys : Bool
  pub permissions : Bool
  pub recovery_complete : Bool
  pub active_count : ℕ
  pub stalled_count : ℕ
  pub residual_count : ℕ
  pub cleanup_failure_count : ℕ
  pub admission : Admission

-- `diagnostics`; what the engine and the file system say is given.
unfoldable pub diagnostics : Bool → Bool → Bool → Database → OperationDiagnostics
diagnostics integrity foreign_keys permissions db = record {
  integrity = integrity;
  foreign_keys = foreign_keys;
  permissions = permissions;
  recovery_complete = not (db.meta.admission == Admission.recovering);
  active_count = length (filter (λ (o : OperationRow). not (is_terminal o.state)) db.operations);
  stalled_count =
      length (filter (λ (o : OperationRow). o.state == OperationState.stalled) db.operations);
  residual_count =
      length (filter (λ (p : ProcessRow). p.state == ProcessState.possible_residual) db.processes);
  cleanup_failure_count = length (
      filter
        (λ (o : OperationRow).
          o.cleanup_state == CleanupState.failed
          || any
              (λ (p : ProcessRow).
                if p.operation_id == o.id then p.cleanup_state == CleanupState.failed else false)
              db.processes)
        db.operations);
  admission = db.meta.admission;
}
