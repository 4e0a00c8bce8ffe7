-- ===== src/Operations/AttestedExamples.antt =====
-- A check that ran, ended and was cleaned, and its attestation:
-- packages/kogg-operations/src/node/operation-registry.ts.
use kogg.Prelude.{ℕ, String, String-Eq, none, some, [], ◌∷◌, ◌≡◌, refl, ◌==◌, find?}
use kogg.Text.{is_uuid, is_digest}
use kogg.Operations.States.{OperationState, CleanupState, ProcessState}
use kogg.Operations.Kinds.{OperationKind, ProcessKind}
use kogg.Operations.Codes.{Admission, ProcessOwner, ExitClass}
use kogg.Operations.Requests.{CheckProcessAuthority, valid_execution_authority, is_check_kind}
use kogg.Operations.Database.{
  OperationRow, ProcessRow, EventRow, EventName, Database, find_operation,
}
use kogg.Operations.Attestation.{
  ProcessExecutionAttestation, process_execution_attestation, attest, is_attestable, is_exit_class,
  first_at, last_at, is_started, is_exit, is_cleanup_completed, same_kind,
}
use kogg.Operations.Attested.{IsAttested, attestation-IsAttested}
use kogg.Operations.Scenarios.{first_id, second_id, process_id, completed_row, database_with}

abbrev digest : String
digest = "sha256:aaaaaaaaaaaaaaaaaaaaaaaaaaaaaaaaaaaaaaaaaaaaaaaaaaaaaaaaaaaaaaaa"

abbrev check_authority : CheckProcessAuthority
check_authority = record {
  suite_digest = digest;
  check_definition_digest = digest;
  subject_state_digest = digest;
  verifier_id = second_id;
  verifier_artifact_digest = digest;
  execution_profile_digest = digest;
}

abbrev checked_row : OperationRow
checked_row = record completed_row {
  kind = OperationKind.check;
  cleanup_state = CleanupState.cleaned;
}

abbrev checked_process : ProcessRow
checked_process = record {
  id = process_id;
  operation_id = first_id;
  kind = ProcessKind.check;
  owner = ProcessOwner.kogg_supervisor;
  state = ProcessState.exited;
  cleanup_state = CleanupState.cleaned;
  owner_instance_id = "instance";
  pid = some 12;
  identity_fingerprint = none;
  safe_code = none;
  error_type = none;
  exit_class = some ExitClass.exit_zero;
  execution_authority = some check_authority;
  result_artifact_digest = some digest;
  updated_at = some 30;
}

abbrev process_event : ℕ → EventName → ℕ → EventRow
process_event sequence name at = record {
  sequence = sequence;
  operation_id = first_id;
  process_id = some process_id;
  event_name = name;
  created_at = at;
}

abbrev checked : Database
checked = record (database_with Admission.enabled) {
  operations = checked_row ∷ [];
  processes = checked_process ∷ [];
  events =
      process_event 1 EventName.process_started 10
      ∷ process_event 2 EventName.process_exit 20
      ∷ process_event 3 EventName.cleanup_completed 30
      ∷ [];
  last_sequence = 3;
}

abbrev issued : ProcessExecutionAttestation
issued = record {
  operation_id = first_id;
  process_registration_id = process_id;
  process_kind = ProcessKind.check;
  process_owner = ProcessOwner.kogg_supervisor;
  operation_state = OperationState.completed;
  exit_class = ExitClass.exit_zero;
  started_at = 10;
  finished_at = 20;
  cleanup_at = 30;
  authority = check_authority;
  result_artifact_digest = digest;
}

is_issued : process_execution_attestation process_id checked ≡ some issued
unfolding process_execution_attestation attest is_attestable is_exit_class first_at last_at
    is_started is_exit is_cleanup_completed same_kind is_uuid is_digest valid_execution_authority
    is_check_kind
is_issued = refl

attestation-IsAttested_example :
    (p : ProcessRow) × (o : OperationRow) × (find?
        (λ (x : ProcessRow). x.id == process_id)
        checked.processes
      ≡ some p)
    × (find_operation p.operation_id checked ≡ some o)
    × IsAttested p o issued
attestation-IsAttested_example = attestation-IsAttested process_id checked issued is_issued
