-- ===== src/Operations/Texts.antt =====
-- The texts of the protocol's unions that are published:
-- packages/kogg-operations/src/common/operations-protocol.ts.
use kogg.Prelude.{String}
use kogg.Operations.States.{CleanupState}
use kogg.Operations.Kinds.{ProcessKind}
use kogg.Operations.Codes.{OperationSafeCode}

unfoldable pub process_kind_text : ProcessKind → String
process_kind_text ProcessKind.git = "git"
process_kind_text ProcessKind.ranex_kernel = "ranex-kernel"
process_kind_text ProcessKind.provider_cli = "provider-cli"
process_kind_text ProcessKind.governed_command = "governed-command"
process_kind_text ProcessKind.check = "check"
process_kind_text ProcessKind.build = "build"
process_kind_text ProcessKind.test = "test"
process_kind_text ProcessKind.debug_adapter = "debug-adapter"
process_kind_text ProcessKind.delegated_theia = "delegated-theia"

unfoldable pub cleanup_state_text : CleanupState → String
cleanup_state_text CleanupState.not_required = "not-required"
cleanup_state_text CleanupState.required = "required"
cleanup_state_text CleanupState.cleaning = "cleaning"
cleanup_state_text CleanupState.cleaned = "cleaned"
cleanup_state_text CleanupState.failed = "failed"

unfoldable pub operation_safe_code_text : OperationSafeCode → String
operation_safe_code_text OperationSafeCode.operations_ok = "OPERATIONS_OK"
operation_safe_code_text OperationSafeCode.operations_refused = "OPERATIONS_REFUSED"
operation_safe_code_text OperationSafeCode.operations_admission_blocked =
    "OPERATIONS_ADMISSION_BLOCKED"
operation_safe_code_text OperationSafeCode.operations_registry_unavailable =
    "OPERATIONS_REGISTRY_UNAVAILABLE"
operation_safe_code_text OperationSafeCode.operations_schema_incompatible =
    "OPERATIONS_SCHEMA_INCOMPATIBLE"
operation_safe_code_text OperationSafeCode.operations_integrity_failed =
    "OPERATIONS_INTEGRITY_FAILED"
operation_safe_code_text OperationSafeCode.operations_transition_invalid =
    "OPERATIONS_TRANSITION_INVALID"
operation_safe_code_text OperationSafeCode.operations_request_replay_mismatch =
    "OPERATIONS_REQUEST_REPLAY_MISMATCH"
operation_safe_code_text OperationSafeCode.operation_idle_timeout = "OPERATION_IDLE_TIMEOUT"
operation_safe_code_text OperationSafeCode.operation_absolute_timeout = "OPERATION_ABSOLUTE_TIMEOUT"
operation_safe_code_text OperationSafeCode.operation_cancelled = "OPERATION_CANCELLED"
operation_safe_code_text OperationSafeCode.process_spawn_failed = "PROCESS_SPAWN_FAILED"
operation_safe_code_text OperationSafeCode.process_readiness_failed = "PROCESS_READINESS_FAILED"
operation_safe_code_text OperationSafeCode.process_exit_nonzero = "PROCESS_EXIT_NONZERO"
operation_safe_code_text OperationSafeCode.process_signalled = "PROCESS_SIGNALLED"
operation_safe_code_text OperationSafeCode.process_identity_unverified =
    "PROCESS_IDENTITY_UNVERIFIED"
operation_safe_code_text OperationSafeCode.process_residual = "PROCESS_RESIDUAL"
operation_safe_code_text OperationSafeCode.cleanup_timeout = "CLEANUP_TIMEOUT"
operation_safe_code_text OperationSafeCode.cleanup_failed = "CLEANUP_FAILED"
operation_safe_code_text OperationSafeCode.recovery_failed = "RECOVERY_FAILED"
operation_safe_code_text OperationSafeCode.owner_unavailable = "OWNER_UNAVAILABLE"
