-- ===== src/Operations/Codes.antt =====
-- Who owns a process, the codes that are safe to show, and the other closed types of
-- packages/kogg-operations/src/common/operations-protocol.ts.
use kogg.Prelude.{ℕ, zero, suc, ◌≡◌, refl, ◌↔◌, true, nat_eq, Eq, ordinal_iff}

-- Who started a process.
pub data ProcessOwner : Type 0 where
  kogg_supervisor theia_task theia_terminal theia_debug theia_plugin_host ranex : ProcessOwner

abbrev pub process_owner_ordinal : ProcessOwner → ℕ
process_owner_ordinal ProcessOwner.kogg_supervisor = 0
process_owner_ordinal ProcessOwner.theia_task = 1
process_owner_ordinal ProcessOwner.theia_terminal = 2
process_owner_ordinal ProcessOwner.theia_debug = 3
process_owner_ordinal ProcessOwner.theia_plugin_host = 4
process_owner_ordinal ProcessOwner.ranex = 5

abbrev process_owner_of_ordinal : ℕ → ProcessOwner
process_owner_of_ordinal zero = ProcessOwner.kogg_supervisor
process_owner_of_ordinal (suc zero) = ProcessOwner.theia_task
process_owner_of_ordinal (suc (suc zero)) = ProcessOwner.theia_terminal
process_owner_of_ordinal (suc (suc (suc zero))) = ProcessOwner.theia_debug
process_owner_of_ordinal (suc (suc (suc (suc zero)))) = ProcessOwner.theia_plugin_host
process_owner_of_ordinal _ = ProcessOwner.ranex

process_owner_decode : (x : ProcessOwner) → process_owner_of_ordinal (process_owner_ordinal x) ≡ x
process_owner_decode ProcessOwner.kogg_supervisor = refl
process_owner_decode ProcessOwner.theia_task = refl
process_owner_decode ProcessOwner.theia_terminal = refl
process_owner_decode ProcessOwner.theia_debug = refl
process_owner_decode ProcessOwner.theia_plugin_host = refl
process_owner_decode ProcessOwner.ranex = refl

pub ProcessOwner-beq_iff :
    (x y : ProcessOwner)
    → (nat_eq (process_owner_ordinal x) (process_owner_ordinal y) ≡ true) ↔ (x ≡ y)
ProcessOwner-beq_iff =
    ordinal_iff process_owner_ordinal process_owner_of_ordinal process_owner_decode

instance abbrev pub ProcessOwner-Eq : Eq ProcessOwner
ProcessOwner-Eq = record {
  beq = λ x y. nat_eq (process_owner_ordinal x) (process_owner_ordinal y);
  beq_iff = ProcessOwner-beq_iff;
}

-- The codes that a result may carry.
pub data OperationSafeCode : Type 0 where
  operations_ok operations_refused operations_admission_blocked : OperationSafeCode
  operations_registry_unavailable operations_schema_incompatible : OperationSafeCode
  operations_integrity_failed operations_transition_invalid : OperationSafeCode
  operations_request_replay_mismatch operation_idle_timeout : OperationSafeCode
  operation_absolute_timeout operation_cancelled process_spawn_failed : OperationSafeCode
  process_readiness_failed process_exit_nonzero process_signalled : OperationSafeCode
  process_identity_unverified process_residual cleanup_timeout cleanup_failed : OperationSafeCode
  recovery_failed owner_unavailable : OperationSafeCode

abbrev pub operation_safe_code_ordinal : OperationSafeCode → ℕ
operation_safe_code_ordinal OperationSafeCode.operations_ok = 0
operation_safe_code_ordinal OperationSafeCode.operations_refused = 1
operation_safe_code_ordinal OperationSafeCode.operations_admission_blocked = 2
operation_safe_code_ordinal OperationSafeCode.operations_registry_unavailable = 3
operation_safe_code_ordinal OperationSafeCode.operations_schema_incompatible = 4
operation_safe_code_ordinal OperationSafeCode.operations_integrity_failed = 5
operation_safe_code_ordinal OperationSafeCode.operations_transition_invalid = 6
operation_safe_code_ordinal OperationSafeCode.operations_request_replay_mismatch = 7
operation_safe_code_ordinal OperationSafeCode.operation_idle_timeout = 8
operation_safe_code_ordinal OperationSafeCode.operation_absolute_timeout = 9
operation_safe_code_ordinal OperationSafeCode.operation_cancelled = 10
operation_safe_code_ordinal OperationSafeCode.process_spawn_failed = 11
operation_safe_code_ordinal OperationSafeCode.process_readiness_failed = 12
operation_safe_code_ordinal OperationSafeCode.process_exit_nonzero = 13
operation_safe_code_ordinal OperationSafeCode.process_signalled = 14
operation_safe_code_ordinal OperationSafeCode.process_identity_unverified = 15
operation_safe_code_ordinal OperationSafeCode.process_residual = 16
operation_safe_code_ordinal OperationSafeCode.cleanup_timeout = 17
operation_safe_code_ordinal OperationSafeCode.cleanup_failed = 18
operation_safe_code_ordinal OperationSafeCode.recovery_failed = 19
operation_safe_code_ordinal OperationSafeCode.owner_unavailable = 20

abbrev operation_safe_code_of_ordinal : ℕ → OperationSafeCode
operation_safe_code_of_ordinal zero = OperationSafeCode.operations_ok
operation_safe_code_of_ordinal (suc zero) = OperationSafeCode.operations_refused
operation_safe_code_of_ordinal (suc (suc zero)) = OperationSafeCode.operations_admission_blocked
operation_safe_code_of_ordinal (suc (suc (suc zero))) =
    OperationSafeCode.operations_registry_unavailable
operation_safe_code_of_ordinal (suc (suc (suc (suc zero)))) =
    OperationSafeCode.operations_schema_incompatible
operation_safe_code_of_ordinal (suc (suc (suc (suc (suc zero))))) =
    OperationSafeCode.operations_integrity_failed
operation_safe_code_of_ordinal (suc (suc (suc (suc (suc (suc zero)))))) =
    OperationSafeCode.operations_transition_invalid
operation_safe_code_of_ordinal (suc (suc (suc (suc (suc (suc (suc zero))))))) =
    OperationSafeCode.operations_request_replay_mismatch
operation_safe_code_of_ordinal (suc (suc (suc (suc (suc (suc (suc (suc zero)))))))) =
    OperationSafeCode.operation_idle_timeout
operation_safe_code_of_ordinal (suc (suc (suc (suc (suc (suc (suc (suc (suc zero))))))))) =
    OperationSafeCode.operation_absolute_timeout
operation_safe_code_of_ordinal (suc (suc (suc (suc (suc (suc (suc (suc (suc (suc zero)))))))))) =
    OperationSafeCode.operation_cancelled
operation_safe_code_of_ordinal
      (suc (suc (suc (suc (suc (suc (suc (suc (suc (suc (suc zero))))))))))) =
    OperationSafeCode.process_spawn_failed
operation_safe_code_of_ordinal
      (suc (suc (suc (suc (suc (suc (suc (suc (suc (suc (suc (suc zero)))))))))))) =
    OperationSafeCode.process_readiness_failed
operation_safe_code_of_ordinal
      (suc (suc (suc (suc (suc (suc (suc (suc (suc (suc (suc (suc (suc zero))))))))))))) =
    OperationSafeCode.process_exit_nonzero
operation_safe_code_of_ordinal
      (suc (suc (suc (suc (suc (suc (suc (suc (suc (suc (suc (suc (suc (suc zero)))))))))))))) =
    OperationSafeCode.process_signalled
operation_safe_code_of_ordinal
      (suc
        (suc (suc (suc (suc (suc (suc (suc (suc (suc (suc (suc (suc (suc (suc zero))))))))))))))) =
    OperationSafeCode.process_identity_unverified
operation_safe_code_of_ordinal
      (suc (
        suc (
          suc
            (suc (suc (suc (suc (suc (suc (suc (suc (suc (suc (suc (suc (suc zero)))))))))))))))) =
    OperationSafeCode.process_residual
operation_safe_code_of_ordinal
      (suc (
        suc (
          suc (
            suc (
              suc
                (suc (suc (suc (suc (suc (suc (suc (suc (suc (suc (suc (suc zero))))))))))))))))) =
    OperationSafeCode.cleanup_timeout
operation_safe_code_of_ordinal
      (suc (
        suc (
          suc (
            suc (
              suc (
                suc (
                  suc
                    (suc (suc (suc (suc (suc (suc (suc (suc (suc (suc (suc zero)))))))))))))))))) =
    OperationSafeCode.cleanup_failed
operation_safe_code_of_ordinal
      (suc (
        suc (
          suc (
            suc (
              suc (
                suc (
                  suc (
                    suc (
                      suc
                        (suc (suc (suc (suc (suc (suc (suc (suc (suc (suc zero))))))))))))))))))) =
    OperationSafeCode.recovery_failed
operation_safe_code_of_ordinal _ = OperationSafeCode.owner_unavailable

operation_safe_code_decode :
    (x : OperationSafeCode) → operation_safe_code_of_ordinal (operation_safe_code_ordinal x) ≡ x
operation_safe_code_decode OperationSafeCode.operations_ok = refl
operation_safe_code_decode OperationSafeCode.operations_refused = refl
operation_safe_code_decode OperationSafeCode.operations_admission_blocked = refl
operation_safe_code_decode OperationSafeCode.operations_registry_unavailable = refl
operation_safe_code_decode OperationSafeCode.operations_schema_incompatible = refl
operation_safe_code_decode OperationSafeCode.operations_integrity_failed = refl
operation_safe_code_decode OperationSafeCode.operations_transition_invalid = refl
operation_safe_code_decode OperationSafeCode.operations_request_replay_mismatch = refl
operation_safe_code_decode OperationSafeCode.operation_idle_timeout = refl
operation_safe_code_decode OperationSafeCode.operation_absolute_timeout = refl
operation_safe_code_decode OperationSafeCode.operation_cancelled = refl
operation_safe_code_decode OperationSafeCode.process_spawn_failed = refl
operation_safe_code_decode OperationSafeCode.process_readiness_failed = refl
operation_safe_code_decode OperationSafeCode.process_exit_nonzero = refl
operation_safe_code_decode OperationSafeCode.process_signalled = refl
operation_safe_code_decode OperationSafeCode.process_identity_unverified = refl
operation_safe_code_decode OperationSafeCode.process_residual = refl
operation_safe_code_decode OperationSafeCode.cleanup_timeout = refl
operation_safe_code_decode OperationSafeCode.cleanup_failed = refl
operation_safe_code_decode OperationSafeCode.recovery_failed = refl
operation_safe_code_decode OperationSafeCode.owner_unavailable = refl

pub OperationSafeCode-beq_iff :
    (x y : OperationSafeCode)
    → (nat_eq (operation_safe_code_ordinal x) (operation_safe_code_ordinal y) ≡ true) ↔ (x ≡ y)
OperationSafeCode-beq_iff =
    ordinal_iff operation_safe_code_ordinal operation_safe_code_of_ordinal
      operation_safe_code_decode

instance abbrev pub OperationSafeCode-Eq : Eq OperationSafeCode
OperationSafeCode-Eq = record {
  beq = λ x y. nat_eq (operation_safe_code_ordinal x) (operation_safe_code_ordinal y);
  beq_iff = OperationSafeCode-beq_iff;
}

-- Whether new work is let in.
pub data Admission : Type 0 where
  enabled recovering blocked : Admission

abbrev pub admission_ordinal : Admission → ℕ
admission_ordinal Admission.enabled = 0
admission_ordinal Admission.recovering = 1
admission_ordinal Admission.blocked = 2

abbrev admission_of_ordinal : ℕ → Admission
admission_of_ordinal zero = Admission.enabled
admission_of_ordinal (suc zero) = Admission.recovering
admission_of_ordinal _ = Admission.blocked

admission_decode : (x : Admission) → admission_of_ordinal (admission_ordinal x) ≡ x
admission_decode Admission.enabled = refl
admission_decode Admission.recovering = refl
admission_decode Admission.blocked = refl

pub Admission-beq_iff :
    (x y : Admission) → (nat_eq (admission_ordinal x) (admission_ordinal y) ≡ true) ↔ (x ≡ y)
Admission-beq_iff = ordinal_iff admission_ordinal admission_of_ordinal admission_decode

instance abbrev pub Admission-Eq : Eq Admission
Admission-Eq = record {
  beq = λ x y. nat_eq (admission_ordinal x) (admission_ordinal y);
  beq_iff = Admission-beq_iff;
}

-- How a process ended; `recovered` is written by the recovery alone.
pub data ExitClass : Type 0 where
  exit_zero exit_nonzero exit_signal recovered : ExitClass

abbrev pub exit_class_ordinal : ExitClass → ℕ
exit_class_ordinal ExitClass.exit_zero = 0
exit_class_ordinal ExitClass.exit_nonzero = 1
exit_class_ordinal ExitClass.exit_signal = 2
exit_class_ordinal ExitClass.recovered = 3

abbrev exit_class_of_ordinal : ℕ → ExitClass
exit_class_of_ordinal zero = ExitClass.exit_zero
exit_class_of_ordinal (suc zero) = ExitClass.exit_nonzero
exit_class_of_ordinal (suc (suc zero)) = ExitClass.exit_signal
exit_class_of_ordinal _ = ExitClass.recovered

exit_class_decode : (x : ExitClass) → exit_class_of_ordinal (exit_class_ordinal x) ≡ x
exit_class_decode ExitClass.exit_zero = refl
exit_class_decode ExitClass.exit_nonzero = refl
exit_class_decode ExitClass.exit_signal = refl
exit_class_decode ExitClass.recovered = refl

pub ExitClass-beq_iff :
    (x y : ExitClass) → (nat_eq (exit_class_ordinal x) (exit_class_ordinal y) ≡ true) ↔ (x ≡ y)
ExitClass-beq_iff = ordinal_iff exit_class_ordinal exit_class_of_ordinal exit_class_decode

instance abbrev pub ExitClass-Eq : Eq ExitClass
ExitClass-Eq = record {
  beq = λ x y. nat_eq (exit_class_ordinal x) (exit_class_ordinal y);
  beq_iff = ExitClass-beq_iff;
}
