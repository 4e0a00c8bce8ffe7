-- ===== src/Operations/States.antt =====
-- The states of operations and of their processes: packages/kogg-operations/src/common/operations-protocol.ts.
-- Each enumeration is numbered in the order of the source, and compared by its numbers.
use kogg.Prelude.{ℕ, zero, suc, ◌≡◌, refl, ◌↔◌, true, nat_eq, Eq, ordinal_iff}

-- The life of an operation.
pub data OperationState : Type 0 where
  requested refused starting active waiting stalled cancelling completed failed : OperationState
  timed_out cancelled recovery_required recovering recovered : OperationState

abbrev pub operation_state_ordinal : OperationState → ℕ
operation_state_ordinal OperationState.requested = 0
operation_state_ordinal OperationState.refused = 1
operation_state_ordinal OperationState.starting = 2
operation_state_ordinal OperationState.active = 3
operation_state_ordinal OperationState.waiting = 4
operation_state_ordinal OperationState.stalled = 5
operation_state_ordinal OperationState.cancelling = 6
operation_state_ordinal OperationState.completed = 7
operation_state_ordinal OperationState.failed = 8
operation_state_ordinal OperationState.timed_out = 9
operation_state_ordinal OperationState.cancelled = 10
operation_state_ordinal OperationState.recovery_required = 11
operation_state_ordinal OperationState.recovering = 12
operation_state_ordinal OperationState.recovered = 13

abbrev operation_state_of_ordinal : ℕ → OperationState
operation_state_of_ordinal zero = OperationState.requested
operation_state_of_ordinal (suc zero) = OperationState.refused
operation_state_of_ordinal (suc (suc zero)) = OperationState.starting
operation_state_of_ordinal (suc (suc (suc zero))) = OperationState.active
operation_state_of_ordinal (suc (suc (suc (suc zero)))) = OperationState.waiting
operation_state_of_ordinal (suc (suc (suc (suc (suc zero))))) = OperationState.stalled
operation_state_of_ordinal (suc (suc (suc (suc (suc (suc zero)))))) = OperationState.cancelling
operation_state_of_ordinal (suc (suc (suc (suc (suc (suc (suc zero))))))) = OperationState.completed
operation_state_of_ordinal (suc (suc (suc (suc (suc (suc (suc (suc zero)))))))) =
    OperationState.failed
operation_state_of_ordinal (suc (suc (suc (suc (suc (suc (suc (suc (suc zero))))))))) =
    OperationState.timed_out
operation_state_of_ordinal (suc (suc (suc (suc (suc (suc (suc (suc (suc (suc zero)))))))))) =
    OperationState.cancelled
operation_state_of_ordinal (suc (suc (suc (suc (suc (suc (suc (suc (suc (suc (suc zero))))))))))) =
    OperationState.recovery_required
operation_state_of_ordinal
      (suc (suc (suc (suc (suc (suc (suc (suc (suc (suc (suc (suc zero)))))))))))) =
    OperationState.recovering
operation_state_of_ordinal _ = OperationState.recovered

operation_state_decode :
    (x : OperationState) → operation_state_of_ordinal (operation_state_ordinal x) ≡ x
operation_state_decode OperationState.requested = refl
operation_state_decode OperationState.refused = refl
operation_state_decode OperationState.starting = refl
operation_state_decode OperationState.active = refl
operation_state_decode OperationState.waiting = refl
operation_state_decode OperationState.stalled = refl
operation_state_decode OperationState.cancelling = refl
operation_state_decode OperationState.completed = refl
operation_state_decode OperationState.failed = refl
operation_state_decode OperationState.timed_out = refl
operation_state_decode OperationState.cancelled = refl
operation_state_decode OperationState.recovery_required = refl
operation_state_decode OperationState.recovering = refl
operation_state_decode OperationState.recovered = refl

pub OperationState-beq_iff :
    (x y : OperationState)
    → (nat_eq (operation_state_ordinal x) (operation_state_ordinal y) ≡ true) ↔ (x ≡ y)
OperationState-beq_iff =
    ordinal_iff operation_state_ordinal operation_state_of_ordinal operation_state_decode

instance abbrev pub OperationState-Eq : Eq OperationState
OperationState-Eq = record {
  beq = λ x y. nat_eq (operation_state_ordinal x) (operation_state_ordinal y);
  beq_iff = OperationState-beq_iff;
}

-- The clean-up of an operation, or of a process (which is never `not_required`).
pub data CleanupState : Type 0 where
  not_required required cleaning cleaned failed : CleanupState

abbrev pub cleanup_state_ordinal : CleanupState → ℕ
cleanup_state_ordinal CleanupState.not_required = 0
cleanup_state_ordinal CleanupState.required = 1
cleanup_state_ordinal CleanupState.cleaning = 2
cleanup_state_ordinal CleanupState.cleaned = 3
cleanup_state_ordinal CleanupState.failed = 4

abbrev cleanup_state_of_ordinal : ℕ → CleanupState
cleanup_state_of_ordinal zero = CleanupState.not_required
cleanup_state_of_ordinal (suc zero) = CleanupState.required
cleanup_state_of_ordinal (suc (suc zero)) = CleanupState.cleaning
cleanup_state_of_ordinal (suc (suc (suc zero))) = CleanupState.cleaned
cleanup_state_of_ordinal _ = CleanupState.failed

cleanup_state_decode : (x : CleanupState) → cleanup_state_of_ordinal (cleanup_state_ordinal x) ≡ x
cleanup_state_decode CleanupState.not_required = refl
cleanup_state_decode CleanupState.required = refl
cleanup_state_decode CleanupState.cleaning = refl
cleanup_state_decode CleanupState.cleaned = refl
cleanup_state_decode CleanupState.failed = refl

pub CleanupState-beq_iff :
    (x y : CleanupState)
    → (nat_eq (cleanup_state_ordinal x) (cleanup_state_ordinal y) ≡ true) ↔ (x ≡ y)
CleanupState-beq_iff =
    ordinal_iff cleanup_state_ordinal cleanup_state_of_ordinal cleanup_state_decode

instance abbrev pub CleanupState-Eq : Eq CleanupState
CleanupState-Eq = record {
  beq = λ x y. nat_eq (cleanup_state_ordinal x) (cleanup_state_ordinal y);
  beq_iff = CleanupState-beq_iff;
}

-- The life of a registered process.
pub data ProcessState : Type 0 where
  registered spawning started ready spawn_failed exited signalled possible_residual : ProcessState

abbrev pub process_state_ordinal : ProcessState → ℕ
process_state_ordinal ProcessState.registered = 0
process_state_ordinal ProcessState.spawning = 1
process_state_ordinal ProcessState.started = 2
process_state_ordinal ProcessState.ready = 3
process_state_ordinal ProcessState.spawn_failed = 4
process_state_ordinal ProcessState.exited = 5
process_state_ordinal ProcessState.signalled = 6
process_state_ordinal ProcessState.possible_residual = 7

abbrev process_state_of_ordinal : ℕ → ProcessState
process_state_of_ordinal zero = ProcessState.registered
process_state_of_ordinal (suc zero) = ProcessState.spawning
process_state_of_ordinal (suc (suc zero)) = ProcessState.started
process_state_of_ordinal (suc (suc (suc zero))) = ProcessState.ready
process_state_of_ordinal (suc (suc (suc (suc zero)))) = ProcessState.spawn_failed
process_state_of_ordinal (suc (suc (suc (suc (suc zero))))) = ProcessState.exited
process_state_of_ordinal (suc (suc (suc (suc (suc (suc zero)))))) = ProcessState.signalled
process_state_of_ordinal _ = ProcessState.possible_residual

process_state_decode : (x : ProcessState) → process_state_of_ordinal (process_state_ordinal x) ≡ x
process_state_decode ProcessState.registered = refl
process_state_decode ProcessState.spawning = refl
process_state_decode ProcessState.started = refl
process_state_decode ProcessState.ready = refl
process_state_decode ProcessState.spawn_failed = refl
process_state_decode ProcessState.exited = refl
process_state_decode ProcessState.signalled = refl
process_state_decode ProcessState.possible_residual = refl

pub ProcessState-beq_iff :
    (x y : ProcessState)
    → (nat_eq (process_state_ordinal x) (process_state_ordinal y) ≡ true) ↔ (x ≡ y)
ProcessState-beq_iff =
    ordinal_iff process_state_ordinal process_state_of_ordinal process_state_decode

instance abbrev pub ProcessState-Eq : Eq ProcessState
ProcessState-Eq = record {
  beq = λ x y. nat_eq (process_state_ordinal x) (process_state_ordinal y);
  beq_iff = ProcessState-beq_iff;
}
