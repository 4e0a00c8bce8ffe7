-- ===== src/Operations/Transitions.antt =====
-- The two transition tables of packages/kogg-operations/src/node/operation-registry.ts.
use kogg.Prelude.{Bool, true, false, List, [], ◌∷◌, includes}
use kogg.Operations.States.{OperationState, OperationState-Eq, ProcessState, ProcessState-Eq}

-- `TERMINAL.has(state)`.
unfoldable pub is_terminal : OperationState → Bool
is_terminal OperationState.refused = true
is_terminal OperationState.completed = true
is_terminal OperationState.failed = true
is_terminal OperationState.timed_out = true
is_terminal OperationState.cancelled = true
is_terminal OperationState.recovered = true
is_terminal _ = false

-- `TRANSITIONS[state]`.
unfoldable pub transitions : OperationState → List OperationState
transitions OperationState.requested = OperationState.refused ∷ OperationState.starting ∷ []
transitions OperationState.refused = []
transitions OperationState.starting =
    OperationState.active ∷ OperationState.waiting ∷ OperationState.cancelling
    ∷ OperationState.completed ∷ OperationState.failed ∷ OperationState.timed_out ∷ []
transitions OperationState.active =
    OperationState.waiting ∷ OperationState.stalled ∷ OperationState.cancelling
    ∷ OperationState.completed ∷ OperationState.failed ∷ OperationState.timed_out ∷ []
transitions OperationState.waiting =
    OperationState.active ∷ OperationState.stalled ∷ OperationState.cancelling
    ∷ OperationState.completed ∷ OperationState.failed ∷ OperationState.timed_out ∷ []
transitions OperationState.stalled =
    OperationState.active ∷ OperationState.cancelling ∷ OperationState.failed
    ∷ OperationState.timed_out ∷ []
transitions OperationState.cancelling = OperationState.cancelled ∷ OperationState.failed ∷ []
transitions OperationState.completed = []
transitions OperationState.failed = []
transitions OperationState.timed_out = []
transitions OperationState.cancelled = []
transitions OperationState.recovery_required = OperationState.recovering ∷ []
transitions OperationState.recovering = OperationState.recovered ∷ OperationState.failed ∷ []
transitions OperationState.recovered = []

unfoldable pub may_become : OperationState → OperationState → Bool
unfolding transitions
may_become current next = includes (transitions current) next

-- `PROCESS_TRANSITIONS[state]`.
unfoldable pub process_transitions : ProcessState → List ProcessState
process_transitions ProcessState.registered = ProcessState.spawning ∷ ProcessState.spawn_failed ∷ []
process_transitions ProcessState.spawning =
    ProcessState.started ∷ ProcessState.spawn_failed ∷ ProcessState.exited ∷ ProcessState.signalled
    ∷ []
process_transitions ProcessState.started =
    ProcessState.ready ∷ ProcessState.exited ∷ ProcessState.signalled ∷ ProcessState.spawn_failed
    ∷ []
process_transitions ProcessState.ready = ProcessState.exited ∷ ProcessState.signalled ∷ []
process_transitions ProcessState.spawn_failed = ProcessState.exited ∷ ProcessState.signalled ∷ []
process_transitions ProcessState.exited = []
process_transitions ProcessState.signalled = []
process_transitions ProcessState.possible_residual = []

unfoldable pub process_may_become : ProcessState → ProcessState → Bool
unfolding process_transitions
process_may_become current next = includes (process_transitions current) next
