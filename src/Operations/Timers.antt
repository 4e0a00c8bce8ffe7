-- ===== src/Operations/Timers.antt =====
-- What the idle timer of a lease does: packages/kogg-operations/src/node/operation-registry.ts.

use kogg.Prelude.{none, String, false, Option, some, List, ◌≡◌, refl, arith, Option-cases, inl, inr}
use kogg.Operations.States.{OperationState}
use kogg.Operations.Codes.{OperationSafeCode}
use kogg.Operations.Transitions.{is_terminal, may_become}
use kogg.Operations.Database.{EventName, find_operation, RegistryError}
use kogg.Operations.Registry.{Environment, Registry, thrown, ◌>>=◌}
use kogg.Operations.Operation.{transition_operation, advance, operation_row}
use kogg.Operations.Cleanup.{Settled}
use kogg.Operations.Lease.{idle_timer, cancel_after_timeout, timeout_steps, mark_stalled}
use kogg.Operations.Moves.{state_of}

stalled_is_not_terminal : is_terminal OperationState.stalled ≡ false
unfolding is_terminal
stalled_is_not_terminal = refl

-- A transition that the table does not have is refused, and leaves the registry as it was.
transition_operation-refused :
    (env : Environment) (id : String) (name : EventName) (code : Option OperationSafeCode)
    (s t : OperationState) (r : Registry)
    → state_of id r.database ≡ some s
    → is_terminal s ≡ false
    → is_terminal t ≡ false
    → may_become s t ≡ false
    → transition_operation env id t name code none r ≡ thrown RegistryError.transition_invalid r
unfolding transition_operation ◌>>=◌ operation_row advance
transition_operation-refused env id name code s t r at running target no_edge =
    elim (Option-cases (find_operation id r.database)) [
      | inl e ↦ absurd (ground arith)
      | inr (o, e) ↦
          let same : o.state ≡ s = ground arith in
          rw (target, ◌>>=◌) (rw (e, ◌>>=◌, operation_row) (rw (same, running, no_edge) refl))
    ]

-- From a state that is not terminal and has no edge to `stalled`, the idle timer that fires changes
-- nothing: the operation does not time out, and neither it nor its processes are cleaned up.
pub idle_timer-without_edge :
    (env : Environment) (id : String) (settled : List Settled) (s : OperationState) (r : Registry)
    → state_of id r.database ≡ some s
    → is_terminal s ≡ false
    → may_become s OperationState.stalled ≡ false
    → cancel_after_timeout env id idle_timer settled r ≡ r
unfolding cancel_after_timeout timeout_steps mark_stalled ◌>>=◌
idle_timer-without_edge env id settled s r at running no_edge =
    let stuck =
      transition_operation-refused env id EventName.operation_stalled
        (some OperationSafeCode.operation_idle_timeout) s OperationState.stalled r at running
        stalled_is_not_terminal no_edge in
    rw (stuck, cancel_after_timeout, timeout_steps, mark_stalled, ◌>>=◌) refl
