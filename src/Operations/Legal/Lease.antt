-- ===== src/Operations/Legal/Lease.antt =====
-- The methods of a lease, and `cancel`, are chains of legal statements.
use kogg.Prelude.{
  inr, inl, ℕ, String, ◌++◌, [], ◌∷◌, Option, none, List, ◌≡◌, refl, arith, any, Option-cases,
  Bool-cases, String-Eq, ◌==◌,
}
use kogg.Operations.Codes.{OperationSafeCode}
use kogg.Operations.Requests.{StartProcess}
use kogg.Operations.Database.{RequestRow, bump}
use kogg.Operations.Cleanup.{Settled}
use kogg.Operations.Operation.{transition_operation}
use kogg.Operations.Process.{register_process}
use kogg.Operations.Lease.{
  change_lease, arm, arm_idle, clear, start, lease_active, waiting, observe, refuse, complete, fail,
  timeout, add_process, lease_register_process, cancel_run, lease_cancel, Timer, absolute_timer,
  idle_timer, mark_stalled, timeout_steps, cancel_after_timeout, CancelRequest, find_request,
  request_row, record_statements, require_lease, cancel_fresh, replay_or, cancel,
}
use kogg.Operations.Registry.{Environment, OperationLease, Registry, M, find_lease}
use kogg.Operations.Moves.{Step, Steps, done, ◌then◌}
use kogg.Operations.Legal.Rules.{
  Legal, chain, chain_of, LegalStatements, Legal-bind, guard-Legal, transaction-Legal, bump-Step,
}
use kogg.Operations.Legal.Operation.{transition_operation-Legal, activity-Legal}
use kogg.Operations.Legal.Process.{register_process-Legal}
use kogg.Operations.Legal.Cleanup.{LegalRun, cleanup_operation-Legal, cancel_processes-Legal}

change_lease-Legal :
    (id : String) (change : OperationLease → OperationLease) → Legal (change_lease id change)
unfolding change_lease
change_lease-Legal id change r = chain done

pub start-Legal : (env : Environment) (id : String) → Legal (start env id)
unfolding start arm
start-Legal env id =
    Legal-bind (transition_operation env id _ _ none none) _
      (transition_operation-Legal env id _ _ none none) (λ _. change_lease-Legal id _)

pub lease_active-Legal : (env : Environment) (id : String) → Legal (lease_active env id)
unfolding lease_active arm_idle
lease_active-Legal env id =
    Legal-bind (transition_operation env id _ _ none none) _
      (transition_operation-Legal env id _ _ none none) (λ _. change_lease-Legal id _)

pub waiting-Legal : (env : Environment) (id : String) → Legal (waiting env id)
unfolding waiting arm_idle
waiting-Legal env id =
    Legal-bind (transition_operation env id _ _ none none) _
      (transition_operation-Legal env id _ _ none none) (λ _. change_lease-Legal id _)

pub observe-Legal : (env : Environment) (id : String) → Legal (observe env id)
unfolding observe arm_idle
observe-Legal env id = Legal-bind _ _ (activity-Legal env id none) (λ _. change_lease-Legal id _)

pub refuse-Legal :
    (env : Environment) (id : String) (code : OperationSafeCode) → Legal (refuse env id code)
unfolding refuse clear
refuse-Legal env id code =
    Legal-bind (change_lease id _) _ (change_lease-Legal id _)
      (λ _. transition_operation-Legal env id _ _ _ _)

pub complete-Legal :
    (env : Environment) (id : String) (code : Option OperationSafeCode)
    → Legal (complete env id code)
unfolding complete clear
complete-Legal env id code =
    Legal-bind (change_lease id _) _ (change_lease-Legal id _)
      (λ _. transition_operation-Legal env id _ _ _ _)

pub fail-Legal :
    (env : Environment) (id : String) (code : OperationSafeCode) (error : String)
    → Legal (fail env id code error)
unfolding fail clear
fail-Legal env id code error =
    Legal-bind (change_lease id _) _ (change_lease-Legal id _)
      (λ _. transition_operation-Legal env id _ _ _ _)

pub timeout-Legal :
    (env : Environment) (id : String) (code : OperationSafeCode) → Legal (timeout env id code)
unfolding timeout clear
timeout-Legal env id code =
    Legal-bind (change_lease id _) _ (change_lease-Legal id _)
      (λ _. transition_operation-Legal env id _ _ _ _)

pub lease_register_process-Legal :
    (env : Environment) (id : String) (request : StartProcess)
    → Legal (lease_register_process env id request)
unfolding lease_register_process add_process
lease_register_process-Legal env id request =
    Legal-bind (register_process env id request) _ (register_process-Legal env id request)
      (λ p. Legal-bind (change_lease id _) _ (change_lease-Legal id _) (λ _ r. chain done))

cancel_run-Legal :
    (env : Environment) (id : String) (settled : List Settled)
    → LegalRun (cancel_run env id settled)
unfolding cancel_run
cancel_run-Legal env id settled r = cancel_processes-Legal env id settled _ r

pub lease_cancel-Legal :
    (env : Environment) (id : String) (settled : List Settled) → Legal (lease_cancel env id settled)
unfolding lease_cancel
lease_cancel-Legal env id settled =
    Legal-bind (transition_operation env id _ _ none none) _
      (transition_operation-Legal env id _ _ none none)
      (λ _.
        Legal-bind _ _ (cleanup_operation-Legal env id _ (cancel_run-Legal env id settled))
          (λ _. transition_operation-Legal env id _ _ none none))

mark_stalled-Legal :
    (env : Environment) (id : String) (timer : Timer) → Legal (mark_stalled env id timer)
unfolding mark_stalled
mark_stalled-Legal env id absolute_timer r = chain done
mark_stalled-Legal env id idle_timer r = transition_operation-Legal env id _ _ _ none r

timeout_steps-Legal :
    (env : Environment) (id : String) (timer : Timer) (settled : List Settled)
    → Legal (timeout_steps env id timer settled)
unfolding timeout_steps
timeout_steps-Legal env id timer settled = Legal-bind _ _ (mark_stalled-Legal env id timer) (λ _.
    Legal-bind _ _ (timeout-Legal env id _)
      (λ _. cleanup_operation-Legal env id _ (cancel_run-Legal env id settled)))

pub cancel_after_timeout-Steps :
    (env : Environment) (id : String) (timer : Timer) (settled : List Settled) (r : Registry)
    → Steps r.database (cancel_after_timeout env id timer settled r).database
unfolding cancel_after_timeout
cancel_after_timeout-Steps env id timer settled r =
    chain_of (timeout_steps-Legal env id timer settled r)

record_statements-Legal :
    (now : ℕ) (request : CancelRequest) → LegalStatements (record_statements now request)
unfolding record_statements
record_statements-Legal now request db db' h =
    elim (Bool-cases
      (any (λ (q : RequestRow). q.request_id == request.request_id) db.request_results)) [
        | inl e ↦ absurd (ground arith)
        | inr e ↦
            let row = request_row now request in
            let rows = db.request_results ++ row ∷ [] in
            let e' : bump (record db { request_results = rows }) ≡ db' = ground arith in
            rw (← e')
              (done then Step.request_added row (unfold request_row in e) refl then bump-Step _)
      ]

require_lease-Legal : (id : String) → Legal (require_lease id)
unfolding require_lease
require_lease-Legal id r = elim (Option-cases (find_lease id r.leases)) [
  | inl e ↦ rw (e, require_lease) (chain done)
  | inr (l, e) ↦ rw (e, require_lease) (guard-Legal _ _ r)
]

cancel_fresh-Legal :
    (env : Environment) (request : CancelRequest) (settled : List Settled)
    → Legal (cancel_fresh env request settled)
unfolding cancel_fresh
cancel_fresh-Legal env request settled =
    Legal-bind _ _ (require_lease-Legal request.operation_id) (λ _.
      Legal-bind _ _ (lease_cancel-Legal env request.operation_id settled)
        (λ _. transaction-Legal _ (record_statements-Legal env.now request)))

replay_or-Legal :
    (request : CancelRequest) (fresh : M (Unit {0})) → Legal fresh → Legal (replay_or request fresh)
unfolding replay_or
replay_or-Legal request fresh legal r =
    elim (Option-cases (find_request request.request_id r.database)) [
      | inl e ↦ rw (e, replay_or) (legal r)
      | inr (q, e) ↦ rw (e, replay_or) (guard-Legal _ _ r)
    ]

pub cancel-Legal :
    (env : Environment) (request : CancelRequest) (settled : List Settled)
    → Legal (cancel env request settled)
unfolding cancel
cancel-Legal env request settled = Legal-bind _ _ (guard-Legal _ _) (λ _.
    Legal-bind _ _ (guard-Legal _ _)
      (λ _. replay_or-Legal request _ (cancel_fresh-Legal env request settled)))
