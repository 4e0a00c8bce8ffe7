-- ===== src/Operations/Lifecycle.antt =====
-- Sequences of calls on the registry and what they keep:
-- packages/kogg-operations/src/node/operation-registry.ts.
use kogg.Prelude.{
  String, String-Eq, Bool, true, false, Option, none, some, List, [], ◌∷◌, ◌==◌, ◌≡◌, refl, ◌⊎◌,
  inl, inr, arith, All,
}
use kogg.Operations.Operation.{requested_id}
use kogg.Operations.Database.{Database}
use kogg.Operations.States.{OperationState}
use kogg.Operations.Transitions.{is_terminal}
use kogg.Operations.Registry.{Environment, Registry}
use kogg.Operations.Process.{
  process_spawning, process_started, process_ready, process_failed, process_exited,
}
use kogg.Operations.Calls.{Call, call, run}
use kogg.Operations.Moves.{Steps, done, Opens, state_of}
use kogg.Operations.Legal.Rules.{chain_of, opening_of}
use kogg.Operations.Legal.Operation.{start_operation-OpensFrom, activity-Legal}
use kogg.Operations.Legal.Process.{transition_process-Legal, cleanup_process-Legal}
use kogg.Operations.Legal.Cleanup.{cleanup_operation-Legal}
use kogg.Operations.Legal.Lease.{
  start-Legal, lease_active-Legal, waiting-Legal, observe-Legal, refuse-Legal, complete-Legal,
  fail-Legal, timeout-Legal, lease_register_process-Legal, lease_cancel-Legal,
  cancel_after_timeout-Steps, cancel-Legal,
}
use kogg.Operations.Consistency.{IsConsistent, Steps-IsConsistent, Opens-IsConsistent}
use kogg.Operations.Evolution.{
  Evolves, unchanged, moves, retires, Evolves-trans, Steps-Evolves, Opens-Evolves,
  may_become_terminal,
}

-- The identifier that a call opens an operation under, if it is one that opens one.
unfoldable pub opened_by : Environment → Call → Option String
opened_by env (Call.starts_operation request) = some (requested_id env request)
opened_by env _ = none

unfoldable pub opens : String → Environment × Call → Bool
unfolding opened_by
opens id (env, c) = elim (opened_by env c) [ none ↦ false | some other ↦ other == id ]

-- No call of a sequence opens an operation under the identifier.
abbrev pub NeverOpens : String → List (Environment × Call) → Type 0
NeverOpens id cs = All (λ (x : Environment × Call). opens id x ≡ false) cs

unfoldable pub Opened : Option String → Database → Database → Type 0
Opened none db db' = Steps db db'
Opened (some id) db db' = Opens id db db'

pub call-Opened :
    (env : Environment) (c : Call) (r : Registry)
    → Opened (opened_by env c) r.database (call env c r).database
unfolding call process_spawning process_started process_ready process_failed process_exited Opened
    opened_by
call-Opened env (Call.starts_operation request) r =
    opening_of (start_operation-OpensFrom env request r)
call-Opened env (Call.starts id) r = chain_of (start-Legal env id r)
call-Opened env (Call.activates id) r = chain_of (lease_active-Legal env id r)
call-Opened env (Call.waits id) r = chain_of (waiting-Legal env id r)
call-Opened env (Call.observes id) r = chain_of (observe-Legal env id r)
call-Opened env (Call.refuses id code) r = chain_of (refuse-Legal env id code r)
call-Opened env (Call.completes id code) r = chain_of (complete-Legal env id code r)
call-Opened env (Call.fails id code error) r = chain_of (fail-Legal env id code error r)
call-Opened env (Call.times_out id code) r = chain_of (timeout-Legal env id code r)
call-Opened env (Call.cleans_up id end) r =
    chain_of (cleanup_operation-Legal env id _ (λ r'. done) r)
call-Opened env (Call.cancels_lease id settled) r = chain_of (lease_cancel-Legal env id settled r)
call-Opened env (Call.fires id timer settled) r = cancel_after_timeout-Steps env id timer settled r
call-Opened env (Call.cancels request settled) r = chain_of (cancel-Legal env request settled r)
call-Opened env (Call.registers_process id request) r =
    chain_of (lease_register_process-Legal env id request r)
call-Opened env (Call.process_spawns o id) r =
    chain_of (transition_process-Legal env o id _ _ _ none r)
call-Opened env (Call.process_is_ready o id) r =
    chain_of (transition_process-Legal env o id _ _ _ none r)
call-Opened env (Call.process_cleans o id) r = chain_of (cleanup_process-Legal env o id r)
call-Opened env (Call.process_starts o id pid fingerprint) r =
    chain_of (transition_process-Legal env o id _ _ _ fingerprint r)
call-Opened env (Call.process_fails o id code error) r =
    chain_of (transition_process-Legal env o id _ _ _ none r)
call-Opened env (Call.process_exits o id class digest) r =
    chain_of (transition_process-Legal env o id _ _ _ none r)
call-Opened env (Call.process_is_active o id) r = chain_of (activity-Legal env o _ r)

Opened-IsConsistent :
    (o : Option String) (db db' : Database) → Opened o db db' → IsConsistent db → IsConsistent db'
unfolding Opened
Opened-IsConsistent none db db' s c = Steps-IsConsistent s c
Opened-IsConsistent (some id) db db' s c = Opens-IsConsistent s c

call-IsConsistent :
    (env : Environment) (x : Call) (r : Registry)
    → IsConsistent r.database
    → IsConsistent (call env x r).database
call-IsConsistent env x r c = Opened-IsConsistent (opened_by env x) _ _ (call-Opened env x r) c

-- From consistent tables, any sequence of calls, whether they return or throw, leaves consistent
-- tables: operation and process identifiers are unique, every process and every event belongs to an
-- operation that is there, and the event log is in strictly rising order of its sequence numbers.
pub run-IsConsistent :
    (r : Registry) (cs : List (Environment × Call))
    → IsConsistent r.database
    → IsConsistent (run r cs).database
unfolding run
run-IsConsistent r [] c = c
run-IsConsistent r ((env, x) ∷ cs) c =
    run-IsConsistent (call env x r) cs (call-IsConsistent env x r c)

Opened-Evolves :
    (id : String) (o : Option String) (db db' : Database)
    → elim o [ none ↦ false | some other ↦ other == id ] ≡ false
    → Opened o db db'
    → IsConsistent db
    → Evolves (state_of id db) (state_of id db')
unfolding Opened
Opened-Evolves id none db db' other s c = Steps-Evolves id s c
Opened-Evolves id (some x) db db' other s c = Opens-Evolves id x other s c

-- What one call does to an identifier: its row evolves, or the call opens an operation under it, where
-- none is left, as `requested`.
abbrev pub EvolvesOrOpens : String → Environment × Call → Registry → Type 0
EvolvesOrOpens id (env, x) r =
    Evolves (state_of id r.database) (state_of id (call env x r).database)
    ⊎ ((opens id (env, x) ≡ true)
        × Evolves (state_of id r.database) none
        × Evolves (some OperationState.requested) (state_of id (call env x r).database))

run-unopened :
    (r : Registry) (cs : List (Environment × Call)) (id : String)
    → IsConsistent r.database
    → NeverOpens id cs
    → Evolves (state_of id r.database) (state_of id (run r cs).database)
unfolding run opens
run-unopened r [] id c never = unchanged
run-unopened r ((env, x) ∷ cs) id c never =
    Evolves-trans (Opened-Evolves id (opened_by env x) _ _ never.0 (call-Opened env x r) c)
      (run-unopened (call env x r) cs id (call-IsConsistent env x r c) never.1)

-- What is gone stays away, and a terminal row stays as it is or is gone.
none_stays : {o : Option OperationState} → Evolves none o → o ≡ none
none_stays unchanged = refl
none_stays (moves k edge) = absurd (cc (none_stays k))
none_stays (retires k terminal) = refl

terminal_stays :
    {s : OperationState} {o : Option OperationState}
    → is_terminal s ≡ true
    → Evolves (some s) o
    → (o ≡ some s) ⊎ (o ≡ none)
terminal_stays h unchanged = inl refl
terminal_stays h (moves {s = a} {t = b} k edge) = elim (terminal_stays h k) [
  | inl e ↦ absurd (ground (arith, may_become_terminal a b edge))
  | inr e ↦ absurd (cc e)
]
terminal_stays h (retires k terminal) = inr refl

-- From consistent tables, no sequence of calls takes an operation out of a terminal state, as long as
-- none of them opens an operation afresh under its identifier: it is still in that state, or its row
-- was deleted and there is none.
pub run-terminal :
    (r : Registry) (cs : List (Environment × Call)) (id : String) (s : OperationState)
    → IsConsistent r.database
    → NeverOpens id cs
    → state_of id r.database ≡ some s
    → is_terminal s ≡ true
    → (state_of id (run r cs).database ≡ some s) ⊎ (state_of id (run r cs).database ≡ none)
run-terminal r cs id s c never at terminal =
    terminal_stays terminal (rw at at (run-unopened r cs id c never))
