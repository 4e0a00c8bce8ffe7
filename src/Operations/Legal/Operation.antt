-- ===== src/Operations/Legal/Operation.antt =====
-- `startOperation`, `transitionOperation` and `activity` are chains of legal statements.

use kogg.Prelude.{
  ℕ, suc, String, String-Eq, ℕ-Eq, Bool, true, false, Option, none, some, ◌≡◌, refl, inl, inr, ◌==◌,
  if◌then◌else◌, arith, Bool-cases, Option-cases,
}
use kogg.Operations.States.{OperationState, OperationState-Eq}
use kogg.Operations.Kinds.{OperationKind}
use kogg.Operations.Codes.{OperationSafeCode, Admission-Eq}
use kogg.Operations.Transitions.{is_terminal, may_become}
use kogg.Operations.Requests.{StartOperation}
use kogg.Operations.Database
use kogg.Operations.Database.{
  OperationRow, EventRow, EventName, Database, RegistryError, Result, success, failure,
  append_event, find_operation, has_operation, on_operation, insert_operation, bump,
}
use kogg.Operations.Prune.{prune}
use kogg.Operations.Operation.{
  operation_row, activity_statements, keep_activity, activity, is_throttled, flush_activity,
  transition_statements, forget, advance, transition_operation, requested_row, start_statements,
  start_operation, requested_id, check_admission, insert_requested, keep_lease,
}
use kogg.Operations.Registry.{Environment, Activity, get_activity, Registry, ok, transaction}
use kogg.Operations.Moves.{
  Step, Steps, done, ◌then◌, Steps-trans, state_of, Opens, opens_one, with_operation,
}
use kogg.Operations.Legal.Rules.{
  OpensFrom, Legal-OpensFrom, OpensFrom-Legal, transaction-OpensFrom, Legal, LegalFrom, chain,
  LegalStatements, bind-LegalFrom, if-Legal, Legal-bind, transaction-LegalFrom, transaction-Legal,
  append_event-Steps, guard-Legal, bump-Step, logged-Steps,
}

activity_statements-Legal :
    (now : ℕ) (id : String) (count : ℕ) (process_id : Option String)
    → LegalStatements (activity_statements now id count process_id)
unfolding activity_statements
activity_statements-Legal now id count process_id db db' h =
    logged-Steps now id process_id EventName.process_activity db (on_operation id _) bump db'
      (Step.operation_kept id _ (λ o. refl) (λ o. refl) refl) (λ mid. done then bump-Step mid) h

keep_activity-Legal : (id : String) (a : Activity) → Legal (keep_activity id a)
keep_activity-Legal id a r = chain done

pub flush_activity-Legal : (env : Environment) (id : String) → Legal (flush_activity env id)
unfolding flush_activity
flush_activity-Legal env id r =
    elim (Bool-cases ((get_activity id r.activity_state).pending == 0)) [
      | inl e ↦ rw e (chain done)
      | inr e ↦ rw e (
          bind-LegalFrom (transaction _) _ r.database r
            (transaction-Legal _ (activity_statements-Legal env.now id _ none) r)
            (λ a r' _. keep_activity-Legal id _ r'))
    ]

pub activity-Legal :
    (env : Environment) (id : String) (process_id : Option String)
    → Legal (activity env id process_id)
unfolding activity
activity-Legal env id process_id r =
    let a = get_activity id r.activity_state in
    elim (Bool-cases (is_throttled env.now a.last_persisted (suc a.pending))) [
      | inl e ↦ rw e (chain done)
      | inr e ↦ rw e (
          bind-LegalFrom (transaction _) _ r.database _
            (transaction-Legal _ (activity_statements-Legal env.now id _ process_id) _)
            (λ a r' _. keep_activity-Legal id _ r'))
    ]

transition_statements-Steps :
    (now : ℕ) (id : String) (s t : OperationState) (name : EventName)
    (code : Option OperationSafeCode) (error : Option String) (db db' : Database)
    → state_of id db ≡ some s
    → may_become s t ≡ true
    → transition_statements now id t name code error db ≡ success db'
    → Steps db db'
unfolding transition_statements
transition_statements-Steps now id s t name code error db db' at edge h =
    logged-Steps now id none name db (on_operation id _)
      (λ mid. bump (if is_terminal t then prune mid else mid)) db'
      (Step.operation_moved id _ s t (λ o. refl) (λ o. refl) at edge refl)
      (λ mid. prune_if (is_terminal t) mid) h
  where
    prune_if : (b : Bool) (mid : Database) → Steps mid (bump (if b then prune mid else mid))
    prune_if true mid = done then Step.pruned refl then bump-Step (prune mid)
    prune_if false mid = done then bump-Step mid

forget-database : (b : Bool) (id : String) → Legal (forget b id)
unfolding forget
forget-database true id r = chain done
forget-database false id r = chain done

advance-LegalFrom :
    (env : Environment) (id : String) (s t : OperationState) (name : EventName)
    (code : Option OperationSafeCode) (error : Option String) (r : Registry)
    → state_of id r.database ≡ some s
    → LegalFrom r.database (advance env id s t name code error r)
unfolding advance
advance-LegalFrom env id s t name code error r at = elim (Bool-cases (is_terminal s)) [
  | inl e ↦ rw e (if-Legal (s == t) _ _ (λ r. chain done) (λ r. chain done) r)
  | inr e ↦ rw e (elim (Bool-cases (may_become s t)) [
    | inl edge ↦ rw edge (
        bind-LegalFrom (transaction _) _ r.database r
          (transaction-LegalFrom _ r (λ db'.
            transition_statements-Steps env.now id s t name code error r.database db' at edge))
          (λ a r' _. forget-database (is_terminal t) id r'))
    | inr other ↦ rw other (chain done)
  ])
]

operation_row-Legal : (id : String) → Legal (operation_row id)
unfolding operation_row
operation_row-Legal id r = elim (Option-cases (find_operation id r.database)) [
  | inl e ↦ rw (e, operation_row) (chain done)
  | inr (row, e) ↦ rw (e, operation_row) (chain done)
]

operation_row-finds :
    (id : String) (r r' : Registry) (row : OperationRow)
    → operation_row id r ≡ ok row r'
    → (r' ≡ r) × (state_of id r.database ≡ some row.state)
unfolding operation_row
operation_row-finds id r r' row h = ground arith

-- A transition is a chain of legal statements, whether it returns or throws.
pub transition_operation-Legal :
    (env : Environment) (id : String) (t : OperationState) (name : EventName)
    (code : Option OperationSafeCode) (error : Option String)
    → Legal (transition_operation env id t name code error)
unfolding transition_operation
transition_operation-Legal env id t name code error r =
    bind-LegalFrom _ _ r.database r
      (if-Legal (is_terminal t) (flush_activity env id) _ (flush_activity-Legal env id)
        (λ r. chain done) r)
      (λ a r' _.
        bind-LegalFrom (operation_row id) _ r'.database r' (operation_row-Legal id r')
          (λ row r'' found.
            let at = operation_row-finds id r' r'' row found in
            advance-LegalFrom env id row.state t name code error r'' (ground arith)))

inserted_fresh :
    (row : OperationRow) (db mid : Database)
    → insert_operation row db ≡ success mid
    → (has_operation row.id db ≡ false) × (with_operation row db ≡ mid)
unfolding insert_operation
inserted_fresh row db mid h = elim (Bool-cases (has_operation row.id db)) [
  | inl e ↦ absurd (ground arith)
  | inr e ↦ (e, ground arith)
]

start_statements-Opens :
    (now : ℕ) (row : OperationRow) (db db' : Database)
    → row.state ≡ OperationState.requested
    → start_statements now row db ≡ success db'
    → Opens row.id db db'
unfolding start_statements
start_statements-Opens now row db db' new h =
    let (mid, inserted, rest) = Database.>>=-eq-success (insert_operation row db) _ h in
    let (last, logged, bumped) =
      Database.>>=-eq-success (append_event now row.id none EventName.operation_requested mid) _
        rest in
    let (fresh, same) = inserted_fresh row db mid inserted in
    opens_one row done refl new fresh (
      rw same (
        Steps-trans
          (append_event-Steps now row.id none EventName.operation_requested mid last logged)
          (finish last bumped)))
  where
    finish : (last : Database) → success (bump last) ≡ success db' → Steps last db'
    finish last e = let e' : bump last ≡ db' = ground arith in rw (← e') (done then bump-Step last)

check_admission-Legal : (kind : OperationKind) → Legal (check_admission kind)
unfolding check_admission
check_admission-Legal kind r = guard-Legal _ _ r

insert_requested-OpensFrom :
    (env : Environment) (id : String) (request : StartOperation) (r : Registry)
    → OpensFrom id r.database (insert_requested env id request r)
unfolding insert_requested requested_row
insert_requested-OpensFrom env id request r = transaction-OpensFrom id _ r (λ db'.
    start_statements-Opens env.now (requested_row env id r.instance_id request) r.database db' refl)

-- Opening an operation inserts its row at most once, and is a chain of legal statements otherwise,
-- whether it returns or throws.
pub start_operation-OpensFrom :
    (env : Environment) (request : StartOperation) (r : Registry)
    → OpensFrom (requested_id env request) r.database (start_operation env request r)
unfolding start_operation keep_lease
start_operation-OpensFrom env request r =
    let id = requested_id env request in
    Legal-OpensFrom id _ _ r (guard-Legal _ _) (λ _ r1.
      Legal-OpensFrom id _ _ r1 (guard-Legal _ _) (λ _ r2.
        Legal-OpensFrom id (check_admission request.kind) _ r2 (check_admission-Legal request.kind)
          (λ _ r3.
            OpensFrom-Legal id (insert_requested env id request) _ r3
              (insert_requested-OpensFrom env id request r3)
              (λ _. Legal-bind (keep_lease _) _ (λ r. chain done) (λ _ r. chain done)))))
