-- ===== src/Operations/Evolution.antt =====
-- What the life of one operation, and of one process, can look like from outside:
-- packages/kogg-operations/src/node/operation-registry.ts.
use mathlib.Core.Option
use mathlib.Core.Path.{subst}
use kogg.Prelude.{
  ◌⊎◌, ==_refl, String, String-Eq, Bool, true, false, not, Option, none, some, List, [], ◌∷◌, ◌++◌,
  ◌≡◌, refl, sym, ap, inl, inr, ◌==◌, any, find?, filter, includes, if◌then◌else◌, arith,
  Bool-cases, Option-cases, All,
}
use kogg.Operations.States.{OperationState}
use kogg.Operations.Transitions.{is_terminal, may_become}
use kogg.Operations.Database.{OperationRow, Database, find_operation, has_operation, on_operation}
use kogg.Operations.Prune.{ids, old, prune, is_prunable}
use kogg.Operations.Rows.{KeepsId, find-update_operations}
use kogg.Operations.Retention.{prune-old, old-of}
use kogg.Operations.Moves.{
  state_of, Step, Steps, done, ◌then◌, Opens, opens_none, opens_one, with_operation,
}
use kogg.Operations.Consistency.{
  IsConsistent, Distinct, Steps-IsConsistent, with_operation-IsConsistent,
}

-- The rows under one identifier, in time, while no operation is opened under it: it goes along the
-- edges of the transition table, and may disappear once it is in a terminal state.
pub data Evolves (o : Option OperationState) : Option OperationState → Type 0 where
  unchanged : Evolves o o
  moves : {s t : OperationState} → Evolves o (some s) → may_become s t ≡ true → Evolves o (some t)
  retires : {s : OperationState} → Evolves o (some s) → is_terminal s ≡ true → Evolves o none

pub Evolves-trans : {a b c : Option OperationState} → Evolves a b → Evolves b c → Evolves a c
Evolves-trans h unchanged = h
Evolves-trans h (moves k e) = moves (Evolves-trans h k) e
Evolves-trans h (retires k e) = retires (Evolves-trans h k) e

Evolves-eq : {a b : Option OperationState} → a ≡ b → Evolves a b
Evolves-eq {a} e = rw (← e) unchanged

-- An update that keeps the state.
kept-state :
    (k id : String) (change : OperationRow → OperationRow) (db : Database)
    → KeepsId change
    → ((o : OperationRow) → (change o).state ≡ o.state)
    → state_of k (on_operation id change db) ≡ state_of k db
kept-state k id change db keeps same =
    rw (find-update_operations k id change db.operations keeps) (elim (Bool-cases (id == k)) [
      | inr e ↦ rw e
      | inl e ↦ rw e (elim (Option-cases (find_operation k db)) [
        | inl f ↦ rw f
        | inr (o, f) ↦ rw f (ap some (same o))
      ])
    ])

moved-Evolves :
    (k id : String) (change : OperationRow → OperationRow) (s t : OperationState) (db : Database)
    → KeepsId change
    → ((o : OperationRow) → (change o).state ≡ t)
    → state_of id db ≡ some s
    → may_become s t ≡ true
    → Evolves (state_of k db) (state_of k (on_operation id change db))
moved-Evolves k id change s t db keeps sets at edge =
    rw (find-update_operations k id change db.operations keeps) (elim (Bool-cases (id == k)) [
      | inr e ↦ rw e unchanged
      | inl e ↦
          let same = (String-Eq.beq_iff id k).0 e in
          let at' : state_of k db ≡ some s = rw same at at in
          rw e (elim (Option-cases (find_operation k db)) [
            | inl f ↦ absurd (ground arith)
            | inr (o, f) ↦ rw f (rw (sets o) (moves (Evolves-eq (ground arith)) edge))
          ])
    ])

find-append :
    (k : String) (os : List OperationRow) (row : OperationRow)
    → find? (λ (o : OperationRow). o.id == k) (os ++ row ∷ []) ≡ (
        if any (λ (o : OperationRow). o.id == k) os
        then find? (λ (o : OperationRow). o.id == k) os
        else if row.id == k
        then some row
        else none)
find-append k [] row = refl
find-append k (o ∷ os) row = ground (arith, find-append k os row)

find-none :
    (k : String) (os : List OperationRow)
    → any (λ (o : OperationRow). o.id == k) os ≡ false
    → find? (λ (o : OperationRow). o.id == k) os ≡ none
find-none k [] h = refl
find-none k (o ∷ os) h = ground (arith, find-none k os (ground arith))

none_there : (k : String) (db : Database) → has_operation k db ≡ false → state_of k db ≡ none
none_there k db fresh = ap (Option.map _) (find-none k db.operations fresh)

-- The insertion of a row, for another identifier and for its own.
added-other :
    (k : String) (row : OperationRow) (db : Database)
    → (row.id == k) ≡ false
    → state_of k (with_operation row db) ≡ state_of k db
added-other k row db other =
    rw (find-append k db.operations row) (elim (Bool-cases (has_operation k db)) [
      | inl e ↦ rw e refl
      | inr e ↦ rw (e, other) (sym (none_there k db e))
    ])

added-own :
    (row : OperationRow) (db : Database)
    → row.state ≡ OperationState.requested
    → has_operation row.id db ≡ false
    → state_of row.id (with_operation row db) ≡ some OperationState.requested
added-own row db new fresh =
    rw (find-append row.id db.operations row) (rw (fresh, ==_refl row.id) (rw new refl))

find-filter :
    (keep : String → Bool) (k : String) (os : List OperationRow)
    → find? (λ (o : OperationRow). o.id == k) (filter (λ (o : OperationRow). keep o.id) os)
      ≡ (if keep k then find? (λ (o : OperationRow). o.id == k) os else none)
find-filter keep k [] = ground arith
find-filter keep k (o ∷ os) = ground (arith, String-Eq.beq_iff o.id k, find-filter keep k os)

-- The row that an identifier finds is the given one.
abbrev Finds : List OperationRow → OperationRow → Type 0
Finds os o = find? (λ (x : OperationRow). x.id == o.id) os ≡ some o

Finds-cons :
    (o : OperationRow) (os xs : List OperationRow)
    → includes (ids xs) o.id ≡ false
    → All (Finds os) xs
    → All (Finds (o ∷ os)) xs
unfolding ids
Finds-cons o os [] fresh h = tt
Finds-cons o os (x ∷ xs) fresh h = (
  ground (arith, h.0, String-Eq.beq_iff x.id o.id, String-Eq.beq_iff o.id x.id),
  Finds-cons o os xs (ground arith) h.1,
)

-- Under unique keys every row is the one that its identifier finds.
All-Finds : (os : List OperationRow) → Distinct (ids os) → All (Finds os) os
unfolding ids
All-Finds [] d = tt
All-Finds (o ∷ os) d =
    (rw ((String-Eq.beq_iff o.id o.id).1 refl) refl, Finds-cons o os os d.0 (All-Finds os d.1))

-- A row that `prune` deletes is in a terminal state.
abbrev Retired : Database → String → Type 0
Retired db id = (s : OperationState) × (state_of id db ≡ some s) × (is_terminal s ≡ true)

old-Retired :
    (k : String) (db : Database) → IsConsistent db → includes (old db) k ≡ true → Retired db k
old-Retired k db c =
    old-of (Finds db.operations) (Retired db) k db (All-Finds db.operations c.operation_keys)
      (λ o finds h. (o.state, ap (Option.map (λ (o : OperationRow). o.state)) finds, terminal o h))
  where
    terminal : (o : OperationRow) → is_prunable db.processes o ≡ true → is_terminal o.state ≡ true
    terminal o h = unfold is_prunable in ground arith

pruned-Evolves :
    (k : String) (db : Database) → IsConsistent db → Evolves (state_of k db) (state_of k (prune db))
pruned-Evolves k db c = rw (prune-old db) (
    rw (find-filter (λ id. not (includes (old db) id)) k db.operations)
      (elim (Bool-cases (includes (old db) k)) [
        | inr e ↦ rw e unchanged
        | inl e ↦
            let (s, at, terminal) = old-Retired k db c e in rw e (retires (Evolves-eq at) terminal)
      ]))

-- One legal statement on consistent tables.
pub Step-Evolves :
    (k : String) {db db' : Database}
    → Step db db'
    → IsConsistent db
    → Evolves (state_of k db) (state_of k db')
Step-Evolves k (Step.meta_written m _ e) c = rw e unchanged
Step-Evolves k {db} (Step.operation_kept id change keeps same e) c =
    rw e (Evolves-eq (sym (kept-state k id change db keeps same)))
Step-Evolves k {db} (Step.operation_moved id change s t keeps sets at edge e) c =
    rw e (moved-Evolves k id change s t db keeps sets at edge)
Step-Evolves k (Step.process_kept _ _ _ _ _ e) c = rw e unchanged
Step-Evolves k (Step.process_moved _ _ _ _ _ _ _ _ _ e) c = rw e unchanged
Step-Evolves k (Step.process_added _ _ _ _ e) c = rw e unchanged
Step-Evolves k (Step.event_added _ _ _ e) c = rw e unchanged
Step-Evolves k (Step.request_added _ _ e) c = rw e unchanged
Step-Evolves k {db} (Step.pruned e) c = rw e (pruned-Evolves k db c)

pub Steps-Evolves :
    (k : String) {db db' : Database}
    → Steps db db'
    → IsConsistent db
    → Evolves (state_of k db) (state_of k db')
Steps-Evolves k done c = unchanged
Steps-Evolves k (h then s) c =
    Evolves-trans (Steps-Evolves k h c) (Step-Evolves k s (Steps-IsConsistent h c))

-- An opening leaves every other identifier to legal statements.
pub Opens-Evolves :
    (k id : String) {db db' : Database}
    → (id == k) ≡ false
    → Opens id db db'
    → IsConsistent db
    → Evolves (state_of k db) (state_of k db')
Opens-Evolves k id other (opens_none s) c = Steps-Evolves k s c
Opens-Evolves k id other (opens_one {mid} row s same new fresh t) c =
    let before = Steps-IsConsistent s c in
    Evolves-trans
      (Evolves-trans (Steps-Evolves k s c)
        (Evolves-eq (sym (added-other k row mid (subst (λ x. (x == k) ≡ false) (sym same) other)))))
      (Steps-Evolves k t (with_operation-IsConsistent row mid fresh before))

-- Its own identifier has no row then, and evolves from `requested`.
pub Opens-requested :
    (id : String) {db db' : Database}
    → Opens id db db'
    → IsConsistent db
    → Evolves (state_of id db) (state_of id db')
      ⊎ (Evolves (state_of id db) none × Evolves (some OperationState.requested) (state_of id db'))
Opens-requested id (opens_none s) c = inl (Steps-Evolves id s c)
Opens-requested id {db} {db'} (opens_one {mid} row s same new fresh t) c =
    let before = Steps-IsConsistent s c in
    let at =
      subst (λ x. state_of x (with_operation row mid) ≡ some OperationState.requested) same
        (added-own row mid new fresh) in
    let gone = none_there id mid (subst (λ x. has_operation x mid ≡ false) same fresh) in
    inr (
      Evolves-trans (Steps-Evolves id s c) (Evolves-eq gone),
      Evolves-trans (Evolves-eq (sym at))
          (Steps-Evolves id t (with_operation-IsConsistent row mid fresh before)),
    )

-- No edge leaves a terminal state.
pub may_become_terminal : (s t : OperationState) → may_become s t ≡ true → is_terminal s ≡ false
unfolding may_become is_terminal
may_become_terminal s t h = ground arith
