-- ===== src/Operations/Reconciled.antt =====
-- The state of the tables after `recover`: packages/kogg-operations/src/node/operation-registry.ts.
use kogg.Prelude.{
  ℕ, String, String-Eq, Bool, true, false, not, ◌||◌, List, [], ◌∷◌, ◌++◌, ◌≡◌, refl, ◌⊎◌, any,
  filter, includes, arith, Bool-cases, inl, inr, All, All-filter_of, All-mono, ==_refl,
}
use kogg.Operations.Transitions.{is_terminal}
use kogg.Operations.Codes.{Admission}
use kogg.Operations.Database.{OperationRow, ProcessRow, Database, success}
use kogg.Operations.Prune.{ids, old, prune}
use kogg.Operations.Retention.{prune-old}
use kogg.Operations.Consistency.{IsConsistent}
use kogg.Operations.Recovery.{
  Host, is_incomplete, is_recoverable, is_unresolved, is_unresolved_process_of, admission_after,
  begin_recovery, end_recovery, conclude_recovery, recover,
}
use kogg.Operations.Recovered.{
  Present, Covered, mark_recovering-succeeds, recover_processes-succeeds,
  conclude_operations-succeeds,
}

-- None of the listed operations has a process that could not be cleaned.
abbrev pub Resolved : List ProcessRow → List String → Type 0
Resolved ps = All (λ id. any (is_unresolved_process_of id) ps ≡ false)

-- Every operation is settled, and admission is blocked unless no process of any is unresolved.
abbrev pub IsReconciled : Database → Type 0
IsReconciled db =
    All (λ (o : OperationRow). is_terminal o.state ≡ true) db.operations
    × ((db.meta.admission ≡ Admission.blocked)
        ⊎ ((db.meta.admission ≡ Admission.enabled) × Resolved db.processes (ids db.operations)))

Present-weaken :
    (o : OperationRow) (os : List OperationRow) (L : List String)
    → Present os L
    → Present (o ∷ os) L
unfolding ids
Present-weaken o os L h = All-mono _ _ L (λ id k. ground (arith, k)) h

filter-Present : (p : OperationRow → Bool) (os : List OperationRow) → Present os (ids (filter p os))
unfolding ids
filter-Present p [] = tt
filter-Present p (o ∷ os) =
    let rest = Present-weaken o os (ids (filter p os)) (filter-Present p os) in
    elim (Bool-cases (p o)) [ inl e ↦ rw e (rw (==_refl o.id) refl, rest) | inr e ↦ rw e rest ]

Covered-weaken :
    (id : String) (pending : List String) (os : List OperationRow)
    → Covered pending os
    → Covered (id ∷ pending) os
Covered-weaken id pending os h = All-mono _ _ os (λ o k. ground (arith, k)) h

complete_is_terminal : (o : OperationRow) → is_incomplete o ≡ false → is_terminal o.state ≡ true
unfolding is_incomplete
complete_is_terminal o h = settled (is_terminal o.state) _ h
  where
    settled : (a b : Bool) → (not a || b) ≡ false → a ≡ true
    settled true b h = refl
    settled false b h = cc

Covered-eq : (L L' : List String) (os : List OperationRow) → L ≡ L' → Covered L os → Covered L' os
Covered-eq L L' os e h = All-mono _ _ os (λ o k. rw (← e) k) h

incomplete-Covered : (os : List OperationRow) → Covered (ids (filter is_incomplete os)) os
unfolding ids
incomplete-Covered [] = tt
incomplete-Covered (o ∷ os) =
    let pending = ids (filter is_incomplete os) in
    elim (Bool-cases (is_incomplete o)) [
      | inl e ↦
          Covered-eq (o.id ∷ pending) (ids (filter is_incomplete (o ∷ os))) (o ∷ os) (rw e refl) (
            rw (==_refl o.id) (ground arith),
            Covered-weaken o.id pending os (incomplete-Covered os),
          )
      | inr e ↦
          Covered-eq pending (ids (filter is_incomplete (o ∷ os))) (o ∷ os) (rw e refl)
            (rw (complete_is_terminal o e) refl, incomplete-Covered os)
    ]

resolved_of :
    (ps : List ProcessRow) (o : OperationRow)
    → is_unresolved ps o ≡ false
    → any (is_unresolved_process_of o.id) ps ≡ false
unfolding is_unresolved
resolved_of ps o h = second _ _ h
  where
    second : (a b : Bool) → (a || b) ≡ false → b ≡ false
    second true b h = cc
    second false b h = h

-- A list includes what it lists.
own : (L : List String) → All (λ id. includes L id ≡ true) L
own [] = tt
own (id ∷ L) = (rw (==_refl id) refl, All-mono _ _ L (λ k h. ground (arith, h)) (own L))

no_unresolved :
    (ps : List ProcessRow) (os : List OperationRow) (blocked : List String)
    → ids (filter (is_unresolved ps) os) ++ blocked ≡ []
    → Resolved ps (ids os)
unfolding ids
no_unresolved ps [] blocked h = tt
no_unresolved ps (o ∷ os) blocked h = elim (Bool-cases (is_unresolved ps o)) [
  | inl e ↦
      let h' : o.id ∷ (ids (filter (is_unresolved ps) os) ++ blocked) ≡ [] = rw e at h in
      absurd (cc)
  | inr e ↦ (resolved_of ps o e, no_unresolved ps os blocked (rw e at h))
]

module _ (keep : String → Bool) where
  any-filter :
      (id : String) (ps : List ProcessRow)
      → any (is_unresolved_process_of id) ps ≡ false
      → any (is_unresolved_process_of id) (filter (λ (p : ProcessRow). keep p.operation_id) ps)
        ≡ false
  any-filter id [] h = refl
  any-filter id (p ∷ ps) h = ground (arith, any-filter id ps (ground arith))

  Resolved-filter :
      (ps : List ProcessRow) (os : List OperationRow)
      → Resolved ps (ids os)
      → Resolved
          (filter (λ (p : ProcessRow). keep p.operation_id) ps)
          (ids (filter (λ (o : OperationRow). keep o.id) os))
  unfolding ids
  Resolved-filter ps [] h = tt
  Resolved-filter ps (o ∷ os) h = elim (Bool-cases (keep o.id)) [
    | inl e ↦ rw e (any-filter o.id ps h.0, Resolved-filter ps os h.1)
    | inr e ↦ rw e (Resolved-filter ps os h.1)
  ]

-- The set that decides on admission is empty, or it is not.
admission_after-cases :
    (L : List String)
    → (admission_after L ≡ Admission.blocked) ⊎ ((admission_after L ≡ Admission.enabled) × (L ≡ []))
unfolding admission_after
admission_after-cases [] = inr (refl, refl)
admission_after-cases (id ∷ L) = inl refl

-- What is left of settled operations after the retention statement is settled, and resolved where
-- everything was.
pruned-IsReconciled : (db : Database) → IsReconciled db → IsReconciled (prune db)
pruned-IsReconciled db (settled, inl blocked) =
    rw (prune-old db) (All-filter_of _ _ _ db.operations (λ o h k. h) settled, inl blocked)
pruned-IsReconciled db (settled, inr (enabled, resolved)) = rw (prune-old db) (
  All-filter_of _ _ _ db.operations (λ o h k. h) settled,
  inr (
    enabled,
    Resolved-filter (λ id. not (includes (old db) id)) db.processes db.operations resolved,
  ),
)

conclude_recovery-reconciles :
    (now : ℕ) (incomplete blocked : List String) (db : Database)
    → Present db.operations incomplete
    → Covered incomplete db.operations
    → (db' : Database) × (conclude_recovery now incomplete (blocked, db) ≡ success db')
      × IsReconciled db'
unfolding conclude_recovery end_recovery
conclude_recovery-reconciles now incomplete blocked db here covered =
    let all_blocked = ids (filter (is_unresolved db.processes) db.operations) ++ blocked in
    let (d, e, same, settled, untouched) =
      conclude_operations-succeeds now all_blocked incomplete db here covered in
    let ended = end_recovery (admission_after all_blocked) d in
    let settled' =
      All-mono _ (λ (o : OperationRow). is_terminal o.state ≡ true) d.operations (λ o h. first _ h)
        settled in
    (
      prune ended,
      rw e refl,
      pruned-IsReconciled ended (
        settled',
        elim (admission_after-cases all_blocked) [
          | inl b ↦ inl b
          | inr (enabled, empty) ↦ inr (
            enabled,
            rw (same, untouched) (no_unresolved db.processes db.operations blocked empty),
          )
        ],
      ),
    )
  where
    first : (a : Bool) → (a || false) ≡ true → a ≡ true
    first true h = refl
    first false h = h

-- From consistent tables recovery does not fail. It leaves every operation in a terminal state, and
-- admission is enabled only if no operation that is left has a process that could not be cleaned;
-- otherwise it is blocked.
pub recover-IsReconciled :
    (host : Host) (now : ℕ) (instance_id : String) (db : Database)
    → IsConsistent db
    → (db' : Database) × (recover host now instance_id db ≡ success db') × IsReconciled db'
unfolding recover begin_recovery
recover-IsReconciled host now instance_id db c =
    let incomplete = ids (filter is_incomplete db.operations) in
    let here = filter-Present is_incomplete db.operations in
    let (marked, e1, same, covered, untouched) =
      mark_recovering-succeeds now incomplete incomplete (begin_recovery instance_id db) here
        (own incomplete) (incomplete-Covered db.operations) in
    let (s, e2, kept) =
      recover_processes-succeeds host now (filter is_recoverable marked.processes) [] marked (
        All-filter_of _ _ _ marked.processes (λ p h k. rw same h)
          (rw untouched c.process_parents)) in
    let (db', e3, reconciled) =
      conclude_recovery-reconciles now incomplete s.0 s.1 (rw (kept, same) here)
        (rw kept covered) in
    (db', rw e1 (rw e2 e3), reconciled)
