-- ===== src/Operations/Retention.antt =====
-- What `prune` deletes: packages/kogg-operations/src/node/operation-registry.ts.

use kogg.Prelude.{
  inr, inl, String, String-Eq, Bool, true, false, not, List, [], ◌∷◌, ◌≡◌, refl, ap, ◌==◌, any,
  filter, drop, includes, ltb, arith, Bool-cases, All, All-filter_of, All-drop, filter-eq_of,
}
use kogg.Operations.Database.{OperationRow, ProcessRow, EventRow, Database}
use kogg.Operations.Prune.{
  is_unclean_process_of, is_prunable, insert_newest, newest_first, ids, old, delete_events,
  delete_processes, delete_operations, prune,
}

module _ (P : OperationRow → Type 0) where
  insert_newest-All :
      (o : OperationRow) (xs : List OperationRow) → P o → All P xs → All P (insert_newest o xs)
  unfolding insert_newest
  insert_newest-All o [] h k = (h, tt)
  insert_newest-All o (x ∷ xs) h k = elim (Bool-cases (ltb o.updated_at x.updated_at)) [
    | inl e ↦ rw e (k.0, insert_newest-All o xs h k.1)
    | inr e ↦ rw e (h, k)
  ]

  pub newest_first-All : (xs : List OperationRow) → All P xs → All P (newest_first xs)
  unfolding newest_first
  newest_first-All [] h = tt
  newest_first-All (x ∷ xs) h = insert_newest-All x (newest_first xs) h.0 (newest_first-All xs h.1)

-- A property of identifiers that the rows have, an included identifier has.
pub includes_ids-of :
    (Q : String → Type 0) (id : String) (xs : List OperationRow)
    → All (λ o. Q o.id) xs
    → includes (ids xs) id ≡ true
    → Q id
unfolding ids
includes_ids-of Q id [] h e = absurd (ground arith)
includes_ids-of Q id (x ∷ xs) h e = elim (Bool-cases (x.id == id)) [
  | inl same ↦ rw (← (String-Eq.beq_iff x.id id).0 same) h.0
  | inr other ↦ includes_ids-of Q id xs h.1 (ground arith)
]

-- What every prunable operation has, every identifier in `old` has.
pub old-of :
    (P : OperationRow → Type 0) (Q : String → Type 0) (id : String) (db : Database)
    → All P db.operations
    → ((o : OperationRow) → P o → is_prunable db.processes o ≡ true → Q o.id)
    → includes (old db) id ≡ true
    → Q id
unfolding old
old-of P Q id db all k e =
    includes_ids-of Q id _
      (All-drop (λ o. Q o.id) 100 _
        (newest_first-All (λ o. Q o.id) _
          (All-filter_of P (λ o. Q o.id) (is_prunable db.processes) db.operations k all)))
      e

All-Unit : (xs : List OperationRow) → All (λ _. Unit {0}) xs
All-Unit [] = tt
All-Unit (x ∷ xs) = (tt, All-Unit xs)

-- No process of an operation that goes is unclean.
pub old-clean :
    (id : String) (db : Database)
    → includes (old db) id ≡ true
    → any (is_unclean_process_of id) db.processes ≡ false
old-clean id db e =
    old-of (λ _. Unit {0}) (λ id. any (is_unclean_process_of id) db.processes ≡ false) id db
      (All-Unit db.operations) (λ o _ h. clean o h) e
  where
    clean :
        (o : OperationRow)
        → is_prunable db.processes o ≡ true
        → any (is_unclean_process_of o.id) db.processes ≡ false
    clean o h = unfold is_prunable in ground arith

-- Leaving out the processes of identifiers that are clean changes no test of cleanness.
any-filter_clean :
    (id : String) (gone : List String) (ps : List ProcessRow)
    → (includes gone id ≡ true → any (is_unclean_process_of id) ps ≡ false)
    → any
        (is_unclean_process_of id)
        (filter (λ (p : ProcessRow). not (includes gone p.operation_id)) ps)
      ≡ any (is_unclean_process_of id) ps
any-filter_clean id gone [] h = refl
any-filter_clean id gone (p ∷ ps) h =
    let rest = any-filter_clean id gone ps (λ e. ground (arith, h e)) in
    elim (Bool-cases (includes gone p.operation_id)) [
      | inr stays ↦ ground (arith, rest)
      | inl goes ↦
          let skipped = skip (p.operation_id == id) refl goes in
          rw goes (ground (arith, rest, skipped))
    ]
  where
    skip :
        (b : Bool)
        → (p.operation_id == id) ≡ b
        → includes gone p.operation_id ≡ true
        → is_unclean_process_of id p ≡ false
    skip false e goes = unfold is_unclean_process_of in rw e
    skip true e goes =
        let same = (String-Eq.beq_iff p.operation_id id).0 e in
        let e' : includes gone id ≡ true = rw same at goes in ground (arith, h e')

-- The subquery finds the same operations again, once it has been acted on.
pub is_prunable-stable :
    (db : Database) (o : OperationRow)
    → is_prunable
        (filter (λ (p : ProcessRow). not (includes (old db) p.operation_id)) db.processes)
        o
      ≡ is_prunable db.processes o
unfolding is_prunable
is_prunable-stable db o = rw (any-filter_clean o.id (old db) db.processes (old-clean o.id db))

-- Deleting the events and then the processes of `old` leaves the subquery as it was.
old-stable : (db : Database) → old (delete_processes (delete_events db)) ≡ old db
unfolding old delete_processes delete_events
old-stable db =
    ap (λ rows. ids (drop 100 (newest_first rows)))
      (filter-eq_of _ _ db.operations (λ o. is_prunable-stable db o))

-- So one pass over each table, by the subquery at the start, has the same result as the three
-- statements.
pub prune-old :
    (db : Database)
    → prune db ≡ record db {
      operations = filter (λ (o : OperationRow). not (includes (old db) o.id)) db.operations;
      processes = filter (λ (p : ProcessRow). not (includes (old db) p.operation_id)) db.processes;
      events = filter (λ (e : EventRow). not (includes (old db) e.operation_id)) db.events;
    }
unfolding prune delete_operations
prune-old db = rw (old-stable db) (unfold delete_processes delete_events old in refl)
