-- ===== src/Operations/Retained.antt =====
-- What `prune` leaves: packages/kogg-operations/src/node/operation-registry.ts.
use kogg.Prelude.{
  ℕ, zero, suc, ◌+◌, ◌≤◌, String, String-Eq, Bool, true, false, not, List, [], ◌∷◌, ◌≡◌, refl, any,
  filter, length, take, drop, includes, arith, Bool-cases, inl, inr, length-take-le, filter-eq_of,
  ==_refl,
}
use kogg.Operations.Database.{OperationRow, ProcessRow, Database}
use kogg.Operations.Prune.{
  is_unclean_process_of, is_prunable, insert_newest, newest_first, ids, old, prune,
}
use kogg.Operations.Retention.{prune-old, old-clean, is_prunable-stable}

-- The processes that are not cleaned, or possibly still there.
abbrev pub unclean : List ProcessRow → List ProcessRow
unclean = filter (λ (p : ProcessRow). is_unclean_process_of p.operation_id p)

unclean-kept :
    (gone : List String) (ps : List ProcessRow)
    → ((id : String) → includes gone id ≡ true → any (is_unclean_process_of id) ps ≡ false)
    → unclean (filter (λ (p : ProcessRow). not (includes gone p.operation_id)) ps) ≡ unclean ps
unclean-kept gone [] h = refl
unclean-kept gone (p ∷ ps) h =
    let rest = unclean-kept gone ps (λ id e. ground (arith, h id e)) in
    elim (Bool-cases (includes gone p.operation_id)) [
      | inl e ↦ rw e (ground (arith, rest, h p.operation_id e))
      | inr e ↦ rw e (ground (arith, rest))
    ]

-- No process that is not cleaned, or that may still be there, is deleted.
pub prune-unclean : (db : Database) → unclean (prune db).processes ≡ unclean db.processes
prune-unclean db =
    rw (prune-old db) (unclean-kept (old db) db.processes (λ id e. old-clean id db e))

module _ (q : OperationRow → Bool) where
  count-insert_newest :
      (o : OperationRow) (xs : List OperationRow)
      → length (filter q (insert_newest o xs)) ≡ length (filter q (o ∷ xs))
  unfolding insert_newest
  count-insert_newest o [] = refl
  count-insert_newest o (x ∷ xs) = ground (arith, count-insert_newest o xs)

  count-newest_first :
      (xs : List OperationRow) → length (filter q (newest_first xs)) ≡ length (filter q xs)
  unfolding newest_first
  count-newest_first [] = refl
  count-newest_first (o ∷ xs) =
      ground (arith, count-insert_newest o (newest_first xs), count-newest_first xs)

  count-le : (xs : List OperationRow) → length (filter q xs) ≤ length xs
  count-le [] = omega arith
  count-le (x ∷ xs) = ground (arith, count-le xs)

  count-split :
      (n : ℕ) (xs : List OperationRow)
      → length (filter q xs) ≡ length (filter q (take n xs)) + length (filter q (drop n xs))
  count-split zero xs = ground arith
  count-split (suc n) [] = ground arith
  count-split (suc n) (x ∷ xs) = ground (arith, count-split n xs)

-- None of the rows is left out by its own identifier.
count-own :
    (gone : List String) (xs : List OperationRow)
    → ((id : String) → includes (ids xs) id ≡ true → includes gone id ≡ true)
    → length (filter (λ (o : OperationRow). not (includes gone o.id)) xs) ≡ 0
unfolding ids
count-own gone [] h = refl
count-own gone (x ∷ xs) h =
    ground
      (arith, h x.id (rw (==_refl x.id) refl), count-own gone xs (λ id e. h id (ground (arith, e))))

filter-filter :
    (p q : OperationRow → Bool) (xs : List OperationRow)
    → filter p (filter q xs) ≡ filter q (filter p xs)
filter-filter p q [] = refl
filter-filter p q (x ∷ xs) = ground (arith, filter-filter p q xs)

-- At most a hundred operations that could be deleted are left.
pub prune-bound :
    (db : Database) → length (filter (is_prunable (prune db).processes) (prune db).operations) ≤ 100
unfolding old
prune-bound db =
    let keep = λ (o : OperationRow). not (includes (old db) o.id) in
    let rows = newest_first (filter (is_prunable db.processes) db.operations) in
    rw (prune-old db) (
      rw (filter-eq_of _ _ (filter keep db.operations) (λ o. is_prunable-stable db o)) (
        rw (filter-filter (is_prunable db.processes) keep db.operations) (
          omega (
            arith,
            count-newest_first keep (filter (is_prunable db.processes) db.operations),
            count-split keep 100 rows,
            count-le keep (take 100 rows),
            length-take-le 100 rows,
            count-own (old db) (drop 100 rows) (λ id e. e),
          ))))
