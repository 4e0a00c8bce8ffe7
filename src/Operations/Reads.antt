-- ===== src/Operations/Reads.antt =====
-- What a snapshot shows of the tables: packages/kogg-operations/src/node/operation-registry.ts.
use kogg.Prelude.{
  ltb, if◌then◌else◌, ==_refl, All-filter_of, ℕ, suc, ◌+◌, ◌≤◌, String, String-Eq, Bool, true, not,
  ◌&&◌, List, [], ◌∷◌, map, ◌≡◌, refl, ◌∙◌, ap, ◌==◌, any, filter, length, take, arith, All,
  length-take-le, filter-All, All-take, length-filter_both, take-whole, length-take_mono,
}
use kogg.Operations.Transitions.{is_terminal}
use kogg.Operations.States.{OperationState-Eq}
use kogg.Operations.Database.{OperationRow}
use kogg.Operations.Registry.{Registry}
use kogg.Operations.Snapshot.{
  OperationSummary, OperationsSnapshot, latest_first, insert_latest, summary, summaries,
  read_snapshot,
}

-- The smaller of a bound and a number.
abbrev pub at_most : ℕ → ℕ → ℕ
at_most bound n = if ltb bound n then bound else n

length-take-at_most {ℓ} :
    {A : Type ℓ} (n : ℕ) (xs : List A) → length (take n xs) ≡ at_most n (length xs)
length-take-at_most Prim.Native.Nat.zero [] = refl
length-take-at_most Prim.Native.Nat.zero (x ∷ xs) = ground arith
length-take-at_most (suc n) [] = ground arith
length-take-at_most (suc n) (x ∷ xs) = ground (arith, length-take-at_most n xs)

-- A row and a summary of one operation in one state.
abbrev pub shows : OperationSummary → OperationRow → Bool
shows s o = o.id == s.id && o.state == s.state

-- Every summary has a row of its identifier in its state; the active ones are in no terminal state
-- and the recent ones in one. At most two hundred are shown in all, and of the recent ones as many
-- as the two hundred latest rows have in a terminal state, up to a hundred.
abbrev pub IsPartition : List OperationRow → OperationsSnapshot → Type 0
IsPartition os s =
    All (λ (x : OperationSummary). any (shows x) os ≡ true) s.active
    × All (λ (x : OperationSummary). any (shows x) os ≡ true) s.recent
    × All (λ (x : OperationSummary). not (is_terminal x.state) ≡ true) s.active
    × All (λ (x : OperationSummary). is_terminal x.state ≡ true) s.recent
    × (length s.active + length s.recent ≤ 200)
    × (length s.recent
        ≡ at_most 100 (
            length
              (filter (λ (o : OperationRow). is_terminal o.state) (take 200 (latest_first os)))))

length-map : (r : Registry) (os : List OperationRow) → length (map (summary r) os) ≡ length os
length-map r [] = refl
length-map r (o ∷ os) = ap suc (length-map r os)

module _ (p : OperationRow → Bool) where
  any-insert_latest :
      (o : OperationRow) (xs : List OperationRow) → any p (insert_latest o xs) ≡ any p (o ∷ xs)
  unfolding insert_latest
  any-insert_latest o [] = refl
  any-insert_latest o (x ∷ xs) = ground (arith, any-insert_latest o xs)

  any-latest_first : (xs : List OperationRow) → any p (latest_first xs) ≡ any p xs
  unfolding latest_first
  any-latest_first [] = refl
  any-latest_first (o ∷ xs) =
      ground (arith, any-insert_latest o (latest_first xs), any-latest_first xs)

length-insert_latest :
    (o : OperationRow) (xs : List OperationRow) → length (insert_latest o xs) ≡ suc (length xs)
unfolding insert_latest
length-insert_latest o [] = refl
length-insert_latest o (x ∷ xs) = ground (arith, length-insert_latest o xs)

length-latest_first : (xs : List OperationRow) → length (latest_first xs) ≡ length xs
unfolding latest_first
length-latest_first [] = refl
length-latest_first (o ∷ xs) =
    length-insert_latest o (latest_first xs) ∙ ap suc (length-latest_first xs)

same_row : OperationRow → OperationRow → Bool
same_row x o = o.id == x.id && o.state == x.state

same_row-tail :
    (o : OperationRow) (os xs : List OperationRow)
    → All (λ x. any (same_row x) os ≡ true) xs
    → All (λ x. any (same_row x) (o ∷ os) ≡ true) xs
same_row-tail o os [] h = tt
same_row-tail o os (x ∷ xs) h = (ground (arith, h.0), same_row-tail o os xs h.1)

rows_found : (os : List OperationRow) → All (λ x. any (same_row x) os ≡ true) os
unfolding same_row
rows_found [] = tt
rows_found (o ∷ os) =
    (rw (==_refl o.id, ==_refl o.state) refl, same_row-tail o os os (rows_found os))

found-shown :
    (r : Registry) (os xs : List OperationRow)
    → All (λ x. any (same_row x) (latest_first os) ≡ true) xs
    → All (λ (s : OperationSummary). any (shows s) os ≡ true) (map (summary r) xs)
unfolding summary same_row
found-shown r os [] h = tt
found-shown r os (x ∷ xs) h = (rw (← any-latest_first (same_row x) os) h.0, found-shown r os xs h.1)

length-terminal :
    (r : Registry) (os : List OperationRow)
    → length (filter (λ (s : OperationSummary). is_terminal s.state) (map (summary r) os))
      ≡ length (filter (λ (o : OperationRow). is_terminal o.state) os)
unfolding summary
length-terminal r [] = refl
length-terminal r (o ∷ os) = ground (arith, length-terminal r os)

-- Each operation that a snapshot lists is a row of the table in that state: an active one in a state
-- that is not terminal, a recent one in one that is. At most two hundred are listed in all, and the
-- recent ones are as many as the two hundred latest rows have in a terminal state, up to a hundred.
pub read_snapshot-IsPartition : (r : Registry) → IsPartition r.database.operations (read_snapshot r)
unfolding read_snapshot summaries
read_snapshot-IsPartition r =
    let p = λ (o : OperationSummary). is_terminal o.state in
    let os = r.database.operations in
    let rows = take 200 (latest_first os) in
    let shown =
      found-shown r os rows (All-take _ 200 (latest_first os) (rows_found (latest_first os))) in
    (
      All-filter_of _ _ (λ s. not (p s)) (summaries r) (λ x h e. h) shown,
      All-take _ 100 _ (All-filter_of _ _ p (summaries r) (λ x h e. h) shown),
      filter-All (λ o. not (p o)) (summaries r),
      All-take (λ o. p o ≡ true) 100 _ (filter-All p (summaries r)),
      omega (
        arith,
        length-filter_both p (summaries r),
        length-take_mono 100 (filter p (summaries r)),
        length-map r rows,
        length-take-le 200 (latest_first os),
      ),
      length-take-at_most 100 (filter p (summaries r)) ∙ ap (at_most 100) (length-terminal r rows),
    )

-- The summaries that a test of the state leaves show an identifier exactly where a row does.
any-shown :
    (r : Registry) (id : String) (os : List OperationRow)
    → any
        (λ (s : OperationSummary). s.id == id)
        (filter (λ (s : OperationSummary). not (is_terminal s.state)) (map (summary r) os))
      ≡ any (λ (o : OperationRow). not (is_terminal o.state) && o.id == id) os
unfolding summary
any-shown r id [] = refl
any-shown r id (o ∷ os) = ground (arith, any-shown r id os)

-- While there are at most two hundred operations, a snapshot lists an identifier as active exactly
-- where a row of the table has it in a state that is not terminal.
pub read_snapshot_complete :
    (r : Registry) (id : String)
    → length r.database.operations ≤ 200
    → any (λ (s : OperationSummary). s.id == id) (read_snapshot r).active
      ≡ any (λ (o : OperationRow). not (is_terminal o.state) && o.id == id) r.database.operations
unfolding read_snapshot summaries
read_snapshot_complete r id few =
    rw
      (take-whole 200 (latest_first r.database.operations)
        (omega (arith, length-latest_first r.database.operations)))
      (any-shown r id (latest_first r.database.operations)
        ∙ any-latest_first (λ o. not (is_terminal o.state) && o.id == id) r.database.operations)
