-- ===== src/ReadModel/Bounded.antt =====
-- The history of changes of packages/kogg-operations/src/node/operations-read-model.ts is bounded.
use kogg.Prelude.{
  ltb_refuted, ℕ, suc, zero, arith, ◌+◌, ◌-◌, ◌≤◌, String, Bool, Option, List, [], ◌∷◌, ◌++◌, ◌≡◌,
  refl, inl, inr, drop, length, ltb, Bool-cases,
}
use kogg.ReadModel.Tables.{ChangeKind, ProjectionChange}
use kogg.ReadModel.Changes.{
  new_change, stream_change_limit, stream_byte_limit, retained_bytes, drop_bytes, append_change,
}

length-drop_le : (n k : ℕ) (cs : List ProjectionChange) → length cs ≤ n + k → length (drop n cs) ≤ k
length-drop_le zero k cs h = omega (arith, h)
length-drop_le (suc n) k [] h = omega arith
length-drop_le (suc n) k (c ∷ cs) h = length-drop_le n k cs (omega (arith, h))

length-drop_bytes_le : (cs : List ProjectionChange) → length (drop_bytes cs) ≤ length cs
unfolding drop_bytes
length-drop_bytes_le [] = omega arith
length-drop_bytes_le (c ∷ cs) =
    elim (Bool-cases (ltb stream_byte_limit (retained_bytes (c ∷ cs)))) [
      | inl t ↦ rw t (omega (arith, length-drop_bytes_le cs))
      | inr f ↦ rw f (omega arith)
    ]

retained_bytes-drop_bytes : (cs : List ProjectionChange) → retained_bytes (drop_bytes cs) ≤ 1048576
unfolding drop_bytes retained_bytes
retained_bytes-drop_bytes [] = omega arith
retained_bytes-drop_bytes (c ∷ cs) =
    elim (Bool-cases (ltb stream_byte_limit (retained_bytes (c ∷ cs)))) [
      | inl t ↦ rw t (retained_bytes-drop_bytes cs)
      | inr f ↦ rw f (ltb_refuted stream_byte_limit (retained_bytes (c ∷ cs)) f)
    ]

length-kept :
    (rows : List ProjectionChange)
    → length (drop_bytes (drop (length rows - stream_change_limit) rows)) ≤ 1000
length-kept rows = omega (
  arith,
  length-drop_bytes_le (drop (length rows - stream_change_limit) rows),
  length-drop_le (length rows - stream_change_limit) 1000 rows (omega arith),
)

-- Whatever the history was, at most a thousand changes and at most a mebibyte of them are left after a
-- change is appended, and the sequence has advanced by one.
pub append_change-bounded :
    (kind : ChangeKind) (run_id : Option String) (is_protected : Bool) (sequence : ℕ)
    (changes : List ProjectionChange)
    → (length (append_change kind run_id is_protected sequence changes).1 ≤ 1000)
      × (retained_bytes (append_change kind run_id is_protected sequence changes).1 ≤ 1048576)
      × ((append_change kind run_id is_protected sequence changes).0 ≡ sequence + 1)
unfolding append_change
append_change-bounded kind run_id is_protected sequence changes = (
  length-kept (changes ++ new_change kind run_id is_protected sequence ∷ []),
  retained_bytes-drop_bytes (
      drop
        (length (changes ++ new_change kind run_id is_protected sequence ∷ [])
          - stream_change_limit)
        (changes ++ new_change kind run_id is_protected sequence ∷ [])),
  refl,
)
