-- ===== src/ReadModel/Places.antt =====
-- The rows of a timeline at the places of their events, which are apart where the events are:
-- packages/kogg-operations/src/node/operations-read-model.ts.
use kogg.Prelude.{
  arith, ℕ, ℕ-Eq, suc, String, String-Eq, Bool, true, false, some, some-injective, List, [], ◌∷◌,
  ◌++◌, ◌==◌, ◌≡◌, sym, ◌∙◌, inl, inr, All, All-mono, Bool-cases, Option-cases, includes,
  includes-head, includes-tail, Distinct, ==_sound, true-ne-false, map,
}
use kogg.ReadModel.Events.{OwnerEvent}
use kogg.ReadModel.TimelinePages.{TimelineEntry, order_of, joined}
use kogg.ReadModel.Positions.{order_of-above}

-- No two digests have one order.
order_of-injective :
    (n : ℕ) (a b : String) (es : List OwnerEvent) (order : ℕ)
    → order_of n a es ≡ some order
    → order_of n b es ≡ some order
    → a ≡ b
unfolding order_of
order_of-injective n a b [] order h k = absurd cc
order_of-injective n a b (e ∷ es) order h k = elim (Bool-cases (e.event_digest == a)) [
  | inl s ↦ elim (Bool-cases (e.event_digest == b)) [
    | inl t ↦ sym (==_sound e.event_digest a s) ∙ ==_sound e.event_digest b t
    | inr t ↦
        let here : suc n ≡ order = some-injective (rw s at h) in
        let above = order_of-above (suc n) b es order (rw t at k) in absurd (omega arith)
  ]
  | inr s ↦ elim (Bool-cases (e.event_digest == b)) [
    | inl t ↦
        let here : suc n ≡ order = some-injective (rw t at k) in
        let above = order_of-above (suc n) a es order (rw s at h) in absurd (omega arith)
    | inr t ↦ order_of-injective (suc n) a b es order (rw s at h) (rw t at k)
  ]
]

-- A row that stands for an event: whether it is asked for, and its entry at an order.
pub record Place : Type 0 where
  pub digest : String
  pub is_chosen : Bool
  pub entry_at : ℕ → TimelineEntry
  pub at_order : (n : ℕ) → (entry_at n).projection_order ≡ n

abbrev pub digests_of : List Place → List String
digests_of xs = map (λ (x : Place). x.digest) xs

abbrev wanted : Bool → List TimelineEntry → List TimelineEntry
wanted true ts = ts
wanted false ts = []

abbrev pub IsApart : TimelineEntry → TimelineEntry → Type 0
IsApart t u = (t.projection_order == u.projection_order) ≡ false

abbrev pub AreApart : List TimelineEntry → Type 0
AreApart [] = Unit
AreApart (t ∷ ts) = All (IsApart t) ts × AreApart ts

module _ (accepted : List OwnerEvent) where
  abbrev pub positions : List Place → List TimelineEntry
  positions [] = []
  positions (x ∷ xs) =
      wanted x.is_chosen (joined (order_of 0 x.digest accepted) x.entry_at) ++ positions xs

  -- The entry is that of an event with one of the digests.
  abbrev IsOf : List String → TimelineEntry → Type 0
  IsOf digests t =
      (d : String) × (includes digests d ≡ true) × (order_of 0 d accepted ≡ some t.projection_order)

  IsOf-tail :
      (x : String) (digests : List String) (t : TimelineEntry)
      → IsOf digests t
      → IsOf (x ∷ digests) t
  IsOf-tail x digests t (d, listed, found) = (d, includes-tail x digests d listed, found)

  positions-IsOf : (xs : List Place) → All (IsOf (digests_of xs)) (positions xs)
  positions-IsOf [] = tt
  positions-IsOf (x ∷ xs) =
      let rest =
        All-mono (IsOf (digests_of xs)) (IsOf (digests_of (x ∷ xs))) (positions xs)
          (IsOf-tail x.digest (digests_of xs)) (positions-IsOf xs) in
      elim (Bool-cases x.is_chosen) [
        | inr f ↦ rw f rest
        | inl t ↦ elim (Option-cases (order_of 0 x.digest accepted)) [
          | inl missing ↦ rw (t, missing) rest
          | inr (n, found) ↦
              rw (t, found)
                ((x.digest, includes-head x.digest (digests_of xs), rw (x.at_order n) found), rest)
        ]
      ]

  apart :
      (x : Place) (n : ℕ) (u : TimelineEntry) (xs : List Place)
      → order_of 0 x.digest accepted ≡ some n
      → includes (digests_of xs) x.digest ≡ false
      → IsOf (digests_of xs) u
      → IsApart (x.entry_at n) u
  apart x n u xs found new (d, listed, there) =
      elim (Bool-cases ((x.entry_at n).projection_order == u.projection_order)) [
        | inr f ↦ f
        | inl t ↦
            let same_order : n ≡ u.projection_order =
              sym (x.at_order n) ∙ ==_sound (x.entry_at n).projection_order u.projection_order t in
            let same : x.digest ≡ d =
              order_of-injective 0 x.digest d accepted u.projection_order (rw (← same_order) found)
                there in
            true-ne-false (rw same listed) new
      ]

  pub positions-AreApart : (xs : List Place) → Distinct (digests_of xs) → AreApart (positions xs)
  positions-AreApart [] h = tt
  positions-AreApart (x ∷ xs) h = elim (Bool-cases x.is_chosen) [
    | inr f ↦ rw f (positions-AreApart xs h.1)
    | inl t ↦ elim (Option-cases (order_of 0 x.digest accepted)) [
      | inl missing ↦ rw (t, missing) (positions-AreApart xs h.1)
      | inr (n, found) ↦
          rw (t, found)
            (
              All-mono (IsOf (digests_of xs)) (IsApart (x.entry_at n)) (positions xs)
                  (λ u of. apart x n u xs found h.0 of) (positions-IsOf xs),
              positions-AreApart xs h.1,
            )
    ]
  ]
