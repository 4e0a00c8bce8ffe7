-- ===== src/Prelude/Members.antt =====
-- Membership by Boolean tests, lists without repetition, and how long they can be.
use Prim.Native.Nat.{◌+◌, ◌≤◌}
use mathlib.Core.Path.{◌≡◌, refl}
use mathlib.Core.Logic.{◌⊎◌, inl, inr}
use mathlib.Core.Bool.{Bool, true, false, not}
use mathlib.Core.List.{List, [], ◌∷◌, ◌++◌}
use native.Mathlib.Omega.{arith}
use kogg.Prelude.Tests.{Bool-cases}
use kogg.Prelude.Equality.{Eq, ◌==◌, includes, ==_refl}
use kogg.Prelude.Lists.{length, filter}

pub true-ne-false {ℓ} : {X : Type ℓ} {b : Bool} → b ≡ true → b ≡ false → X
true-ne-false t f = absurd (cc)

module _ {ℓ} {A : Type ℓ} ⦃e : Eq A⦄ where
  pub ==_sound : (a b : A) → (a == b) ≡ true → a ≡ b
  ==_sound a b = (e.beq_iff a b).0

  pub includes-head : (a : A) (xs : List A) → includes (a ∷ xs) a ≡ true
  includes-head a xs = rw (==_refl a) refl

  pub includes-tail :
      (x : A) (xs : List A) (a : A) → includes xs a ≡ true → includes (x ∷ xs) a ≡ true
  includes-tail x xs a h = elim (Bool-cases (x == a)) [ inl t ↦ rw t refl | inr f ↦ rw f h ]

  pub includes-cons :
      (x : A) (xs : List A) (a : A) → includes (x ∷ xs) a ≡ true → (x ≡ a) ⊎ (includes xs a ≡ true)
  includes-cons x xs a h = elim (Bool-cases (x == a)) [
    | inl t ↦ inl (==_sound x a t)
    | inr f ↦ inr (rw f at h)
  ]

  pub includes-append :
      (xs ys : List A) (a : A)
      → includes (xs ++ ys) a ≡ true
      → (includes xs a ≡ true) ⊎ (includes ys a ≡ true)
  includes-append [] ys a h = inr h
  includes-append (x ∷ xs) ys a h = elim (includes-cons x (xs ++ ys) a h) [
    | inl same ↦ inl (rw (← same) (includes-head x xs))
    | inr later ↦ elim (includes-append xs ys a later) [
      | inl l ↦ inl (includes-tail x xs a l)
      | inr r ↦ inr r
    ]
  ]

  pub includes-append_left :
      (xs ys : List A) (a : A) → includes xs a ≡ true → includes (xs ++ ys) a ≡ true
  includes-append_left [] ys a h = absurd cc
  includes-append_left (x ∷ xs) ys a h = elim (includes-cons x xs a h) [
    | inl same ↦ rw (← same) (includes-head x (xs ++ ys))
    | inr later ↦ includes-tail x (xs ++ ys) a (includes-append_left xs ys a later)
  ]

  pub includes-append_right :
      (xs ys : List A) (a : A) → includes ys a ≡ true → includes (xs ++ ys) a ≡ true
  includes-append_right [] ys a h = h
  includes-append_right (x ∷ xs) ys a h =
      includes-tail x (xs ++ ys) a (includes-append_right xs ys a h)

  pub ==_flip : (a b : A) → (a == b) ≡ false → (b == a) ≡ false
  ==_flip a b h = elim (Bool-cases (b == a)) [
    | inl t ↦ true-ne-false (rw (==_sound b a t) (==_refl a)) h
    | inr f ↦ f
  ]

  -- What is not in a list is none of its members.
  pub new_ne :
      (x a : A) (xs : List A) → includes xs x ≡ false → includes xs a ≡ true → (x == a) ≡ false
  new_ne x a xs n h = elim (Bool-cases (x == a)) [
    | inl t ↦ true-ne-false h (rw (← ==_sound x a t) n)
    | inr f ↦ f
  ]

  -- No value occurs twice.
  abbrev pub Distinct : List A → Type 0
  Distinct [] = Unit
  Distinct (x ∷ xs) = (includes xs x ≡ false) × Distinct xs

  -- The list without a value.
  abbrev pub without : A → List A → List A
  without a xs = filter (λ x. not (x == a)) xs

  includes-without :
      (a b : A) (xs : List A)
      → (a == b) ≡ false
      → includes xs b ≡ true
      → includes (without a xs) b ≡ true
  includes-without a b [] n h = h
  includes-without a b (x ∷ xs) n h = elim (includes-cons x xs b h) [
    | inl same ↦ rw (same, ==_flip a b n) (includes-head b (without a xs))
    | inr later ↦ elim (Bool-cases (x == a)) [
      | inl t ↦ rw t (includes-without a b xs n later)
      | inr f ↦ rw f (includes-tail x (without a xs) b (includes-without a b xs n later))
    ]
  ]

  length-without_le : (a : A) (xs : List A) → length (without a xs) ≤ length xs
  length-without_le a [] = omega arith
  length-without_le a (x ∷ xs) = elim (Bool-cases (x == a)) [
    | inl t ↦ rw t (omega (arith, length-without_le a xs))
    | inr f ↦ rw f (omega (arith, length-without_le a xs))
  ]

  length-without :
      (a : A) (xs : List A) → includes xs a ≡ true → 1 + length (without a xs) ≤ length xs
  length-without a [] h = absurd cc
  length-without a (x ∷ xs) h = elim (Bool-cases (x == a)) [
    | inl t ↦ rw t (omega (arith, length-without_le a xs))
    | inr f ↦ rw f (omega (arith, length-without a xs (rw f at h)))
  ]

  -- A list without repetition is no longer than one that has all its values.
  pub Distinct-length_le :
      (xs ys : List A)
      → Distinct xs
      → ((a : A) → includes xs a ≡ true → includes ys a ≡ true)
      → length xs ≤ length ys
  Distinct-length_le [] ys d k = omega arith
  Distinct-length_le (x ∷ xs) ys d k = omega (
    arith,
    length-without x ys (k x (includes-head x xs)),
    Distinct-length_le xs (without x ys) d.1
        (λ a h. includes-without x a ys (new_ne x a xs d.0 h) (k a (includes-tail x xs a h))),
  )

  -- If it has as many, the other has no further ones.
  pub Distinct-full :
      (xs ys : List A)
      → Distinct xs
      → ((a : A) → includes xs a ≡ true → includes ys a ≡ true)
      → length ys ≤ length xs
      → (a : A) → includes ys a ≡ true
      → includes xs a ≡ true
  Distinct-full xs ys d k long a h = elim (Bool-cases (includes xs a)) [
    | inl t ↦ t
    | inr f ↦ absurd (
        omega (
          arith,
          Distinct-length_le (a ∷ xs) ys (f, d)
              (λ b m. elim (includes-cons a xs b m) [
                | inl same ↦ rw (← same) h
                | inr later ↦ k b later
              ]),
        ))
  ]

module _ {ℓ} {A : Type ℓ} ⦃e : Eq A⦄ where
  pub Distinct-snoc :
      (xs : List A) (a : A) → Distinct xs → includes xs a ≡ false → Distinct (xs ++ a ∷ [])
  Distinct-snoc [] a d h = (refl, tt)
  Distinct-snoc (x ∷ xs) a d h = elim (Bool-cases (x == a)) [
    | inl t ↦ true-ne-false refl (rw t at h)
    | inr f ↦ (
      elim (Bool-cases (includes (xs ++ a ∷ []) x)) [
        | inl there ↦ elim (includes-append xs (a ∷ []) x there) [
          | inl before ↦ true-ne-false before d.0
          | inr last ↦ elim (includes-cons a [] x last) [
            | inl same ↦ true-ne-false (rw same (==_refl x)) f
            | inr empty ↦ absurd cc
          ]
        ]
        | inr out ↦ out
      ],
      Distinct-snoc xs a d.1 (rw f at h),
    )
  ]

  pub Distinct-insert :
      (xs ys : List A) (a : A)
      → Distinct (xs ++ ys)
      → includes (xs ++ ys) a ≡ false
      → Distinct (xs ++ a ∷ ys)
  Distinct-insert [] ys a d h = (h, d)
  Distinct-insert (x ∷ xs) ys a d h = elim (Bool-cases (x == a)) [
    | inl t ↦ true-ne-false refl (rw t at h)
    | inr f ↦ (
      elim (Bool-cases (includes (xs ++ a ∷ ys) x)) [
        | inl there ↦ elim (includes-append xs (a ∷ ys) x there) [
          | inl before ↦ true-ne-false (includes-append_left xs ys x before) d.0
          | inr last ↦ elim (includes-cons a ys x last) [
            | inl same ↦ true-ne-false (rw same (==_refl x)) f
            | inr behind ↦ true-ne-false (includes-append_right xs ys x behind) d.0
          ]
        ]
        | inr out ↦ out
      ],
      Distinct-insert xs ys a d.1 (rw f at h),
    )
  ]
