-- ===== src/Prelude/Lists.antt =====
-- Lists measured by native numbers and searched by Boolean tests.
use Prim.Native.Nat.{ℕ, zero, suc, ◌+◌, ◌≤◌}
use mathlib.Core.Path.{ap, ◌≡◌, refl}
use mathlib.Core.Bool.{not, Bool, true, false}
use mathlib.Core.Option.{Option, none, some}
use mathlib.Core.List.{List, [], ◌∷◌, ◌++◌, map}
use native.Mathlib.Omega.{arith}
use kogg.Prelude.Equality.{some-injective}
use kogg.Prelude.Tests.{if◌then◌else◌, Bool-cases}
use mathlib.Core.Logic.{inl, inr}

module _ {ℓ} {A : Type ℓ} where
  abbrev pub length : List A → ℕ
  length [] = 0
  length (x ∷ xs) = suc (length xs)

  abbrev pub take : ℕ → List A → List A
  take zero xs = []
  take (suc n) [] = []
  take (suc n) (x ∷ xs) = x ∷ take n xs

  abbrev pub drop : ℕ → List A → List A
  drop zero xs = xs
  drop (suc n) [] = []
  drop (suc n) (x ∷ xs) = drop n xs

  abbrev pub find? : (A → Bool) → List A → Option A
  find? p [] = none
  find? p (x ∷ xs) = if p x then some x else find? p xs

  abbrev pub filter : (A → Bool) → List A → List A
  filter p [] = []
  filter p (x ∷ xs) = if p x then x ∷ filter p xs else filter p xs

  abbrev pub any : (A → Bool) → List A → Bool
  any p [] = false
  any p (x ∷ xs) = if p x then true else any p xs

  abbrev pub all : (A → Bool) → List A → Bool
  all p [] = true
  all p (x ∷ xs) = if p x then all p xs else false

module _ {ℓ} {A : Type ℓ} where
  pub length-append : (xs ys : List A) → length (xs ++ ys) ≡ length xs + length ys
  length-append [] ys = omega arith
  length-append (x ∷ xs) ys = omega (arith, length-append xs ys)

  pub length-take-le : (n : ℕ) (xs : List A) → length (take n xs) ≤ n
  length-take-le zero xs = omega arith
  length-take-le (suc n) [] = omega arith
  length-take-le (suc n) (x ∷ xs) = omega (arith, length-take-le n xs)

-- Holds of every member, by recursion, so that the tactics read it as a tuple.
abbrev pub All {ℓ κ} : {A : Type ℓ} → (A → Type κ) → List A → Type κ
All P [] = Unit
All P (x ∷ xs) = P x × All P xs

module _ {ℓ κ} {A : Type ℓ} (P : A → Type κ) where
  pub All-append : (xs ys : List A) → All P xs → All P ys → All P (xs ++ ys)
  All-append [] ys hx hy = hy
  All-append (x ∷ xs) ys hx hy = (hx.0, All-append xs ys hx.1 hy)

  pub All-map : (f : A → A) (xs : List A) → ((x : A) → P x → P (f x)) → All P xs → All P (map f xs)
  All-map f [] k h = tt
  All-map f (x ∷ xs) k h = (k x h.0, All-map f xs k h.1)

module _ {ℓ κ μ} {A : Type ℓ} (P : A → Type κ) (Q : A → Type μ) where
  pub All-mono : (xs : List A) → ((x : A) → P x → Q x) → All P xs → All Q xs
  All-mono [] k h = tt
  All-mono (x ∷ xs) k h = (k x h.0, All-mono xs k h.1)

-- What holds of every member, restricted and carried over.
module _ {ℓ κ μ} {A : Type ℓ} (P : A → Type κ) (Q : A → Type μ) (p : A → Bool) where
  pub All-filter_of :
      (xs : List A) → ((x : A) → P x → p x ≡ true → Q x) → All P xs → All Q (filter p xs)
  All-filter_of [] k h = tt
  All-filter_of (x ∷ xs) k h = elim (Bool-cases (p x)) [
    | inl e ↦ rw e (k x h.0 e, All-filter_of xs k h.1)
    | inr e ↦ rw e (All-filter_of xs k h.1)
  ]

module _ {ℓ κ} {A : Type ℓ} (P : A → Type κ) where
  pub All-drop : (n : ℕ) (xs : List A) → All P xs → All P (drop n xs)
  All-drop zero xs h = h
  All-drop (suc n) [] h = tt
  All-drop (suc n) (x ∷ xs) h = All-drop n xs h.1

module _ {ℓ} {A : Type ℓ} where
  pub filter-eq_of :
      (p q : A → Bool) (xs : List A) → ((x : A) → p x ≡ q x) → filter p xs ≡ filter q xs
  filter-eq_of p q [] h = refl
  filter-eq_of p q (x ∷ xs) h = rw (h x, filter-eq_of p q xs h)

module _ {ℓ} {A : Type ℓ} (p : A → Bool) where
  pub filter-All : (xs : List A) → All (λ x. p x ≡ true) (filter p xs)
  filter-All [] = tt
  filter-All (x ∷ xs) = elim (Bool-cases (p x)) [
    | inl e ↦ rw e (e, filter-All xs)
    | inr e ↦ rw e (filter-All xs)
  ]

  pub length-filter_both :
      (xs : List A) → length (filter (λ x. not (p x)) xs) + length (filter p xs) ≡ length xs
  length-filter_both [] = omega arith
  length-filter_both (x ∷ xs) = elim (Bool-cases (p x)) [
    | inl e ↦ rw e (omega (arith, length-filter_both xs))
    | inr e ↦ rw e (omega (arith, length-filter_both xs))
  ]

module _ {ℓ} {A : Type ℓ} where
  pub take-whole : (n : ℕ) (xs : List A) → length xs ≤ n → take n xs ≡ xs
  take-whole zero [] h = refl
  take-whole (suc n) [] h = refl
  take-whole zero (x ∷ xs) h = absurd (omega arith)
  take-whole (suc n) (x ∷ xs) h = ap (λ l. x ∷ l) (take-whole n xs (omega arith))

  pub length-take_mono : (n : ℕ) (xs : List A) → length (take n xs) ≤ length xs
  length-take_mono zero xs = omega arith
  length-take_mono (suc n) [] = omega arith
  length-take_mono (suc n) (x ∷ xs) = omega (arith, length-take_mono n xs)

module _ {ℓ κ} {A : Type ℓ} (P : A → Type κ) where
  pub All-take : (n : ℕ) (xs : List A) → All P xs → All P (take n xs)
  All-take zero xs h = tt
  All-take (suc n) [] h = tt
  All-take (suc n) (x ∷ xs) h = (h.0, All-take n xs h.1)

module _ {ℓ κ} {A : Type ℓ} (P : A → Type κ) (p : A → Bool) where
  pub all-All : (xs : List A) → ((x : A) → p x ≡ true → P x) → all p xs ≡ true → All P xs
  all-All [] k h = tt
  all-All (x ∷ xs) k h = elim (Bool-cases (p x)) [
    | inl e ↦ (k x e, all-All xs k (rw e at h))
    | inr e ↦ absurd (cc (rw e at h))
  ]

  -- What the member that a test finds is known to have.
  pub All-any :
      (Q : Type κ) (xs : List A) → ((x : A) → P x → p x ≡ true → Q) → All P xs → any p xs ≡ true → Q
  All-any Q [] k h found = absurd cc
  All-any Q (x ∷ xs) k h found = elim (Bool-cases (p x)) [
    | inl e ↦ k x h.0 e
    | inr e ↦ All-any Q xs k h.1 (rw e at found)
  ]

module _ {ℓ} {A : Type ℓ} (p : A → Bool) where
  pub find?-append : (xs ys : List A) (a : A) → find? p xs ≡ some a → find? p (xs ++ ys) ≡ some a
  find?-append [] ys a h = absurd cc
  find?-append (x ∷ xs) ys a h = elim (Bool-cases (p x)) [
    | inl e ↦ rw e (rw e at h)
    | inr e ↦ rw e (find?-append xs ys a (rw e at h))
  ]

  pub find?-snoc :
      (xs : List A) (a : A) → find? p xs ≡ none → p a ≡ true → find? p (xs ++ a ∷ []) ≡ some a
  find?-snoc [] a h t = rw t refl
  find?-snoc (x ∷ xs) a h t = elim (Bool-cases (p x)) [
    | inl e ↦ absurd (cc (rw e at h))
    | inr e ↦ rw e (find?-snoc xs a (rw e at h) t)
  ]

  pub find?-holds : (xs : List A) (a : A) → find? p xs ≡ some a → p a ≡ true
  find?-holds [] a h = absurd cc
  find?-holds (x ∷ xs) a h = elim (Bool-cases (p x)) [
    | inl e ↦ rw (some-injective (rw e at h)) at e
    | inr e ↦ find?-holds xs a (rw e at h)
  ]

  pub find?-All {κ} : (P : A → Type κ) (xs : List A) (a : A) → All P xs → find? p xs ≡ some a → P a
  find?-All P [] a k h = absurd cc
  find?-All P (x ∷ xs) a k h = elim (Bool-cases (p x)) [
    | inl e ↦ rw (← some-injective (rw e at h)) k.0
    | inr e ↦ find?-All P xs a k.1 (rw e at h)
  ]

  pub find?-skip : (xs : List A) (a : A) → p a ≡ false → find? p (xs ++ a ∷ []) ≡ find? p xs
  find?-skip [] a f = rw f refl
  find?-skip (x ∷ xs) a f = elim (Bool-cases (p x)) [
    | inl e ↦ rw e refl
    | inr e ↦ rw e (find?-skip xs a f)
  ]

-- What holds of the images of all members.
module _ {ℓ κ μ ν} {A : Type ℓ} {B : Type κ} (P : A → Type μ) (Q : B → Type ν) (f : A → B) where
  pub All-image : (xs : List A) → ((x : A) → P x → Q (f x)) → All P xs → All Q (map f xs)
  All-image [] k h = tt
  All-image (x ∷ xs) k h = (k x h.0, All-image xs k h.1)

-- Members that pass the one test pass the other: to keep the latter first changes nothing.
module _ {ℓ} {A : Type ℓ} (p q : A → Bool) (h : (x : A) → p x ≡ true → q x ≡ true) where
  pub filter-filter_wider : (xs : List A) → filter p (filter q xs) ≡ filter p xs
  filter-filter_wider [] = refl
  filter-filter_wider (x ∷ xs) = elim (Bool-cases (p x)) [
    | inl e ↦ rw (h x e, e, filter-filter_wider xs) refl
    | inr e ↦ elim (Bool-cases (q x)) [
      | inl k ↦ rw (k, e, filter-filter_wider xs) refl
      | inr k ↦ rw (k, e, filter-filter_wider xs) refl
    ]
  ]

module _ {ℓ} {A : Type ℓ} where
  pub take-take : (n : ℕ) (xs : List A) → take n (take (suc n) xs) ≡ take n xs
  take-take zero xs = refl
  take-take (suc n) [] = refl
  take-take (suc n) (x ∷ xs) = ap (λ l. x ∷ l) (take-take n xs)

  pub length-take_full : (n : ℕ) (xs : List A) → n ≤ length xs → length (take n xs) ≡ n
  length-take_full zero xs h = refl
  length-take_full (suc n) [] h = absurd (omega arith)
  length-take_full (suc n) (x ∷ xs) h = omega (arith, length-take_full n xs (omega arith))

  pub take-drop : (n : ℕ) (xs : List A) → take n xs ++ drop n xs ≡ xs
  take-drop zero xs = refl
  take-drop (suc n) [] = refl
  take-drop (suc n) (x ∷ xs) = ap (λ l. x ∷ l) (take-drop n xs)

  pub length-drop : (n : ℕ) (xs : List A) → n ≤ length xs → length (drop n xs) + n ≡ length xs
  length-drop zero xs h = omega arith
  length-drop (suc n) [] h = absurd (omega arith)
  length-drop (suc n) (x ∷ xs) h = omega (arith, length-drop n xs (omega arith))

  pub filter-whole : (p : A → Bool) (xs : List A) → All (λ x. p x ≡ true) xs → filter p xs ≡ xs
  filter-whole p [] h = refl
  filter-whole p (x ∷ xs) h = rw (h.0, filter-whole p xs h.1) refl
