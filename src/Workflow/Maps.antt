-- ===== src/Workflow/Maps.antt =====
-- The JavaScript `Map` over texts, in the order of insertion, and the `Set` of texts, as the workflow
-- compiler (packages/kogg-workflow/src/node/workflow-compiler.ts) uses them.
use kogg.Prelude.{
  ==_flip, true-ne-false, ==_sound, inl, inr, refl, suc, arith, Bool-cases, length, true, Bool,
  ==_refl, false, is_some, ◌≡◌, String, String-Eq, Option, none, some, List, [], ◌∷◌, ◌++◌, ◌==◌,
  if◌then◌else◌, includes,
}

-- `map.get(key)`.
abbrev pub get {ℓ} : {A : Type ℓ} → String → List (String × A) → Option A
get k [] = none
get k ((j, a) ∷ m) = if j == k then some a else get k m

-- `map.set(key, value)`: in place where the key is there.
abbrev pub set {ℓ} : {A : Type ℓ} → String → A → List (String × A) → List (String × A)
set k a [] = (k, a) ∷ []
set k a ((j, b) ∷ m) = if j == k then (j, a) ∷ m else (j, b) ∷ set k a m

-- `map.get(key) ?? fallback`.
abbrev pub get_or {ℓ} : {A : Type ℓ} → A → Option A → A
get_or d none = d
get_or d (some a) = a

-- `set.add(value)`.
abbrev pub add : String → List String → List String
add a s = if includes s a then s else s ++ a ∷ []

module _ {ℓ} {A : Type ℓ} where
  pub get-set :
      (k j : String) (a : A) (m : List (String × A))
      → get k (set j a m) ≡ (if j == k then some a else get k m)
  get-set k j a [] = refl
  get-set k j a ((i, b) ∷ m) = elim (Bool-cases (i == j)) [
    | inl same ↦ rw (same, ==_sound i j same) (if-twice (j == k) (some a) (some b) (get k m))
    | inr other ↦ elim (Bool-cases (i == k)) [
      | inl here ↦ rw (other, here) (rw (==_flip k j (rw (==_sound i k here) at other)) refl)
      | inr next ↦ rw (other, next) (get-set k j a m)
    ]
  ]
    where
      if-twice :
          (b : Bool) (x y z : Option A)
          → (if b then x else z) ≡ (if b then x else (if b then y else z))
      if-twice true x y z = refl
      if-twice false x y z = refl

  pub get-set_same : (k : String) (a : A) (m : List (String × A)) → get k (set k a m) ≡ some a
  get-set_same k a m = rw (get-set k k a m, ==_refl k) refl

  -- A key that is there stays there.
  pub set-keeps :
      (k j : String) (a : A) (m : List (String × A))
      → is_some (get k m) ≡ true
      → is_some (get k (set j a m)) ≡ true
  set-keeps k j a m h = elim (Bool-cases (j == k)) [
    | inl t ↦ rw (get-set k j a m, t) refl
    | inr f ↦ rw (get-set k j a m, f) h
  ]

  pub length-set_old :
      (k : String) (a : A) (m : List (String × A))
      → is_some (get k m) ≡ true
      → length (set k a m) ≡ length m
  length-set_old k a [] h = absurd cc
  length-set_old k a ((j, b) ∷ m) h = elim (Bool-cases (j == k)) [
    | inl t ↦ rw t refl
    | inr f ↦ rw f (omega (arith, length-set_old k a m (rw f at h)))
  ]

  pub length-set_new :
      (k : String) (a : A) (m : List (String × A))
      → is_some (get k m) ≡ false
      → length (set k a m) ≡ suc (length m)
  length-set_new k a [] h = refl
  length-set_new k a ((j, b) ∷ m) h = elim (Bool-cases (j == k)) [
    | inl t ↦ absurd (true-ne-false refl (rw t at h))
    | inr f ↦ rw f (omega (arith, length-set_new k a m (rw f at h)))
  ]
