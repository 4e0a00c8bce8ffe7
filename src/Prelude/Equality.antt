-- ===== src/Prelude/Equality.antt =====
-- Equality as an interface: one operator for numbers, texts and the enumerations of the program.
use Prim.Native.Nat.{ℕ}
use Prim.Native.String.{String}
use text.Mathlib.Text.{◌==◌ as str_eq}
use text.Mathlib.TextEquality.{eq_iff}
use mathlib.Core.Path.{◌≡◌, refl, sym, ap, ◌∙◌}
use mathlib.Core.Logic.{◌↔◌}
use mathlib.Core.Bool.{Bool, true, false}
use mathlib.Core.Option.{none, some}
use mathlib.Core.List.{List, [], ◌∷◌}
use native.Mathlib.Omega.{arith}
use kogg.Prelude.Tests.{nat_eq, if◌then◌else◌}

pub record Eq {ℓ} (A : Type ℓ) : Type ℓ where
  pub beq : A → A → Bool
  pub beq_iff : (a b : A) → (beq a b ≡ true) ↔ (a ≡ b)

pub some-injective {ℓ} : {A : Type ℓ} {a b : A} → some a ≡ some b → a ≡ b
some-injective {a} h = ap (λ m. elim m [ none ↦ a | some x ↦ x ]) h

pub nat_eq_iff : (a b : ℕ) → (nat_eq a b ≡ true) ↔ (a ≡ b)
nat_eq_iff a b = ground arith

infix 50 ◌==◌
abbrev pub ◌==◌ {ℓ} : {A : Type ℓ} ⦃e : Eq A⦄ → A → A → Bool
◌==◌ ⦃e⦄ = e.beq

instance abbrev pub ℕ-Eq : Eq ℕ
ℕ-Eq = record { beq = nat_eq; beq_iff = nat_eq_iff }

instance abbrev pub String-Eq : Eq String
String-Eq = record { beq = str_eq; beq_iff = eq_iff }

module _ {ℓ} {A : Type ℓ} (ordinal : A → ℕ) (of_ordinal : ℕ → A)
    (decode : (a : A) → of_ordinal (ordinal a) ≡ a) where
  -- An enumeration numbered without loss is compared by its numbers.
  pub ordinal_iff : (a b : A) → (nat_eq (ordinal a) (ordinal b) ≡ true) ↔ (a ≡ b)
  ordinal_iff a b = (
    λ h. sym (decode a) ∙ ap of_ordinal ((nat_eq_iff (ordinal a) (ordinal b)).0 h) ∙ decode b,
    λ e. (nat_eq_iff (ordinal a) (ordinal b)).1 (ap ordinal e),
  )

module _ {ℓ} {A : Type ℓ} ⦃e : Eq A⦄ where
  -- `list.includes(value)` and `set.has(value)`.
  abbrev pub includes : List A → A → Bool
  includes [] a = false
  includes (x ∷ xs) a = if x == a then true else includes xs a

  pub ==_refl : (a : A) → (a == a) ≡ true
  ==_refl a = (e.beq_iff a a).1 refl
