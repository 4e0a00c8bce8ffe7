-- ===== src/Workflow/Checked.antt =====
-- A check that passes or throws a `WorkflowValidationError`:
-- packages/kogg-workflow/src/common/workflow-canonical.ts.
use kogg.Prelude.{refl, ap, ◌≡◌, ap, ◌≡◌, Bool, true, false, Option, none, some}
use kogg.Workflow.Graph.{WorkflowSafeCode}

pub data Checked {ℓ} (A : Type ℓ) : Type ℓ where
  passed : A → Checked A
  failed : WorkflowSafeCode → Checked A

infixl 5 ◌>>=◌ ◌>>◌
unfoldable pub ◌>>=◌ {ℓ κ} : {A : Type ℓ} {B : Type κ} → Checked A → (A → Checked B) → Checked B
passed a >>= f = f a
failed c >>= f = failed c

abbrev pub ◌>>◌ {ℓ} : {B : Type ℓ} → Checked (Unit {0}) → Checked B → Checked B
m >> k = m >>= λ _. k

-- `if (!test) throw new WorkflowValidationError(code)`.
abbrev pub require : Bool → WorkflowSafeCode → Checked (Unit {0})
require true c = passed tt
require false c = failed c

-- `if (test) throw new WorkflowValidationError(code)`.
abbrev pub reject_if : Bool → WorkflowSafeCode → Checked (Unit {0})
reject_if true c = failed c
reject_if false c = passed tt

-- A value that has to be there.
abbrev pub present {ℓ} : {A : Type ℓ} → WorkflowSafeCode → Option A → Checked A
present c none = failed c
present c (some a) = passed a

-- What has passed, passed step by step.
pub >>=-passed {ℓ κ} :
    {A : Type ℓ} {B : Type κ} (m : Checked A) (f : A → Checked B) (b : B)
    → (m >>= f) ≡ passed b
    → (a : A) × (m ≡ passed a) × (f a ≡ passed b)
unfolding ◌>>=◌
>>=-passed (passed a) f b h = (a, refl, h)
>>=-passed (failed c) f b h = absurd cc

pub passed-injective {ℓ} : {A : Type ℓ} {a b : A} → passed a ≡ passed b → a ≡ b
passed-injective {a} h = ap (λ m. elim m [ passed x ↦ x | failed c ↦ a ]) h

pub require-passed {ℓ} :
    {B : Type ℓ} (test : Bool) (c : WorkflowSafeCode) (k : Checked B) (b : B)
    → (require test c >> k) ≡ passed b
    → (test ≡ true) × (k ≡ passed b)
unfolding ◌>>=◌
require-passed true c k b h = (refl, h)
require-passed false c k b h = absurd cc

pub reject_if-passed {ℓ} :
    {B : Type ℓ} (test : Bool) (c : WorkflowSafeCode) (k : Checked B) (b : B)
    → (reject_if test c >> k) ≡ passed b
    → (test ≡ false) × (k ≡ passed b)
unfolding ◌>>=◌
reject_if-passed false c k b h = (refl, h)
reject_if-passed true c k b h = absurd cc

pub present-passed {ℓ κ} :
    {A : Type ℓ} {B : Type κ} (c : WorkflowSafeCode) (o : Option A) (f : A → Checked B) (b : B)
    → (present c o >>= f) ≡ passed b
    → (a : A) × (o ≡ some a) × (f a ≡ passed b)
unfolding ◌>>=◌
present-passed c none f b h = absurd cc
present-passed c (some a) f b h = (a, refl, h)

pub require-holds :
    (test : Bool) (c : WorkflowSafeCode) (u : Unit {0}) → require test c ≡ passed u → test ≡ true
require-holds true c u h = refl
require-holds false c u h = absurd cc
