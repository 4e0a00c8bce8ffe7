-- ===== src/Operations/Registry.antt =====
-- The state of `OperationRegistry` and the monad that its methods run in:
-- packages/kogg-operations/src/node/operation-registry.ts. The registry is started, and neither a
-- client nor an owner sink is attached, so `changed()` does nothing.
use kogg.Prelude.{
  true, false, ℕ, String, String-Eq, Bool, false, Option, List, [], ◌∷◌, ◌==◌, find?, if◌then◌else◌,
}
use kogg.Operations.Database.{Database, Result, success, failure, RegistryError}

-- What a call reads from outside: the clock, and the identifier that `randomUUID` makes.
pub record Environment : Type 0 where
  pub now : ℕ
  pub random_uuid : String

pub record Activity : Type 0 where
  pub last_persisted : ℕ
  pub pending : ℕ

-- A `DurableOperationLease`. `registered` tells whether the registry's map still holds it;
-- `absolute_armed` and `idle_armed` whether a timer of it is set.
pub record OperationLease : Type 0 where
  pub id : String
  pub cancellable : Bool
  pub absolute : Option ℕ
  pub idle : Option ℕ
  pub processes : List String
  pub registered : Bool
  pub absolute_armed : Bool
  pub idle_armed : Bool

pub record Registry : Type 0 where
  pub database : Database
  pub leases : List OperationLease
  pub activity_state : List (String × Activity)
  pub instance_id : String

-- A method returns or throws, and leaves a state in both cases.
pub data Outcome {ℓ} (A : Type ℓ) : Type ℓ where
  ok : A → Registry → Outcome A
  thrown : RegistryError → Registry → Outcome A

abbrev pub M {ℓ} : Type ℓ → Type ℓ
M A = Registry → Outcome A

infixl 5 ◌>>=◌ ◌>>◌
unfoldable pub ◌>>=◌ {ℓ κ} : {A : Type ℓ} {B : Type κ} → M A → (A → M B) → M B
◌>>=◌ m f r = elim (m r) [ ok a r' ↦ f a r' | thrown e r' ↦ thrown e r' ]

abbrev pub ◌>>◌ {ℓ} : {B : Type ℓ} → M (Unit {0}) → M B → M B
m >> k = m >>= λ _. k

abbrev pub throw {ℓ} : {A : Type ℓ} → RegistryError → M A
throw e r = thrown e r

abbrev pub return {ℓ} : {A : Type ℓ} → A → M A
return a r = ok a r

-- `if (!test) throw error`.
abbrev pub guard : Bool → RegistryError → M (Unit {0})
guard true e r = ok tt r
guard false e r = thrown e r

-- The state after a call, however it ended.
abbrev pub state_after {ℓ} : {A : Type ℓ} → Outcome A → Registry
state_after (ok a r) = r
state_after (thrown e r) = r

-- `COMMIT`, or `ROLLBACK` and the error thrown on.
unfoldable pub commit : Registry → Result Database → Outcome (Unit {0})
commit r (success db) = ok tt (record r { database = db })
commit r (failure e) = thrown e r

-- `transaction`: committed as a whole, or rolled back and thrown.
unfoldable pub transaction : (Database → Result Database) → M (Unit {0})
unfolding commit
transaction run r = commit r (run r.database)

-- `activityState.get`, `.set` and `.delete`.
unfoldable pub get_activity : String → List (String × Activity) → Activity
get_activity id [] = record { last_persisted = 0; pending = 0 }
get_activity id ((k, a) ∷ m) = if k == id then a else get_activity id m

unfoldable pub set_activity :
    String → Activity → List (String × Activity) → List (String × Activity)
set_activity id a [] = (id, a) ∷ []
set_activity id a ((k, b) ∷ m) = if k == id then (k, a) ∷ m else (k, b) ∷ set_activity id a m

unfoldable pub delete_activity : String → List (String × Activity) → List (String × Activity)
delete_activity id [] = []
delete_activity id ((k, b) ∷ m) =
    if k == id then delete_activity id m else (k, b) ∷ delete_activity id m

-- A change of one lease object.
unfoldable pub update_leases :
    String → (OperationLease → OperationLease) → List OperationLease → List OperationLease
update_leases id change [] = []
update_leases id change (l ∷ ls) = (if l.id == id then change l else l) ∷ update_leases id change ls

-- `leases.get(id)`: the object that the map holds.
abbrev pub find_lease : String → List OperationLease → Option OperationLease
find_lease id ls = find? (λ (l : OperationLease). if l.id == id then l.registered else false) ls

-- The lease object of an operation, also after the map let go of it.
abbrev pub lease_object : String → List OperationLease → Option OperationLease
lease_object id ls = find? (λ (l : OperationLease). l.id == id) ls
