-- ===== src/Operations/Legal/Rules.antt =====
-- Legality of a method, with a rule for each way to put methods together.
use kogg.Prelude.{
  ℕ, String, String-Eq, Bool, true, false, Option, ◌≡◌, refl, inl, inr, if◌then◌else◌, arith,
  Bool-cases,
}
use kogg.Operations.Codes.{Admission}
use kogg.Operations.Database
use kogg.Operations.Database.{
  OperationRow, ProcessRow, EventRow, EventName, Database, RegistryError, Result, success, failure,
  event_row, append_event, has_operation, bump, set_admission,
}
use kogg.Operations.Registry.{
  Registry, Outcome, ok, thrown, M, ◌>>=◌, state_after, guard, commit, transaction,
}
use kogg.Operations.Moves.{
  Step, Steps, done, ◌then◌, Steps-trans, Opens, opens_none, Steps-Opens, Opens-Steps,
}

-- The state that a call leaves, however it ended, is reached by legal statements.
pub data LegalFrom {ℓ} {A : Type ℓ} (db : Database) (o : Outcome A) : Type 0 where
  chain : Steps db (state_after o).database → LegalFrom db o

pub chain_of {ℓ} :
    {A : Type ℓ} {db : Database} {o : Outcome A}
    → LegalFrom db o
    → Steps db (state_after o).database
chain_of (chain s) = s

abbrev pub Legal {ℓ} : {A : Type ℓ} → M A → Type 0
Legal m = (r : Registry) → LegalFrom r.database (m r)

-- The statements of a transaction are legal wherever they succeed.
abbrev pub LegalStatements : (Database → Result Database) → Type 0
LegalStatements run = (db db' : Database) → run db ≡ success db' → Steps db db'

pub bind-LegalFrom {ℓ κ} :
    {A : Type ℓ} {B : Type κ} (m : M A) (f : A → M B) (db : Database) (r : Registry)
    → LegalFrom db (m r)
    → ((a : A) (r' : Registry) → m r ≡ ok a r' → LegalFrom r'.database (f a r'))
    → LegalFrom db ((m >>= f) r)
unfolding ◌>>=◌
bind-LegalFrom {B} m f db r hm hf = go (m r) refl hm
  where
    go :
        (o : Outcome _)
        → m r ≡ o
        → LegalFrom db o
        → LegalFrom {A = B} db (elim o [ ok a r' ↦ f a r' | thrown e r' ↦ thrown e r' ])
    go (ok a r') e h = chain (Steps-trans (chain_of h) (chain_of (hf a r' e)))
    go (thrown x r') e h = chain (chain_of h)

pub Legal-bind {ℓ κ} :
    {A : Type ℓ} {B : Type κ} (m : M A) (f : A → M B)
    → Legal m
    → ((a : A) → Legal (f a))
    → Legal (m >>= f)
Legal-bind m f hm hf r = bind-LegalFrom m f r.database r (hm r) (λ a r' _. hf a r')

-- A state with the same tables.
pub ok-LegalFrom {ℓ} : {A : Type ℓ} (a : A) (r : Registry) → LegalFrom r.database (ok a r)
ok-LegalFrom a r = chain done

pub thrown-LegalFrom {ℓ} :
    {A : Type ℓ} (e : RegistryError) (r : Registry) → LegalFrom {A = A} r.database (thrown e r)
thrown-LegalFrom e r = chain done

pub if-Legal {ℓ} :
    {A : Type ℓ} (b : Bool) (m n : M A) → Legal m → Legal n → Legal (if b then m else n)
if-Legal true m n hm hn = hm
if-Legal false m n hm hn = hn

pub guard-Legal : (b : Bool) (e : RegistryError) → Legal (guard b e)
guard-Legal true e r = chain done
guard-Legal false e r = chain done

-- A transaction from a given state.
pub transaction-LegalFrom :
    (run : Database → Result Database) (r : Registry)
    → ((db' : Database) → run r.database ≡ success db' → Steps r.database db')
    → LegalFrom r.database (transaction run r)
unfolding transaction
transaction-LegalFrom run r h = go (run r.database) refl
  where
    go : (res : Result Database) → run r.database ≡ res → LegalFrom r.database (commit r res)
    go (success db') e = chain (h db' e)
    go (failure x) e = chain done

pub transaction-Legal :
    (run : Database → Result Database) → LegalStatements run → Legal (transaction run)
transaction-Legal run h r = transaction-LegalFrom run r (h r.database)

pub append_event-Steps :
    (now : ℕ) (id : String) (process_id : Option String) (name : EventName) (db db' : Database)
    → append_event now id process_id name db ≡ success db'
    → Steps db db'
unfolding append_event
append_event-Steps now id process_id name db db' h = elim (Bool-cases (has_operation id db)) [
  | inl e ↦
      done
      then Step.event_added (event_row now id process_id name db) (unfold event_row in omega arith)
          (unfold event_row in e) (ground arith)
  | inr e ↦ absurd (ground arith)
]

pub bump-Step : (db : Database) → Step db (bump db)
unfolding bump
bump-Step db = Step.meta_written (bump db).meta (omega arith) refl

pub set_admission-Step :
    (admission : Admission) (db : Database) → Step db (set_admission admission db)
unfolding set_admission
set_admission-Step admission db =
    Step.meta_written (set_admission admission db).meta (omega arith) refl

-- An update, an event, and a bump of the revision: the shape of most transactions.
pub logged-Steps :
    (now : ℕ) (id : String) (process_id : Option String) (name : EventName) (before : Database)
    (update after : Database → Database) (db' : Database)
    → Step before (update before)
    → ((db : Database) → Steps db (after db))
    → Database.◌>>=◌
        (append_event now id process_id name (update before))
        (λ db. success (after db))
      ≡ success db'
    → Steps before db'
logged-Steps now id process_id name before update after db' first last h =
    go (append_event now id process_id name (update before)) refl h
  where
    go :
        (res : Result Database)
        → append_event now id process_id name (update before) ≡ res
        → Database.◌>>=◌ res (λ db. success (after db)) ≡ success db'
        → Steps before db'
    go (failure x) e k = absurd (ground arith)
    go (success mid) e k =
        let k' : after mid ≡ db' = ground arith in
        rw (← k') (
          Steps-trans
            (Steps-trans (done then first)
              (append_event-Steps now id process_id name (update before) mid e))
            (last mid))

-- The state that a call leaves is reached by legal statements and at most one insertion of an operation.
pub data OpensFrom {ℓ} {A : Type ℓ} (id : String) (db : Database) (o : Outcome A) : Type 0 where
  opening : Opens id db (state_after o).database → OpensFrom id db o

pub opening_of {ℓ} :
    {A : Type ℓ} {id : String} {db : Database} {o : Outcome A}
    → OpensFrom id db o
    → Opens id db (state_after o).database
opening_of (opening s) = s

module _ {ℓ κ} {A : Type ℓ} {B : Type κ} (id : String) (m : M A) (f : A → M B) (r : Registry) where
  -- The insertion comes later.
  pub Legal-OpensFrom :
      Legal m
      → ((a : A) (r' : Registry) → OpensFrom id r'.database (f a r'))
      → OpensFrom id r.database ((m >>= f) r)
  unfolding ◌>>=◌
  Legal-OpensFrom hm hf = go (m r) (hm r)
    where
      go :
          (o : Outcome A)
          → LegalFrom r.database o
          → OpensFrom {A = B} id r.database
              (elim o [ ok a r' ↦ f a r' | thrown e r' ↦ thrown e r' ])
      go (ok a r') h = opening (Steps-Opens (chain_of h) (opening_of (hf a r')))
      go (thrown x r') h = opening (opens_none (chain_of h))

  -- The insertion came first.
  pub OpensFrom-Legal :
      OpensFrom id r.database (m r)
      → ((a : A) → Legal (f a))
      → OpensFrom id r.database ((m >>= f) r)
  unfolding ◌>>=◌
  OpensFrom-Legal hm hf = go (m r) hm
    where
      go :
          (o : Outcome A)
          → OpensFrom id r.database o
          → OpensFrom {A = B} id r.database
              (elim o [ ok a r' ↦ f a r' | thrown e r' ↦ thrown e r' ])
      go (ok a r') h = opening (Opens-Steps (opening_of h) (chain_of (hf a r')))
      go (thrown x r') h = opening (opening_of h)

pub transaction-OpensFrom :
    (id : String) (run : Database → Result Database) (r : Registry)
    → ((db' : Database) → run r.database ≡ success db' → Opens id r.database db')
    → OpensFrom id r.database (transaction run r)
unfolding transaction
transaction-OpensFrom id run r h = go (run r.database) refl
  where
    go : (res : Result Database) → run r.database ≡ res → OpensFrom id r.database (commit r res)
    go (success db') e = opening (h db' e)
    go (failure x) e = opening (opens_none done)
