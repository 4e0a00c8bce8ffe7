-- ===== src/Operations/Moves.antt =====
-- What the tables of the registry go through, statement by statement:
-- packages/kogg-operations/src/node/operation-registry.ts.
use mathlib.Core.Option
use kogg.Prelude.{
  ◌≤◌, ◌<◌, String, String-Eq, true, false, Option, some, [], ◌∷◌, ◌++◌, ◌≡◌, ◌==◌, any,
}
use kogg.Operations.States.{OperationState, ProcessState}
use kogg.Operations.Transitions.{may_become, process_may_become}
use kogg.Operations.Database.{
  OperationRow, ProcessRow, EventRow, RequestRow, Database, Meta, find_operation, find_process,
  has_operation, on_operation, on_process,
}
use kogg.Operations.Prune.{prune}
use kogg.Operations.Rows.{KeepsId}

-- The state of an operation, and of a process of an operation.
abbrev pub state_of : String → Database → Option OperationState
state_of id db = Option.map (λ (o : OperationRow). o.state) (find_operation id db)

abbrev pub process_state_of : String → String → Database → Option ProcessState
process_state_of operation_id id db =
    Option.map (λ (p : ProcessRow). p.state) (find_process operation_id id db)

-- An update of a process writes no key.
abbrev pub KeepsProcess : (ProcessRow → ProcessRow) → Type 0
KeepsProcess change =
    (p : ProcessRow) → ((change p).id ≡ p.id) × ((change p).operation_id ≡ p.operation_id)

-- One legal statement. An operation's state is written along an edge of the table only, a process's
-- state likewise, and the row of a process or of a request is inserted under a new key. The insertion of
-- an operation is no such statement.
pub data Step (db : Database) (db' : Database) : Type 0 where
  meta_written :
      (m : Meta) → db.meta.revision ≤ m.revision → db' ≡ record db { meta = m } → Step db db'
  operation_kept :
      (id : String) (change : OperationRow → OperationRow)
      → KeepsId change
      → ((o : OperationRow) → (change o).state ≡ o.state)
      → db' ≡ on_operation id change db
      → Step db db'
  operation_moved :
      (id : String) (change : OperationRow → OperationRow) (s t : OperationState)
      → KeepsId change
      → ((o : OperationRow) → (change o).state ≡ t)
      → state_of id db ≡ some s
      → may_become s t ≡ true
      → db' ≡ on_operation id change db
      → Step db db'
  process_kept :
      (operation_id id : String) (change : ProcessRow → ProcessRow)
      → KeepsProcess change
      → ((p : ProcessRow) → (change p).state ≡ p.state)
      → db' ≡ on_process operation_id id change db
      → Step db db'
  process_moved :
      (operation_id id : String) (change : ProcessRow → ProcessRow) (s t : ProcessState)
      → KeepsProcess change
      → ((p : ProcessRow) → (change p).state ≡ t)
      → process_state_of operation_id id db ≡ some s
      → process_may_become s t ≡ true
      → db' ≡ on_process operation_id id change db
      → Step db db'
  process_added :
      (row : ProcessRow)
      → row.state ≡ ProcessState.registered
      → any (λ (p : ProcessRow). p.id == row.id) db.processes ≡ false
      → has_operation row.operation_id db ≡ true
      → db' ≡ record db { processes = db.processes ++ row ∷ [] }
      → Step db db'
  event_added :
      (e : EventRow)
      → db.last_sequence < e.sequence
      → has_operation e.operation_id db ≡ true
      → db' ≡ record db { last_sequence = e.sequence; events = db.events ++ e ∷ [] }
      → Step db db'
  request_added :
      (q : RequestRow)
      → any (λ (x : RequestRow). x.request_id == q.request_id) db.request_results ≡ false
      → db' ≡ record db { request_results = db.request_results ++ q ∷ [] }
      → Step db db'
  pruned : db' ≡ prune db → Step db db'

infixl 20 ◌then◌
pub data Steps (db : Database) : Database → Type 0 where
  done : Steps db db
  ◌then◌ : {mid last : Database} → Steps db mid → Step mid last → Steps db last

pub Steps-trans : {a b c : Database} → Steps a b → Steps b c → Steps a c
Steps-trans h done = h
Steps-trans h (k then s) = Steps-trans h k then s

abbrev pub with_operation : OperationRow → Database → Database
with_operation row db = record db { operations = db.operations ++ row ∷ [] }

-- A chain of legal statements in which a row may be inserted, once, under an identifier that no row
-- has, and in the state `requested`.
pub data Opens (id : String) (db : Database) (db' : Database) : Type 0 where
  opens_none : Steps db db' → Opens id db db'
  opens_one :
      {mid : Database} (row : OperationRow)
      → Steps db mid
      → row.id ≡ id
      → row.state ≡ OperationState.requested
      → has_operation row.id mid ≡ false
      → Steps (with_operation row mid) db'
      → Opens id db db'

pub Steps-Opens : {id : String} {a b c : Database} → Steps a b → Opens id b c → Opens id a c
Steps-Opens h (opens_none s) = opens_none (Steps-trans h s)
Steps-Opens h (opens_one row s same new fresh t) = opens_one row (Steps-trans h s) same new fresh t

pub Opens-Steps : {id : String} {a b c : Database} → Opens id a b → Steps b c → Opens id a c
Opens-Steps (opens_none s) t = opens_none (Steps-trans s t)
Opens-Steps (opens_one row s same new fresh t) u = opens_one row s same new fresh (Steps-trans t u)
