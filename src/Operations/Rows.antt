-- ===== src/Operations/Rows.antt =====
-- Laws of the statements on the tables: what an update, an insertion and a deletion do to look-ups.
use mathlib.Core.Option
use kogg.Prelude.{
  ℕ, String, String-Eq, true, Option, List, [], ◌∷◌, ◌++◌, ◌≡◌, refl, ◌⊎◌, inl, inr, ◌==◌, any,
  find?, includes, if◌then◌else◌, arith, Bool-cases,
}
use kogg.Operations.Database.{
  OperationRow, EventRow, EventName, Database, RegistryError, success, failure, update_operations,
  append_event, event_row, has_operation,
}
use kogg.Operations.Prune.{ids}

-- The updates in use write no key.
abbrev pub KeepsId : (OperationRow → OperationRow) → Type 0
KeepsId change = (o : OperationRow) → (change o).id ≡ o.id

pub ids-update_operations :
    (id : String) (change : OperationRow → OperationRow) (os : List OperationRow)
    → KeepsId change
    → ids (update_operations id change os) ≡ ids os
unfolding ids update_operations
ids-update_operations id change [] keeps = refl
ids-update_operations id change (o ∷ os) keeps =
    ground (arith, keeps o, ids-update_operations id change os keeps)

pub any-includes-ids :
    (id : String) (os : List OperationRow)
    → any (λ (o : OperationRow). o.id == id) os ≡ includes (ids os) id
unfolding ids
any-includes-ids id [] = refl
any-includes-ids id (o ∷ os) = ground (arith, any-includes-ids id os)

-- The row under a key, after an update.
pub find-update_operations :
    (k id : String) (change : OperationRow → OperationRow) (os : List OperationRow)
    → KeepsId change
    → find? (λ (o : OperationRow). o.id == k) (update_operations id change os) ≡ (
        if id == k
        then Option.map change (find? (λ (o : OperationRow). o.id == k) os)
        else find? (λ (o : OperationRow). o.id == k) os)
unfolding update_operations
find-update_operations k id change [] keeps = ground arith
find-update_operations k id change (o ∷ os) keeps = ground (
  arith,
  keeps o,
  String-Eq.beq_iff o.id id,
  String-Eq.beq_iff o.id k,
  String-Eq.beq_iff id k,
  find-update_operations k id change os keeps,
)

-- `append_event` writes the event table and its counter, or fails.
pub append_event-cases :
    (now : ℕ) (id : String) (process_id : Option String) (name : EventName) (db : Database)
    → (append_event now id process_id name db ≡ failure RegistryError.constraint_failed)
      ⊎ ((e : EventRow) × (append_event now id process_id name db
            ≡ success (record db { last_sequence = e.sequence; events = db.events ++ e ∷ [] }))
          × (has_operation e.operation_id db ≡ true))
unfolding append_event
append_event-cases now id process_id name db = elim (Bool-cases (has_operation id db)) [
  | inl e ↦ inr (event_row now id process_id name db, rw e, e)
  | inr e ↦ inl (rw e)
]
