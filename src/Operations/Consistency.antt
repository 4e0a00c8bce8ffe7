-- ===== src/Operations/Consistency.antt =====
-- The invariant of the tables: keys are unique, no row points nowhere, and the event log is in order.
-- packages/kogg-operations/src/node/operation-registry.ts.
use kogg.Prelude.{
  All-mono, inr, inl, ℕ, ◌≤◌, ◌<◌, String, String-Eq, Bool, true, false, not, List, [], ◌∷◌, ◌++◌,
  ◌≡◌, refl, sym, ap, ◌∙◌, ◌==◌, any, filter, includes, if◌then◌else◌, arith, Bool-cases, All,
  All-append, All-filter_of,
}
use kogg.Operations.Database.{
  has_operation, OperationRow, ProcessRow, EventRow, Database, update_processes, on_operation,
  on_process,
}
use kogg.Operations.Prune.{ids, old, prune}
use kogg.Operations.Rows.{KeepsId, ids-update_operations, any-includes-ids}
use kogg.Operations.Retention.{prune-old}
use kogg.Operations.Moves.{
  KeepsProcess, Step, Steps, done, ◌then◌, Opens, opens_none, opens_one, with_operation,
}

abbrev pub Distinct : List String → Type 0
Distinct [] = Unit {0}
Distinct (x ∷ xs) = (includes xs x ≡ false) × Distinct xs

abbrev pub process_ids : List ProcessRow → List String
process_ids [] = []
process_ids (p ∷ ps) = p.id ∷ process_ids ps

-- The sequence numbers rise strictly from above `lo` up to `hi`.
abbrev pub Ascending : ℕ → ℕ → List EventRow → Type 0
Ascending lo hi [] = lo ≤ hi
Ascending lo hi (e ∷ es) = (lo < e.sequence) × Ascending e.sequence hi es

abbrev pub HasParent : List OperationRow → String → Type 0
HasParent os id = includes (ids os) id ≡ true

pub record IsConsistent (db : Database) : Type 0 where
  pub operation_keys : Distinct (ids db.operations)
  pub process_keys : Distinct (process_ids db.processes)
  pub process_parents :
      All (λ (p : ProcessRow). HasParent db.operations p.operation_id) db.processes
  pub event_parents : All (λ (e : EventRow). HasParent db.operations e.operation_id) db.events
  pub event_order : Ascending 0 db.last_sequence db.events

includes-append :
    (xs : List String) (a b : String)
    → includes (xs ++ a ∷ []) b ≡ (if includes xs b then true else a == b)
includes-append [] a b = ground arith
includes-append (x ∷ xs) a b = ground (arith, includes-append xs a b)

Distinct-append :
    (xs : List String) (a : String) → Distinct xs → includes xs a ≡ false → Distinct (xs ++ a ∷ [])
Distinct-append [] a d h = (refl, tt)
Distinct-append (x ∷ xs) a d h = (
  ground (arith, includes-append xs a x, String-Eq.beq_iff x a, String-Eq.beq_iff a x),
  Distinct-append xs a d.1 (ground arith),
)

ids-append : (os : List OperationRow) (o : OperationRow) → ids (os ++ o ∷ []) ≡ ids os ++ o.id ∷ []
unfolding ids
ids-append [] o = refl
ids-append (x ∷ os) o = ap (λ l. x.id ∷ l) (ids-append os o)

process_ids-append :
    (ps : List ProcessRow) (p : ProcessRow)
    → process_ids (ps ++ p ∷ []) ≡ process_ids ps ++ p.id ∷ []
process_ids-append [] p = refl
process_ids-append (x ∷ ps) p = ap (λ l. x.id ∷ l) (process_ids-append ps p)

any-includes-process_ids :
    (id : String) (ps : List ProcessRow)
    → any (λ (p : ProcessRow). p.id == id) ps ≡ includes (process_ids ps) id
any-includes-process_ids id [] = refl
any-includes-process_ids id (p ∷ ps) = ground (arith, any-includes-process_ids id ps)

process_ids-update :
    (operation_id id : String) (change : ProcessRow → ProcessRow) (ps : List ProcessRow)
    → KeepsProcess change
    → process_ids (update_processes operation_id id change ps) ≡ process_ids ps
unfolding update_processes
process_ids-update operation_id id change [] keeps = refl
process_ids-update operation_id id change (p ∷ ps) keeps =
    ground (arith, keeps p, process_ids-update operation_id id change ps keeps)

parents-update :
    (P : String → Type 0) (operation_id id : String) (change : ProcessRow → ProcessRow)
    (ps : List ProcessRow)
    → KeepsProcess change
    → All (λ (p : ProcessRow). P p.operation_id) ps
    → All (λ (p : ProcessRow). P p.operation_id) (update_processes operation_id id change ps)
unfolding update_processes
parents-update P operation_id id change [] keeps h = tt
parents-update P operation_id id change (p ∷ ps) keeps h =
    (ground (arith, keeps p), parents-update P operation_id id change ps keeps h.1)

HasParent-append :
    (os : List OperationRow) (o : OperationRow) (id : String)
    → HasParent os id
    → HasParent (os ++ o ∷ []) id
HasParent-append os o id h = rw (ids-append os o, includes-append (ids os) o.id id, h)

Ascending-append :
    (lo hi : ℕ) (es : List EventRow) (e : EventRow)
    → hi < e.sequence
    → Ascending lo hi es
    → Ascending lo e.sequence (es ++ e ∷ [])
Ascending-append lo hi [] e h a = (omega arith, omega arith)
Ascending-append lo hi (x ∷ es) e h a = (a.0, Ascending-append x.sequence hi es e h a.1)

Ascending-lower :
    (lo lo' hi : ℕ) (es : List EventRow) → lo' ≤ lo → Ascending lo hi es → Ascending lo' hi es
Ascending-lower lo lo' hi [] h a = omega arith
Ascending-lower lo lo' hi (e ∷ es) h a = (omega arith, a.1)

Ascending-filter :
    (p : EventRow → Bool) (lo hi : ℕ) (es : List EventRow)
    → Ascending lo hi es
    → Ascending lo hi (filter p es)
Ascending-filter p lo hi [] a = a
Ascending-filter p lo hi (e ∷ es) a = elim (Bool-cases (p e)) [
  | inl k ↦ rw k (a.0, Ascending-filter p e.sequence hi es a.1)
  | inr k ↦
      rw k (Ascending-filter p lo hi es (Ascending-lower e.sequence lo hi es (omega arith) a.1))
]

-- Filtering rows by their identifiers.
module _ (keep : String → Bool) where
  includes-filter-ids :
      (os : List OperationRow) (id : String)
      → keep id ≡ true
      → includes (ids (filter (λ (o : OperationRow). keep o.id) os)) id ≡ includes (ids os) id
  unfolding ids
  includes-filter-ids [] id h = refl
  includes-filter-ids (o ∷ os) id h =
      ground (arith, String-Eq.beq_iff o.id id, includes-filter-ids os id h)

  not_includes-filter-ids :
      (os : List OperationRow) (id : String)
      → includes (ids os) id ≡ false
      → includes (ids (filter (λ (o : OperationRow). keep o.id) os)) id ≡ false
  unfolding ids
  not_includes-filter-ids [] id h = refl
  not_includes-filter-ids (o ∷ os) id h =
      ground (arith, not_includes-filter-ids os id (ground arith))

  Distinct-filter-ids :
      (os : List OperationRow)
      → Distinct (ids os)
      → Distinct (ids (filter (λ (o : OperationRow). keep o.id) os))
  unfolding ids
  Distinct-filter-ids [] d = tt
  Distinct-filter-ids (o ∷ os) d = elim (Bool-cases (keep o.id)) [
    | inl e ↦ rw e (not_includes-filter-ids os o.id d.0, Distinct-filter-ids os d.1)
    | inr e ↦ rw e (Distinct-filter-ids os d.1)
  ]

  not_includes-filter-process_ids :
      (ps : List ProcessRow) (id : String)
      → includes (process_ids ps) id ≡ false
      → includes (process_ids (filter (λ (p : ProcessRow). keep p.operation_id) ps)) id ≡ false
  not_includes-filter-process_ids [] id h = refl
  not_includes-filter-process_ids (p ∷ ps) id h =
      ground (arith, not_includes-filter-process_ids ps id (ground arith))

  Distinct-filter-process_ids :
      (ps : List ProcessRow)
      → Distinct (process_ids ps)
      → Distinct (process_ids (filter (λ (p : ProcessRow). keep p.operation_id) ps))
  Distinct-filter-process_ids [] d = tt
  Distinct-filter-process_ids (p ∷ ps) d = elim (Bool-cases (keep p.operation_id)) [
    | inl e ↦ rw e (not_includes-filter-process_ids ps p.id d.0, Distinct-filter-process_ids ps d.1)
    | inr e ↦ rw e (Distinct-filter-process_ids ps d.1)
  ]

updated :
    (db : Database) (id : String) (change : OperationRow → OperationRow)
    → KeepsId change
    → IsConsistent db
    → IsConsistent (on_operation id change db)
updated db id change keeps c =
    let same = ids-update_operations id change db.operations keeps in
    record {
      operation_keys = rw same c.operation_keys;
      process_keys = c.process_keys;
      process_parents = rw same c.process_parents;
      event_parents = rw same c.event_parents;
      event_order = c.event_order;
    }

processes_updated :
    (db : Database) (operation_id id : String) (change : ProcessRow → ProcessRow)
    → KeepsProcess change
    → IsConsistent db
    → IsConsistent (on_process operation_id id change db)
processes_updated db operation_id id change keeps c = record {
  operation_keys = c.operation_keys;
  process_keys = rw (process_ids-update operation_id id change db.processes keeps) c.process_keys;
  process_parents =
      parents-update (HasParent db.operations) operation_id id change db.processes keeps
        c.process_parents;
  event_parents = c.event_parents;
  event_order = c.event_order;
}

-- The three deletions leave no row without its operation.
prune-IsConsistent : (db : Database) → IsConsistent db → IsConsistent (prune db)
prune-IsConsistent db c =
    let keep = λ (id : String). not (includes (old db) id) in
    rw (prune-old db) (record {
      operation_keys = Distinct-filter-ids keep db.operations c.operation_keys;
      process_keys = Distinct-filter-process_ids keep db.processes c.process_keys;
      process_parents =
          All-filter_of _ _ (λ (p : ProcessRow). keep p.operation_id) db.processes
            (λ p h k. includes-filter-ids keep db.operations p.operation_id k ∙ h)
            c.process_parents;
      event_parents =
          All-filter_of _ _ (λ (x : EventRow). keep x.operation_id) db.events
            (λ x h k. includes-filter-ids keep db.operations x.operation_id k ∙ h) c.event_parents;
      event_order =
          Ascending-filter (λ x. keep x.operation_id) 0 db.last_sequence db.events c.event_order;
    })

-- Every legal statement keeps the invariant.
pub Step-IsConsistent : {db db' : Database} → Step db db' → IsConsistent db → IsConsistent db'
Step-IsConsistent {db} (Step.meta_written m grows e) c = rw e (record {
  operation_keys = c.operation_keys;
  process_keys = c.process_keys;
  process_parents = c.process_parents;
  event_parents = c.event_parents;
  event_order = c.event_order;
})
Step-IsConsistent {db} (Step.operation_kept id change keeps _ e) c =
    rw e (updated db id change keeps c)
Step-IsConsistent {db} (Step.operation_moved id change s t keeps _ _ _ e) c =
    rw e (updated db id change keeps c)
Step-IsConsistent {db} (Step.process_kept operation_id id change keeps _ e) c =
    rw e (processes_updated db operation_id id change keeps c)
Step-IsConsistent {db} (Step.process_moved operation_id id change s t keeps _ _ _ e) c =
    rw e (processes_updated db operation_id id change keeps c)
Step-IsConsistent {db} (Step.process_added row _ fresh parent e) c = rw e (record {
  operation_keys = c.operation_keys;
  process_keys = rw (process_ids-append db.processes row) (
      Distinct-append (process_ids db.processes) row.id c.process_keys
        (sym (any-includes-process_ids row.id db.processes) ∙ fresh));
  process_parents =
      All-append _ db.processes (row ∷ []) c.process_parents
        (sym (any-includes-ids row.operation_id db.operations) ∙ parent, tt);
  event_parents = c.event_parents;
  event_order = c.event_order;
})
Step-IsConsistent {db} (Step.event_added x later parent e) c = rw e (record {
  operation_keys = c.operation_keys;
  process_keys = c.process_keys;
  process_parents = c.process_parents;
  event_parents =
      All-append _ db.events (x ∷ []) c.event_parents
        (sym (any-includes-ids x.operation_id db.operations) ∙ parent, tt);
  event_order = Ascending-append 0 db.last_sequence db.events x later c.event_order;
})
Step-IsConsistent {db} (Step.request_added q fresh e) c = rw e (record {
  operation_keys = c.operation_keys;
  process_keys = c.process_keys;
  process_parents = c.process_parents;
  event_parents = c.event_parents;
  event_order = c.event_order;
})
Step-IsConsistent {db} (Step.pruned e) c = rw e (prune-IsConsistent db c)

-- So does every chain of them.
pub Steps-IsConsistent : {db db' : Database} → Steps db db' → IsConsistent db → IsConsistent db'
Steps-IsConsistent done c = c
Steps-IsConsistent (h then s) c = Step-IsConsistent s (Steps-IsConsistent h c)

-- So does the insertion of an operation.
pub with_operation-IsConsistent :
    (row : OperationRow) (db : Database)
    → has_operation row.id db ≡ false
    → IsConsistent db
    → IsConsistent (with_operation row db)
with_operation-IsConsistent row db fresh c = record {
  operation_keys = rw (ids-append db.operations row) (
      Distinct-append (ids db.operations) row.id c.operation_keys
        (sym (any-includes-ids row.id db.operations) ∙ fresh));
  process_keys = c.process_keys;
  process_parents =
      All-mono _ _ db.processes (λ p. HasParent-append db.operations row p.operation_id)
        c.process_parents;
  event_parents =
      All-mono _ _ db.events (λ x. HasParent-append db.operations row x.operation_id)
        c.event_parents;
  event_order = c.event_order;
}

pub Opens-IsConsistent :
    {id : String} {db db' : Database} → Opens id db db' → IsConsistent db → IsConsistent db'
Opens-IsConsistent (opens_none s) c = Steps-IsConsistent s c
Opens-IsConsistent (opens_one {mid} row s same new fresh t) c =
    Steps-IsConsistent t (with_operation-IsConsistent row mid fresh (Steps-IsConsistent s c))
