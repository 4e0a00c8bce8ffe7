-- ===== src/Operations/Recovered.antt =====
-- How `recover` ends: packages/kogg-operations/src/node/operation-registry.ts.
use kogg.Prelude.{
  ℕ, suc, String, String-Eq, Bool, true, false, ◌||◌, Option, none, some, List, [], ◌∷◌, ◌++◌, ◌≡◌,
  refl, ◌∙◌, ◌==◌, includes, if◌then◌else◌, arith, Bool-cases, inl, inr, All, All-mono,
}
use kogg.Operations.Transitions.{is_terminal}
use kogg.Operations.States.{OperationState}
use kogg.Operations.Codes.{OperationSafeCode}
use kogg.Operations.Database.{
  EventName, OperationRow, ProcessRow, Database, success, append_event, event_row, on_operation,
  update_operations,
}
use kogg.Operations.Prune.{ids}
use kogg.Operations.Rows.{KeepsId, ids-update_operations, any-includes-ids}
use kogg.Operations.Recovery.{
  failed_code, Host, Verdict, mark_recovering, recover_processes, conclude, conclude_operations,
  settle_event, settle_process, judge, blocks, update_process_rows,
}

-- The listed operations are there.
abbrev pub Present : List OperationRow → List String → Type 0
Present os = All (λ id. includes (ids os) id ≡ true)

-- What is not listed is in a terminal state.
abbrev pub Covered : List String → List OperationRow → Type 0
Covered pending = All (λ (o : OperationRow). (is_terminal o.state || includes pending o.id) ≡ true)

pub append_event-succeeds :
    (now : ℕ) (id : String) (process_id : Option String) (name : EventName) (db : Database)
    → includes (ids db.operations) id ≡ true
    → append_event now id process_id name db
      ≡ success (record db {
        last_sequence = suc db.last_sequence;
        events = db.events ++ event_row now id process_id name db ∷ [];
      })
unfolding append_event
append_event-succeeds now id process_id name db h = rw (any-includes-ids id db.operations, h) refl

-- An update of a listed operation leaves the rest covered.
Covered-update :
    (pending : List String) (id : String) (change : OperationRow → OperationRow)
    (os : List OperationRow)
    → KeepsId change
    → includes pending id ≡ true
    → Covered pending os
    → Covered pending (update_operations id change os)
unfolding update_operations
Covered-update pending id change [] keeps here c = tt
Covered-update pending id change (o ∷ os) keeps here c =
    let rest = Covered-update pending id change os keeps here c.1 in
    elim (Bool-cases (o.id == id)) [
      | inl e ↦ rw e (rw (keeps o, (String-Eq.beq_iff o.id id).0 e, here) (ground arith), rest)
      | inr e ↦ rw e (c.0, rest)
    ]

-- An update that settles an operation takes it off the list.
Covered-settle :
    (pending : List String) (id : String) (change : OperationRow → OperationRow)
    (os : List OperationRow)
    → KeepsId change
    → ((o : OperationRow) → is_terminal (change o).state ≡ true)
    → Covered (id ∷ pending) os
    → Covered pending (update_operations id change os)
unfolding update_operations
Covered-settle pending id change [] keeps settles c = tt
Covered-settle pending id change (o ∷ os) keeps settles c =
    let rest = Covered-settle pending id change os keeps settles c.1 in
    elim (Bool-cases (o.id == id)) [
      | inl e ↦ rw e (rw (settles o) refl, rest)
      | inr e ↦
          rw e (ground (arith, c.0, String-Eq.beq_iff o.id id, String-Eq.beq_iff id o.id), rest)
    ]

Present-eq :
    (os os' : List OperationRow) (L : List String) → ids os' ≡ ids os → Present os L → Present os' L
Present-eq os os' L e h = All-mono _ _ L (λ id k. rw e k) h

-- The first loop succeeds, and leaves every operation settled or listed.
pub mark_recovering-succeeds :
    (now : ℕ) (pending rest : List String) (db : Database)
    → Present db.operations rest
    → All (λ id. includes pending id ≡ true) rest
    → Covered pending db.operations
    → (db' : Database) × (mark_recovering now rest db ≡ success db')
      × (ids db'.operations ≡ ids db.operations)
      × Covered pending db'.operations
      × (db'.processes ≡ db.processes)
unfolding mark_recovering
mark_recovering-succeeds now pending [] db here listed c = (db, refl, refl, c, refl)
mark_recovering-succeeds now pending (id ∷ rest) db here listed c =
    let first = λ (o : OperationRow). record o {
      state = OperationState.recovery_required;
      updated_at = now;
      revision = suc o.revision;
    } in
    let second = λ (o : OperationRow). record o {
      state = OperationState.recovering;
      updated_at = now;
      revision = suc o.revision;
    } in
    let os1 = update_operations id first db.operations in
    let os2 = update_operations id second os1 in
    let same1 = ids-update_operations id first db.operations (λ o. refl) in
    let same2 = ids-update_operations id second os1 (λ o. refl) ∙ same1 in
    let appended =
      append_event-succeeds now id none EventName.recovery_started (on_operation id first db)
        (rw same1 here.0) in
    let (db', e, same, covered, untouched) =
      mark_recovering-succeeds now pending rest
        (record db {
          operations = os2;
          last_sequence = suc db.last_sequence;
          events =
              db.events
              ++ event_row now id none EventName.recovery_started (on_operation id first db) ∷ [];
        })
        (Present-eq db.operations os2 rest same2 here.1) listed.1
        (Covered-update pending id second os1 (λ o. refl) listed.0
          (Covered-update pending id first db.operations (λ o. refl) listed.0 c)) in
    (db', rw appended e, same ∙ same2, covered, untouched)

conclude_is_settled :
    (b : Bool) (code : OperationSafeCode) (o : OperationRow)
    → is_terminal (conclude b code o).state ≡ true
unfolding conclude is_terminal
conclude_is_settled true code o = refl
conclude_is_settled false code o = refl

conclude-KeepsId : (b : Bool) (code : OperationSafeCode) → KeepsId (conclude b code)
unfolding conclude
conclude-KeepsId true code o = refl
conclude-KeepsId false code o = refl

-- The last loop succeeds, and leaves every operation settled.
pub conclude_operations-succeeds :
    (now : ℕ) (blocked rest : List String) (db : Database)
    → Present db.operations rest
    → Covered rest db.operations
    → (db' : Database) × (conclude_operations now blocked rest db ≡ success db')
      × (ids db'.operations ≡ ids db.operations)
      × Covered [] db'.operations
      × (db'.processes ≡ db.processes)
unfolding conclude_operations
conclude_operations-succeeds now blocked [] db here c = (db, refl, refl, c, refl)
conclude_operations-succeeds now blocked (id ∷ rest) db here c =
    let b = includes blocked id in
    let code = failed_code id db.processes in
    let name = if b then EventName.recovery_failed else EventName.recovery_completed in
    let os1 = update_operations id (conclude b code) db.operations in
    let same1 =
      ids-update_operations id (conclude b code) db.operations (conclude-KeepsId b code) in
    let appended =
      append_event-succeeds now id none name (on_operation id (conclude b code) db)
        (rw same1 here.0) in
    let (db', e, same, covered, untouched) =
      conclude_operations-succeeds now blocked rest
        (record db {
          operations = os1;
          last_sequence = suc db.last_sequence;
          events =
              db.events ++ event_row now id none name (on_operation id (conclude b code) db) ∷ [];
        })
        (Present-eq db.operations os1 rest same1 here.1)
        (Covered-settle rest id (conclude b code) db.operations (conclude-KeepsId b code)
          (conclude_is_settled b code) c) in
    (db', rw appended e, same ∙ same1, covered, untouched)

settle_event-succeeds :
    (now : ℕ) (v : Verdict) (p : ProcessRow) (db : Database)
    → includes (ids db.operations) p.operation_id ≡ true
    → (db' : Database) × (settle_event now v p db ≡ success db') × (db'.operations ≡ db.operations)
unfolding settle_event
settle_event-succeeds now Verdict.unverified p db h = (db, refl, refl)
settle_event-succeeds now Verdict.residual p db h = (db, refl, refl)
settle_event-succeeds now Verdict.gone p db h = (
  _,
  append_event-succeeds now p.operation_id (some p.id) EventName.recovery_completed db h,
  refl,
)

-- The second loop succeeds, and leaves the operations alone.
pub recover_processes-succeeds :
    (host : Host) (now : ℕ) (ps : List ProcessRow) (blocked : List String) (db : Database)
    → All (λ (p : ProcessRow). includes (ids db.operations) p.operation_id ≡ true) ps
    → (s : List String × Database) × (recover_processes host now ps (blocked, db) ≡ success s)
      × (s.1.operations ≡ db.operations)
unfolding recover_processes
recover_processes-succeeds host now [] blocked db here = ((blocked, db), refl, refl)
recover_processes-succeeds host now (p ∷ ps) blocked db here =
    let appended =
      append_event-succeeds now p.operation_id (some p.id) EventName.recovery_process_observed db
        here.0 in
    let observed = record db {
      last_sequence = suc db.last_sequence;
      events =
          db.events
          ++ event_row now p.operation_id (some p.id) EventName.recovery_process_observed db ∷ [];
      processes = update_process_rows p.id (settle_process (judge host p)) db.processes;
    } in
    let (db', e, same) = settle_event-succeeds now (judge host p) p observed here.0 in
    let (s, e', same') =
      recover_processes-succeeds host now ps (blocks (judge host p) p blocked) db'
        (rw same here.1) in
    (s, rw appended (rw e e'), same' ∙ same)
