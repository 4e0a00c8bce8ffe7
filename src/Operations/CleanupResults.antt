-- ===== src/Operations/CleanupResults.antt =====
-- How `cleanupOperation` ends:
-- packages/kogg-operations/src/node/operation-registry.ts.
use mathlib.Core.Option
use kogg.Prelude.{
  ℕ, suc, String, String-Eq, true, false, Option, none, some, List, [], ◌∷◌, ◌++◌, ◌≡◌, ◌≢◌, refl,
  ap, ◌∙◌, ◌⊎◌, inl, inr, ◌==◌, any, find?, arith, Bool-cases, ==_refl,
}
use kogg.Operations.States.{CleanupState}
use kogg.Operations.Codes.{OperationSafeCode, Admission, Admission-Eq}
use kogg.Operations.Database
use kogg.Operations.Database.{
  OperationRow, EventRow, EventName, Database, RegistryError, Result, success, failure,
  append_event, event_row, find_operation, has_operation, on_operation, bump, set_admission,
  update_operations,
}
use kogg.Operations.Rows.{KeepsId, find-update_operations}
use kogg.Operations.Cleanup.{
  RaceEnd, resolved, rejected, timed_out, CleanupRun, cleaning_statements, cleaned_statements,
  cleanup_failed_statements, has_dirty_process, fail_cleanup, catch_cleanup, finish_cleanup,
  after_race, race, cleanup_operation,
}
use kogg.Operations.Registry.{
  Environment, Registry, Outcome, ok, thrown, ◌>>=◌, commit, transaction,
}

-- The clean-up state of an operation.
abbrev pub cleanup_of : String → Database → Option CleanupState
cleanup_of id db = Option.map (λ (o : OperationRow). o.cleanup_state) (find_operation id db)

find-some :
    (id : String) (os : List OperationRow)
    → any (λ (o : OperationRow). o.id == id) os ≡ true
    → (o : OperationRow) × (find? (λ (o : OperationRow). o.id == id) os ≡ some o)
find-some id [] h = cc
find-some id (o ∷ os) h = elim (Bool-cases (o.id == id)) [
  | inl e ↦ (o, rw e)
  | inr e ↦ let (x, f) = find-some id os (ground arith) in (x, rw e f)
]

-- An update that writes one clean-up state leaves the row with that state.
cleanup-update :
    (id : String) (change : OperationRow → OperationRow) (state : CleanupState) (db : Database)
    → KeepsId change
    → ((o : OperationRow) → (change o).cleanup_state ≡ state)
    → has_operation id db ≡ true
    → cleanup_of id (on_operation id change db) ≡ some state
cleanup-update id change state db keeps sets here =
    let (o, f) = find-some id db.operations here in
    rw (find-update_operations id id change db.operations keeps)
      (rw (==_refl id) (rw f (ap some (sets o))))

-- Updates keep the operations that are there.
has-update :
    (k id : String) (change : OperationRow → OperationRow) (os : List OperationRow)
    → KeepsId change
    → any (λ (o : OperationRow). o.id == k) (update_operations id change os)
      ≡ any (λ (o : OperationRow). o.id == k) os
unfolding update_operations
has-update k id change [] keeps = refl
has-update k id change (o ∷ os) keeps = ground (arith, keeps o, has-update k id change os keeps)

-- An update with its event succeeds exactly where the operation is there.
logged :
    (now : ℕ) (id : String) (name : EventName) (change : OperationRow → OperationRow)
    (after : Database → Database) (db : Database)
    → KeepsId change
    → has_operation id db ≡ true
    → (e : EventRow) × (Database.◌>>=◌
          (append_event now id none name (on_operation id change db))
          (λ db'. success (after db'))
        ≡ success (
            after (record db {
              operations = update_operations id change db.operations;
              last_sequence = e.sequence;
              events = db.events ++ e ∷ [];
            })))
unfolding append_event
logged now id name change after db keeps here = (
  event_row now id none name (on_operation id change db),
  rw (has-update id id change db.operations keeps, here),
)

abbrev pub IsFailed : String → Database → Type 0
IsFailed id db =
    (cleanup_of id db ≡ some CleanupState.failed) × (db.meta.admission ≡ Admission.blocked)

abbrev pub ThrowsFailed : String → RegistryError → Outcome (Unit {0}) → Type 0
ThrowsFailed id e o = (r' : Registry) × (o ≡ thrown e r') × IsFailed id r'.database

fail_cleanup_lem :
    (env : Environment) (id : String) (code : OperationSafeCode) (e : RegistryError) (r : Registry)
    → has_operation id r.database ≡ true
    → ThrowsFailed id e (fail_cleanup env id code e r)
unfolding fail_cleanup ◌>>=◌ transaction commit cleanup_failed_statements set_admission
fail_cleanup_lem env id code e r here =
    let change = λ (o : OperationRow). record o {
      cleanup_state = CleanupState.failed;
      safe_code = some code;
      updated_at = env.now;
      revision = suc o.revision;
    } in
    let (ev, h) =
      logged env.now id EventName.cleanup_failed change (set_admission Admission.blocked) r.database
        (λ o. refl) here in
    (
      record r {
        database = set_admission Admission.blocked (record (r.database) {
          operations = update_operations id change r.database.operations;
          last_sequence = ev.sequence;
          events = r.database.events ++ ev ∷ [];
        });
      },
      rw (h, ◌>>=◌, commit),
      (cleanup-update id change CleanupState.failed r.database (λ o. refl) (λ o. refl) here, refl),
    )

-- The error that each end of the race leads to, where the clean-up fails.
abbrev pub error_of : RaceEnd → RegistryError
error_of resolved = RegistryError.cleanup_left_process
error_of rejected = RegistryError.cleanup_rejected
error_of timed_out = RegistryError.cleanup_timed_out

after_race-fails :
    (env : Environment) (id : String) (end : RaceEnd) (r : Registry)
    → has_operation id r.database ≡ true
    → (end ≢ resolved) ⊎ (has_dirty_process id r.database ≡ true)
    → ThrowsFailed id (error_of end) (after_race env id (end, r))
unfolding after_race finish_cleanup
after_race-fails env id rejected r here h = fail_cleanup_lem env id _ _ r here
after_race-fails env id timed_out r here h = fail_cleanup_lem env id _ _ r here
after_race-fails env id resolved r here (inl h) = absurd (h refl)
after_race-fails env id resolved r here (inr dirty) = rw dirty (fail_cleanup_lem env id _ _ r here)

abbrev pub IsCleaned : String → Outcome (Unit {0}) → Type 0
IsCleaned id o =
    (r' : Registry) × (o ≡ ok tt r')
    × (cleanup_of id r'.database ≡ some CleanupState.cleaned)
    × (has_dirty_process id r'.database ≡ false)

after_race-cleans :
    (env : Environment) (id : String) (r : Registry)
    → has_operation id r.database ≡ true
    → has_dirty_process id r.database ≡ false
    → IsCleaned id (after_race env id (resolved, r))
unfolding after_race finish_cleanup transaction commit cleaned_statements bump catch_cleanup
    has_dirty_process
after_race-cleans env id r here clean =
    let change = λ (o : OperationRow). record o {
      cleanup_state = CleanupState.cleaned;
      updated_at = env.now;
      revision = suc o.revision;
    } in
    let (ev, h) =
      logged env.now id EventName.cleanup_completed change bump r.database (λ o. refl) here in
    (
      record r {
        database = bump (record (r.database) {
          operations = update_operations id change r.database.operations;
          last_sequence = ev.sequence;
          events = r.database.events ++ ev ∷ [];
        });
      },
      rw clean (rw h),
      cleanup-update id change CleanupState.cleaned r.database (λ o. refl) (λ o. refl) here,
      clean,
    )

-- How a clean-up can end.
abbrev pub Ends : String → Outcome (Unit {0}) → Type 0
Ends id o = IsCleaned id o ⊎ ((e : RegistryError) × ThrowsFailed id e o)

after_race-Ends :
    (env : Environment) (id : String) (end : RaceEnd) (r : Registry)
    → has_operation id r.database ≡ true
    → Ends id (after_race env id (end, r))
after_race-Ends env id rejected r here = inr (_, after_race-fails env id rejected r here (inl cc))
after_race-Ends env id timed_out r here = inr (_, after_race-fails env id timed_out r here (inl cc))
after_race-Ends env id resolved r here = elim (Bool-cases (has_dirty_process id r.database)) [
  | inl e ↦ inr (_, after_race-fails env id resolved r here (inr e))
  | inr e ↦ inl (after_race-cleans env id r here e)
]

-- A clean-up of an operation that is there, and that its run does not delete, ends in one of two
-- ways: it returns, the operation is marked as cleaned and no process of it is left that is not; or
-- it throws, the operation is marked as failed and admission is blocked.
pub cleanup_operation-Ends :
    (env : Environment) (id : String) (run : CleanupRun) (r : Registry)
    → has_operation id r.database ≡ true
    → ((s : Registry)
        → has_operation id s.database ≡ true
        → has_operation id (run s).1.database ≡ true)
    → Ends id (cleanup_operation env id run r)
unfolding cleanup_operation race ◌>>=◌ transaction commit cleaning_statements bump
cleanup_operation-Ends env id run r here keeps =
    let change = λ (o : OperationRow). record o {
      cleanup_state = CleanupState.cleaning;
      updated_at = env.now;
      revision = suc o.revision;
    } in
    let (ev, h) =
      logged env.now id EventName.cleanup_started change bump r.database (λ o. refl) here in
    rw (h, ◌>>=◌, commit)
      (after_race-Ends env id (run _).0 (run _).1
        (keeps _ (has-update id id change r.database.operations (λ o. refl) ∙ here)))
