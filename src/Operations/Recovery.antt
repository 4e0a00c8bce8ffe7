-- ===== src/Operations/Recovery.antt =====
-- `recover`, which reconciles the tables of an earlier run when the registry starts:
-- packages/kogg-operations/src/node/operation-registry.ts. What the host shows of a pid is given.
use kogg.Prelude.{
  ℕ, zero, suc, String, String-Eq, Bool, true, false, not, ◌&&◌, ◌||◌, Option, none, some, List, [],
  ◌∷◌, ◌++◌, ◌==◌, any, filter, find?, includes, if◌then◌else◌,
}
use kogg.Operations.States.{
  OperationState, CleanupState, CleanupState-Eq, ProcessState, ProcessState-Eq,
}
use kogg.Operations.Codes.{OperationSafeCode, Admission, ExitClass}
use kogg.Operations.Transitions.{is_terminal}
use kogg.Operations.Prune.{ids, prune}
use kogg.Operations.Database.{
  EventName, OperationRow, ProcessRow, Database, Meta, Result, success, ◌>>=◌, on_operation,
  append_event,
}

-- `isAlive`, `fingerprintFor`, and whether `terminate` returns.
pub record Host : Type 0 where
  pub is_alive : ℕ → Bool
  pub fingerprint_for : ℕ → Option String
  pub terminates : ℕ → Bool

-- Operations that are not settled, or whose clean-up is not done.
unfoldable pub is_incomplete : OperationRow → Bool
is_incomplete o =
    not (is_terminal o.state)
    || includes (CleanupState.required ∷ CleanupState.cleaning ∷ CleanupState.failed ∷ [])
        o.cleanup_state

-- `UPDATE processes SET … WHERE id=?`.
unfoldable pub update_process_rows :
    String → (ProcessRow → ProcessRow) → List ProcessRow → List ProcessRow
update_process_rows id change [] = []
update_process_rows id change (p ∷ ps) =
    (if p.id == id then change p else p) ∷ update_process_rows id change ps

-- The first loop.
unfoldable pub mark_recovering : ℕ → List String → Database → Result Database
mark_recovering now [] db = success db
mark_recovering now (id ∷ ids) db =
    append_event now id none EventName.recovery_started (
      on_operation id
        (λ o. record o {
          state = OperationState.recovery_required;
          updated_at = now;
          revision = suc o.revision;
        })
        db)
    >>= λ db'. mark_recovering now ids (
        on_operation id
          (λ o. record o {
            state = OperationState.recovering;
            updated_at = now;
            revision = suc o.revision;
          })
          db')

-- The processes that the second loop looks at.
unfoldable pub is_recoverable : ProcessRow → Bool
is_recoverable p =
    not (p.cleanup_state == CleanupState.cleaned)
    && includes
        (ProcessState.started ∷ ProcessState.ready ∷ ProcessState.spawning ∷ ProcessState.registered
          ∷ [])
        p.state

-- What becomes of one process: its owner's identity is doubtful, it outlived its termination, or it
-- is gone.
pub data Verdict : Type 0 where
  unverified residual gone : Verdict

same_fingerprint : Option String → Option String → Bool
same_fingerprint none stored = false
same_fingerprint (some current) none = current == ""
same_fingerprint (some current) (some stored) = current == stored

-- `current` is empty or absent, or differs from the stored fingerprint.
is_verified : Option String → Option String → Bool
unfolding same_fingerprint
is_verified none stored = false
is_verified (some current) stored = not (current == "") && same_fingerprint (some current) stored

judge_pid : Host → ℕ → Option String → Verdict
unfolding is_verified
judge_pid host zero stored = gone
judge_pid host (suc n) stored =
    if host.is_alive (suc n)
    then (if is_verified (host.fingerprint_for (suc n)) stored
        then (if host.terminates (suc n) then gone else residual)
        else unverified)
    else gone

unfoldable pub judge : Host → ProcessRow → Verdict
unfolding judge_pid
judge host p = elim p.pid [ none ↦ gone | some pid ↦ judge_pid host pid p.identity_fingerprint ]

leave_residual : OperationSafeCode → ProcessRow → ProcessRow
leave_residual code p = record p {
  state = ProcessState.possible_residual;
  cleanup_state = CleanupState.failed;
  safe_code = some code;
}

-- The update that a verdict leads to.
unfoldable pub settle_process : Verdict → ProcessRow → ProcessRow
unfolding leave_residual
settle_process unverified p = leave_residual OperationSafeCode.process_identity_unverified p
settle_process residual p = leave_residual OperationSafeCode.process_residual p
settle_process gone p = record p {
  state = ProcessState.exited;
  cleanup_state = CleanupState.cleaned;
  exit_class = some ExitClass.recovered;
}

unfoldable pub settle_event : ℕ → Verdict → ProcessRow → Database → Result Database
settle_event now unverified p db = success db
settle_event now residual p db = success db
settle_event now gone p db =
    append_event now p.operation_id (some p.id) EventName.recovery_completed db

-- The operations that a verdict blocks.
unfoldable pub blocks : Verdict → ProcessRow → List String → List String
blocks unverified p blocked = p.operation_id ∷ blocked
blocks residual p blocked = p.operation_id ∷ blocked
blocks gone p blocked = blocked

-- The second loop; the result carries `blockedOperations`.
unfoldable pub recover_processes :
    Host → ℕ → List ProcessRow → List String × Database → Result (List String × Database)
unfolding settle_event blocks
recover_processes host now [] s = success s
recover_processes host now (p ∷ ps) (blocked, db) =
    append_event now p.operation_id (some p.id) EventName.recovery_process_observed db >>= λ db'.
    settle_event now (judge host p) p (record db' {
      processes = update_process_rows p.id (settle_process (judge host p)) db'.processes;
    })
    >>= λ db''. recover_processes host now ps (blocks (judge host p) p blocked, db'')

-- A process that could not be cleaned.
unfoldable pub is_unresolved_process_of : String → ProcessRow → Bool
is_unresolved_process_of id p =
    if p.operation_id == id
    then p.cleanup_state == CleanupState.failed || p.state == ProcessState.possible_residual
    else false

abbrev has_process : String → List ProcessRow → Bool
has_process id ps = any (λ (p : ProcessRow). p.operation_id == id) ps

-- The `WHERE` clause of `unresolved`.
unfoldable pub is_unresolved : List ProcessRow → OperationRow → Bool
is_unresolved processes o =
    (o.cleanup_state == CleanupState.failed && not (has_process o.id processes))
    || any (is_unresolved_process_of o.id) processes

-- `COALESCE((SELECT safe_code FROM processes WHERE … LIMIT 1),'RECOVERY_FAILED')`.
unfoldable pub failed_code : String → List ProcessRow → OperationSafeCode
failed_code id processes =
    elim (find?
      (λ (p : ProcessRow).
        if p.operation_id == id then p.cleanup_state == CleanupState.failed else false)
      processes) [
        | none ↦ OperationSafeCode.recovery_failed
        | some p ↦ elim p.safe_code [ none ↦ OperationSafeCode.recovery_failed | some c ↦ c ]
      ]

-- The update of the last loop, which depends on whether the operation is blocked.
unfoldable pub conclude : Bool → OperationSafeCode → OperationRow → OperationRow
conclude true code o = record o {
  state = OperationState.failed;
  cleanup_state = CleanupState.failed;
  safe_code = some code;
}
conclude false code o = record o {
  state = OperationState.recovered;
  cleanup_state = CleanupState.cleaned;
  safe_code = some OperationSafeCode.operations_ok;
}

-- The last loop.
unfoldable pub conclude_operations : ℕ → List String → List String → Database → Result Database
conclude_operations now blocked [] db = success db
conclude_operations now blocked (id ∷ ids) db =
    append_event now id none
      (if includes blocked id then EventName.recovery_failed else EventName.recovery_completed)
      (on_operation id (conclude (includes blocked id) (failed_code id db.processes)) db)
    >>= λ db'. conclude_operations now blocked ids db'

unfoldable pub begin_recovery : String → Database → Database
begin_recovery instance_id db = record db {
  meta = record m {
    admission = Admission.recovering;
    instance_id = instance_id;
    revision = suc m.revision;
  };
}
  where
    m : Meta
    m = db.meta

unfoldable pub end_recovery : Admission → Database → Database
end_recovery admission db = record db {
  meta = record m { admission = admission; revision = suc m.revision };
}
  where
    m : Meta
    m = db.meta

-- `blocked`: some operation is in the set.
unfoldable pub admission_after : List String → Admission
admission_after [] = Admission.enabled
admission_after (id ∷ ids) = Admission.blocked

unfoldable pub conclude_recovery : ℕ → List String → List String × Database → Result Database
unfolding end_recovery
conclude_recovery now incomplete (blocked, db) =
    let all_blocked = ids (filter (is_unresolved db.processes) db.operations) ++ blocked in
    conclude_operations now all_blocked incomplete db >>= λ db'.
    success (prune (end_recovery (admission_after all_blocked) db'))

unfoldable pub recover : Host → ℕ → String → Database → Result Database
unfolding begin_recovery conclude_recovery
recover host now instance_id db =
    let begun = begin_recovery instance_id db in
    let incomplete = ids (filter is_incomplete begun.operations) in
    mark_recovering now incomplete begun >>= λ marked.
    recover_processes host now (filter is_recoverable marked.processes) ([], marked) >>= λ s.
    conclude_recovery now incomplete s
