-- ===== src/Operations/Attested.antt =====
-- What an attestation stands for: packages/kogg-operations/src/node/operation-registry.ts.
use kogg.Prelude.{
  some-injective, String, String-Eq, Bool, true, false, ◌&&◌, Option, none, some, List, [], ◌∷◌,
  ◌≡◌, refl, ◌==◌, find?, includes, arith,
}
use kogg.Text.{is_uuid, is_digest}
use kogg.Operations.States.{
  OperationState, OperationState-Eq, CleanupState, CleanupState-Eq, ProcessState, ProcessState-Eq,
}
use kogg.Operations.Requests.{valid_execution_authority, is_check_kind}
use kogg.Operations.Transitions.{is_terminal}
use kogg.Operations.Database.{OperationRow, ProcessRow, EventRow, Database, find_operation}
use kogg.Operations.Attestation.{
  ProcessExecutionAttestation, guard_some, ◌>>=◌, attest, is_attestable, is_exit_class,
  process_execution_attestation, first_at, last_at, is_started, is_exit, is_cleanup_completed,
}

both : (a b : Bool) → (a && b) ≡ true → (a ≡ true) × (b ≡ true)
both true b h = (refl, h)
both false b h = cc

guard_some-eq {ℓ} :
    {A : Type ℓ} {x : A} (b : Bool) (m : Option A)
    → guard_some b m ≡ some x
    → (b ≡ true) × (m ≡ some x)
guard_some-eq true m h = (refl, h)
guard_some-eq false m h = cc

>>=-eq-some {ℓ κ} :
    {A : Type ℓ} {B : Type κ} {b : B} (m : Option A) (f : A → Option B)
    → (m >>= f) ≡ some b
    → (a : A) × (m ≡ some a) × (f a ≡ some b)
>>=-eq-some none f h = cc
>>=-eq-some (some a) f h = (a, refl, h)

-- What the rows hold that an attestation is made from.
pub record IsAttested (p : ProcessRow) (o : OperationRow) (a : ProcessExecutionAttestation)
    : Type 0 where
  pub names_rows : (a.process_registration_id ≡ p.id) × (a.operation_id ≡ p.operation_id)
  pub settled : (is_terminal o.state ≡ true) × (a.operation_state ≡ o.state)
  pub over : includes (ProcessState.exited ∷ ProcessState.signalled ∷ []) p.state ≡ true
  pub cleaned : (p.cleanup_state ≡ CleanupState.cleaned) × (o.cleanup_state ≡ CleanupState.cleaned)
  pub check : is_check_kind p.kind ≡ true
  pub exit : (p.exit_class ≡ some a.exit_class) × (is_exit_class a.exit_class ≡ true)
  pub authority :
      (p.execution_authority ≡ some a.authority) × (valid_execution_authority a.authority ≡ true)
  pub digest :
      (p.result_artifact_digest ≡ some a.result_artifact_digest)
      × (is_digest a.result_artifact_digest ≡ true)

settled_is_terminal :
    (s : OperationState)
    → includes
        (OperationState.completed ∷ OperationState.failed ∷ OperationState.timed_out
          ∷ OperationState.cancelled ∷ [])
        s
      ≡ true
    → is_terminal s ≡ true
unfolding is_terminal
settled_is_terminal s h = ground arith

attestable_rows :
    (p : ProcessRow) (o : OperationRow)
    → is_attestable p o ≡ true
    → (is_terminal o.state ≡ true)
      × (includes (ProcessState.exited ∷ ProcessState.signalled ∷ []) p.state ≡ true)
      × (p.cleanup_state ≡ CleanupState.cleaned)
      × (o.cleanup_state ≡ CleanupState.cleaned)
      × (is_check_kind p.kind ≡ true)
unfolding is_attestable
attestable_rows p o h =
    let (kind, h1) = both _ _ h in
    let (same, h2) = both _ _ h1 in
    let (settled, h3) = both _ _ h2 in
    let (over, h4) = both _ _ h3 in
    let (clean, clean') = both _ _ h4 in
    (
      settled_is_terminal o.state settled,
      over,
      (CleanupState-Eq.beq_iff p.cleanup_state CleanupState.cleaned).0 clean,
      (CleanupState-Eq.beq_iff o.cleanup_state CleanupState.cleaned).0 clean',
      kind,
    )

attest-IsAttested :
    (p : ProcessRow) (o : OperationRow) (events : List EventRow) (a : ProcessExecutionAttestation)
    → attest p o events ≡ some a
    → IsAttested p o a
unfolding attest
attest-IsAttested p o events a h =
    let (rows, h1) = guard_some-eq (is_attestable p o) _ h in
    let (class, c, h2) = >>=-eq-some p.exit_class _ h1 in
    let (started, s, h3) = >>=-eq-some (first_at is_started p.id events) _ h2 in
    let (ended, e, h4) = >>=-eq-some (last_at is_exit p.id events) _ h3 in
    let (cleaned_at, l, h5) = >>=-eq-some (last_at is_cleanup_completed p.id events) _ h4 in
    let (authority, y, h6) = >>=-eq-some p.execution_authority _ h5 in
    let (digest, d, h7) = >>=-eq-some p.result_artifact_digest _ h6 in
    let (valid, same) =
      guard_some-eq
        (is_exit_class class && (is_digest digest && valid_execution_authority authority)) _ h7 in
    let e = some-injective same in
    let (over, exited, clean, clean', kind) = attestable_rows p o rows in
    let (exits, h8) = both _ _ valid in
    let (digests, authorised) = both _ _ h8 in
    rw (← e) (record {
      names_rows = (refl, refl);
      settled = (over, refl);
      over = exited;
      cleaned = (clean, clean');
      check = kind;
      exit = (c, exits);
      authority = (y, authorised);
      digest = (d, digests);
    })

-- An attestation that is issued names a process and its operation that are there: the operation is
-- settled in the state that the attestation gives, the process has ended, both are cleaned, and the
-- exit class, the authority and the result's digest are those of the process row, and are valid.
pub attestation-IsAttested :
    (id : String) (db : Database) (a : ProcessExecutionAttestation)
    → process_execution_attestation id db ≡ some a
    → (p : ProcessRow) × (o : OperationRow) × (find? (λ (x : ProcessRow). x.id == id) db.processes
        ≡ some p)
      × (find_operation p.operation_id db ≡ some o)
      × IsAttested p o a
unfolding process_execution_attestation
attestation-IsAttested id db a h =
    let (uuid, h1) = guard_some-eq (is_uuid id) _ h in
    let (p, found, h2) = >>=-eq-some (find? (λ (x : ProcessRow). x.id == id) db.processes) _ h1 in
    let (o, parent, h3) = >>=-eq-some (find_operation p.operation_id db) _ h2 in
    (p, o, found, parent, attest-IsAttested p o db.events a h3)
