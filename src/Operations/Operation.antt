-- ===== src/Operations/Operation.antt =====
-- `startOperation`, `transitionOperation` and the activity counters of
-- packages/kogg-operations/src/node/operation-registry.ts.
use kogg.Prelude.{
  ◌||◌, ℕ, suc, ◌+◌, ◌-◌, String, String-Eq, ℕ-Eq, Bool, true, false, not, ◌&&◌, Option, none, some,
  List, [], ◌∷◌, ◌==◌, ltb, includes, if◌then◌else◌,
}
use kogg.Text.{is_uuid}
use kogg.Operations.States.{OperationState, OperationState-Eq, CleanupState}
use kogg.Operations.Kinds.{OperationKind, OperationKind-Eq}
use kogg.Operations.Codes.{OperationSafeCode, Admission, Admission-Eq}
use kogg.Operations.Transitions.{is_terminal, may_become}
use kogg.Operations.Requests.{OperationCorrelations, StartOperation, validate_start_operation}
use kogg.Operations.Database
use kogg.Operations.Database.{
  EventName, RegistryError, OperationRow, Database, Result, success, failure, find_operation,
  on_operation, insert_operation, append_event, bump,
}
use kogg.Operations.Prune.{prune}
use kogg.Operations.Registry.{
  Environment, Activity, OperationLease, ok, thrown, M, ◌>>=◌, ◌>>◌, throw, return, guard,
  transaction, get_activity, set_activity, delete_activity, update_leases,
}

-- `operationRow`.
unfoldable pub operation_row : String → M OperationRow
operation_row id r = elim (find_operation id r.database) [
  | none ↦ thrown RegistryError.operation_missing r
  | some row ↦ ok row r
]

-- The statements of `persistActivity`.
unfoldable pub activity_statements : ℕ → String → ℕ → Option String → Database → Result Database
activity_statements now id count process_id db =
    Database.◌>>=◌
      (append_event now id process_id EventName.process_activity (
        on_operation id
          (λ o. record o {
            activity_count = o.activity_count + count;
            last_activity_at = some now;
            updated_at = now;
            revision = suc o.revision;
          })
          db))
      (λ db'. success (bump db'))

abbrev pub keep_activity : String → Activity → M (Unit {0})
keep_activity id a r = ok tt (record r { activity_state = set_activity id a r.activity_state })

-- `activity`: the call is counted at once, and written to the table if none was written yet, a
-- second has passed since, or a hundred calls wait.
unfoldable pub is_throttled : ℕ → ℕ → ℕ → Bool
is_throttled now last_persisted pending =
    not (last_persisted == 0) && (ltb (now - last_persisted) 1000 && ltb pending 100)

unfoldable pub activity : Environment → String → Option String → M (Unit {0})
activity env id process_id r =
    let a = get_activity id r.activity_state in
    let pending = suc a.pending in
    let counted = record r {
      activity_state =
          set_activity id (record { last_persisted = a.last_persisted; pending = pending })
            r.activity_state;
    } in
    if is_throttled env.now a.last_persisted pending
    then ok tt counted
    else (do
      transaction (activity_statements env.now id pending process_id)
      keep_activity id (record { last_persisted = env.now; pending = 0 }))
        counted

-- `flushActivity`.
unfoldable pub flush_activity : Environment → String → M (Unit {0})
flush_activity env id r =
    let a = get_activity id r.activity_state in
    if a.pending == 0
    then ok tt r
    else (do
      transaction (activity_statements env.now id a.pending none)
      keep_activity id (record { last_persisted = env.now; pending = 0 }))
        r

-- The statements of `transitionOperation`.
unfoldable pub transition_statements :
    ℕ
    → String
    → OperationState
    → EventName
    → Option OperationSafeCode
    → Option String
    → Database
    → Result Database
transition_statements now id state event_name safe_code error db =
    Database.◌>>=◌
      (append_event now id none event_name (
        on_operation id
          (λ o. record o {
            state = state;
            safe_code = safe_code;
            error_type = error;
            updated_at = now;
            revision = suc o.revision;
          })
          db))
      (λ db'. success (bump (if is_terminal state then prune db' else db')))

-- `leases.delete(id)` and `activityState.delete(id)`, at the end of a terminal transition.
unfoldable pub forget : Bool → String → M (Unit {0})
forget false id r = ok tt r
forget true id r = ok tt (record r {
  leases = update_leases id (λ l. record l { registered = false }) r.leases;
  activity_state = delete_activity id r.activity_state;
})

-- What `transitionOperation` does once it has read the current state.
unfoldable pub advance :
    Environment
    → String
    → OperationState
    → OperationState
    → EventName
    → Option OperationSafeCode
    → Option String
    → M (Unit {0})
advance env id current state event_name safe_code error =
    if is_terminal current
    then (if current == state then return tt else throw RegistryError.terminal_conflict)
    else if may_become current state
    then (do
      transaction (transition_statements env.now id state event_name safe_code error)
      forget (is_terminal state) id)
    else throw RegistryError.transition_invalid

unfoldable pub transition_operation :
    Environment
    → String
    → OperationState
    → EventName
    → Option OperationSafeCode
    → Option String
    → M (Unit {0})
transition_operation env id state event_name safe_code error = do
  if is_terminal state then flush_activity env id else return tt
  current ← operation_row id
  advance env id current.state state event_name safe_code error

-- The kinds of operation that are let in at any time.
unfoldable pub is_lifecycle_kind : OperationKind → Bool
is_lifecycle_kind kind =
    includes
      (OperationKind.application_start ∷ OperationKind.application_stop ∷ OperationKind.recovery
        ∷ OperationKind.diagnostics ∷ [])
      kind

abbrev pub no_correlations : OperationCorrelations
no_correlations = record {
  project_id = none;
  task_id = none;
  run_id = none;
  attempt_id = none;
  session_id = none;
  worktree_id = none;
}

-- The row that `startOperation` inserts.
unfoldable pub requested_row : Environment → String → String → StartOperation → OperationRow
requested_row env id instance_id request = record {
  id = id;
  kind = request.kind;
  state = OperationState.requested;
  cleanup_state = CleanupState.not_required;
  safe_code = none;
  correlations = elim request.correlations [ none ↦ no_correlations | some c ↦ c ];
  owner_instance_id = instance_id;
  requested_at = env.now;
  updated_at = env.now;
  last_activity_at = none;
  activity_count = 0;
  error_type = none;
  revision = 1;
}

-- The statements of `startOperation`.
unfoldable pub start_statements : ℕ → OperationRow → Database → Result Database
start_statements now row db = Database.◌>>=◌ (insert_operation row db) (λ db'.
    Database.◌>>=◌ (append_event now row.id none EventName.operation_requested db')
      (λ db''. success (bump db'')))

-- `leases.set(id, lease)`: a lease object that the map holds under the identifier is replaced.
unfoldable pub put_lease : OperationLease → List OperationLease → List OperationLease
put_lease l [] = l ∷ []
put_lease l (x ∷ xs) = if x.id == l.id then l ∷ xs else x ∷ put_lease l xs

-- The lease object of a request.
unfoldable pub requested_lease : String → StartOperation → OperationLease
requested_lease id request = record {
  id = id;
  cancellable = elim request.cancellable [ none ↦ true | some b ↦ b ];
  absolute = request.absolute_timeout_ms;
  idle = request.idle_timeout_ms;
  processes = [];
  registered = true;
  absolute_armed = false;
  idle_armed = false;
}

-- Admission is open, or the operation is one of the application's own.
unfoldable pub is_admitted : Admission → OperationKind → Bool
is_admitted admission kind = admission == Admission.enabled || is_lifecycle_kind kind

unfoldable pub requested_id : Environment → StartOperation → String
requested_id env request = elim request.id [ none ↦ env.random_uuid | some given ↦ given ]

unfoldable pub check_admission : OperationKind → M (Unit {0})
check_admission kind r =
    guard (is_admitted r.database.meta.admission kind) RegistryError.admission_refused r

unfoldable pub insert_requested : Environment → String → StartOperation → M (Unit {0})
insert_requested env id request r =
    transaction (start_statements env.now (requested_row env id r.instance_id request)) r

unfoldable pub keep_lease : OperationLease → M (Unit {0})
keep_lease lease r = ok tt (record r { leases = put_lease lease r.leases })

unfoldable pub start_operation : Environment → StartOperation → M String
start_operation env request = do
  guard (validate_start_operation request) RegistryError.operation_request_invalid
  guard (is_uuid (requested_id env request)) RegistryError.operation_id_invalid
  check_admission request.kind
  insert_requested env (requested_id env request) request
  keep_lease (requested_lease (requested_id env request) request)
  return (requested_id env request)
