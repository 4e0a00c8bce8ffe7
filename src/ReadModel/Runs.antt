-- ===== src/ReadModel/Runs.antt =====
-- The projections of runs and processes that `projectEvent` of
-- packages/kogg-operations/src/node/operations-read-model.ts makes.
use Prim.Native.String.{len, slice}
use kogg.Prelude.{
  ℕ, suc, ◌+◌, String, String-Eq, ℕ-Eq, Bool, ◌&&◌, ◌||◌, Option, none, some, List, [], ◌∷◌, ◌++◌,
  ◌==◌, includes, any, map, filter, length, ltb, if◌then◌else◌,
}
use kogg.Text.{after_first_dot}
use kogg.ReadModel.Owners.{OwnerKind, OwnerKind-Eq}
use kogg.ReadModel.Lifecycles.{RunLifecycle, RunLifecycle-Eq}
use kogg.ReadModel.Events.{OwnerEvent, payload_text, payload_number}
use kogg.ReadModel.Tables.{RunProjection, ProcessProjection, Derived}

-- `value ?? fallback`.
abbrev pub otherwise {ℓ} : {A : Type ℓ} → A → Option A → A
otherwise d none = d
otherwise d (some a) = a

-- `COALESCE(value, column)`.
abbrev pub coalesce {ℓ} : {A : Type ℓ} → Option A → Option A → Option A
coalesce none b = b
coalesce (some a) b = some a

-- `UPDATE run_projection ... WHERE run_id=?`.
unfoldable pub on_run :
    String → (RunProjection → RunProjection) → List RunProjection → List RunProjection
on_run id change runs = map (λ (r : RunProjection). if r.run_id == id then change r else r) runs

abbrev pub new_run : String → OwnerEvent → RunProjection
new_run id e = record {
  run_id = id;
  task_id = e.correlations.task_id;
  project_id = e.correlations.project_id;
  lifecycle = RunLifecycle.unknown_run;
  owner_lifecycle = RunLifecycle.unknown_run;
  lifecycle_code = none;
  attempt_count = 0;
  retry_count = 0;
  live_process_count = 0;
  abnormal_process_count = 0;
  check_summary = "unknown";
  evidence_summary = "unknown";
  verdict_summary = "unknown";
  merge_summary = "unknown";
}

-- `INSERT OR IGNORE INTO run_projection`.
unfoldable pub insert_run : String → OwnerEvent → List RunProjection → List RunProjection
insert_run id e runs =
    if any (λ (r : RunProjection). r.run_id == id) runs then runs else runs ++ new_run id e ∷ []

-- The lifecycle that an event gives its run, `TERMINAL_RUN_EVENTS` included.
abbrev lifecycle_table : List (String × RunLifecycle)
lifecycle_table =
    ("run.queued", RunLifecycle.queued_run)
    ∷ ("run.started", RunLifecycle.active_run)
    ∷ ("diagnostic.started", RunLifecycle.active_run)
    ∷ ("diagnostic.passed", RunLifecycle.completed_run)
    ∷ ("diagnostic.failed", RunLifecycle.failed_run)
    ∷ ("run.waiting", RunLifecycle.waiting_run)
    ∷ ("run.retrying", RunLifecycle.retrying_run)
    ∷ ("run.blocked", RunLifecycle.blocked_run)
    ∷ ("run.cancelling", RunLifecycle.cancelling_run)
    ∷ ("run.cleaning", RunLifecycle.cleaning_run)
    ∷ ("run.failed", RunLifecycle.failed_run)
    ∷ ("run.cancelled", RunLifecycle.failed_run)
    ∷ ("run.recovered", RunLifecycle.recovered_run)
    ∷ ("run.completed", RunLifecycle.completed_run)
    ∷ []

abbrev pub look_up {ℓ} : {A : Type ℓ} → String → List (String × A) → Option A
look_up key [] = none
look_up key ((k, a) ∷ table) = let later = look_up key table in if k == key then some a else later

unfoldable pub event_lifecycle : String → Option RunLifecycle
event_lifecycle kind = look_up kind lifecycle_table

unfoldable pub with_lifecycle : OwnerEvent → Option RunLifecycle → RunProjection → RunProjection
with_lifecycle e none r = r
with_lifecycle e (some l) r = record r {
  lifecycle = l;
  owner_lifecycle = l;
  lifecycle_code = payload_text "safeCode" e.safe_payload;
  task_id = coalesce e.correlations.task_id r.task_id;
  project_id = coalesce e.correlations.project_id r.project_id;
}

unfoldable pub with_attempt : OwnerEvent → RunProjection → RunProjection
with_attempt e r =
    if e.event_kind == "attempt.requested"
    then record r {
      attempt_count = suc r.attempt_count;
      retry_count =
          r.retry_count
          + (if ltb 0 (otherwise 0 (payload_number "retryOrdinal" e.safe_payload)) then 1 else 0);
    }
    else r

-- The summary that an owner of this kind writes.
unfoldable pub summarise : OwnerKind → String → RunProjection → RunProjection
summarise OwnerKind.check_owner text r = record r { check_summary = text }
summarise OwnerKind.ranex_owner text r = record r { evidence_summary = text }
summarise OwnerKind.verdict_owner text r = record r { verdict_summary = text }
summarise OwnerKind.merge_owner text r = record r { merge_summary = text }
summarise _ text r = r

unfoldable pub with_summary : OwnerEvent → RunProjection → RunProjection
with_summary e r = summarise e.owner_kind (after_first_dot e.event_kind) r

-- `deriveRunLifecycle`: a run that its owner ended is still cleaning while it has a live or an abnormal
-- process.
abbrev pub is_ended : RunLifecycle → Bool
is_ended l =
    l == RunLifecycle.failed_run
    || (l == RunLifecycle.recovered_run || l == RunLifecycle.completed_run)

unfoldable pub effective_lifecycle : RunProjection → RunLifecycle
effective_lifecycle r =
    if is_ended r.owner_lifecycle && (ltb 0 r.live_process_count || ltb 0 r.abnormal_process_count)
    then RunLifecycle.cleaning_run
    else r.owner_lifecycle

unfoldable pub derive_run_lifecycle : RunProjection → RunProjection
derive_run_lifecycle r = record r { lifecycle = effective_lifecycle r }

unfoldable pub abnormal_process_events : List String
abnormal_process_events =
    "process.spawn-failed" ∷ "process.timed-out" ∷ "process.residual" ∷ "process.lost"
    ∷ "process.quarantined" ∷ "process.inventory-unknown" ∷ []

unfoldable pub live_process_events : List String
live_process_events =
    "process.reserved" ∷ "process.spawning" ∷ "process.started" ∷ "process.ready"
    ∷ "process.activity" ∷ "process.cancelling" ∷ "process.cleaning" ∷ []

-- The row that an event writes of its process.
unfoldable pub process_row : String → String → OwnerEvent → ProcessProjection
process_row process_id run_id e = record {
  process_id = process_id;
  run_id = run_id;
  operation_id = e.correlations.operation_id;
  attempt_id = e.correlations.attempt_id;
  process_kind = otherwise "governed-command" (payload_text "processKind" e.safe_payload);
  state = slice e.event_kind 8 (len e.event_kind);
  cleanup_state =
      otherwise (if e.event_kind == "process.cleaned" then "cleaned" else "required")
        (payload_text "cleanupState" e.safe_payload);
  abnormal = includes abnormal_process_events e.event_kind || e.event_kind == "process.exited";
  live = includes live_process_events e.event_kind;
  safe_code = payload_text "safeCode" e.safe_payload;
}

-- `ON CONFLICT(process_id) DO UPDATE`.
unfoldable pub update_process : ProcessProjection → ProcessProjection → ProcessProjection
update_process new old = record old {
  state = new.state;
  cleanup_state = new.cleanup_state;
  abnormal = new.abnormal;
  live = new.live;
  safe_code = new.safe_code;
}

unfoldable pub upsert_process : ProcessProjection → List ProcessProjection → List ProcessProjection
upsert_process new [] = new ∷ []
upsert_process new (old ∷ ps) =
    let later = upsert_process new ps in
    if old.process_id == new.process_id then update_process new old ∷ ps else old ∷ later

unfoldable pub count_live : String → List ProcessProjection → ℕ
count_live id ps = length (filter (λ (p : ProcessProjection). p.run_id == id && p.live) ps)

unfoldable pub count_abnormal : String → List ProcessProjection → ℕ
count_abnormal id ps = length (filter (λ (p : ProcessProjection). p.run_id == id && p.abnormal) ps)

-- `projectProcess`.
unfoldable pub project_process : String → OwnerEvent → Option String → Derived → Derived
project_process run_id e none d = d
project_process run_id e (some process_id) d =
    if e.owner_kind == OwnerKind.operation_owner
    then (let processes = upsert_process (process_row process_id run_id e) d.processes in
        record d {
          processes = processes;
          runs =
              on_run run_id
                (λ (r : RunProjection). derive_run_lifecycle (record r {
                  live_process_count = count_live run_id processes;
                  abnormal_process_count = count_abnormal run_id processes;
                }))
                d.runs;
        })
    else d
