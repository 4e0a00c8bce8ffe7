-- ===== src/ReadModel/Scenarios.antt =====
-- One event that arrives twice at an empty store, and an action that is recorded:
-- packages/kogg-operations/src/node/operations-read-model.ts.
use kogg.Prelude.{
  ◌⊎◌, ℕ, ◌<◌, arith, List, ◌+◌, ◌≤◌, String, String-Eq, true, false, none, some, [], ◌∷◌, ◌≡◌,
  refl, All, length,
}
use kogg.Text.{
  is_safe_id, is_hex64, is_safe_code, is_safe_text, ends_with, after_first_dot, after_last_dot,
}
use kogg.ReadModel.Owners.{OwnerKind, owner_event_kinds}
use kogg.ReadModel.Lifecycles.{RunLifecycle, ProjectionLifecycle}
use kogg.ReadModel.Events.{
  SafeCorrelations, OwnerEvent, Platform, text_value, payload_text, payload_label, payload_code,
  column_text, label_text, payload_number, correlation_values,
}
use kogg.ReadModel.Validate.{
  closed_payload_keys, closed_string_values, payload_keys, is_valid_entry, is_valid_payload,
  is_valid_parent, validate_event, unless,
}
use kogg.ReadModel.Tables.{ProjectionChange, RunProjection, ReadModel, ChangeKind}
use kogg.ReadModel.Runs.{
  new_run, is_ended, on_run, insert_run, event_lifecycle, with_lifecycle, with_attempt, summarise,
  with_summary, effective_lifecycle, derive_run_lifecycle, abnormal_process_events,
  live_process_events, process_row, update_process, upsert_process, count_live, count_abnormal,
  project_process,
}
use kogg.ReadModel.Project.{
  project_event, bucket_start, activity_key, project_activity, timeline_row, project_entry,
  project_run, project_of_run,
}
use kogg.ReadModel.Changes.{
  append_change, retained_bytes, is_protected_event, drop_bytes, new_change,
}
use kogg.ReadModel.Canonical.{canonical_event, owner_event_digest}
use kogg.ReadModel.Holds.{
  hold_acquire, hold_release, acquire_hold, release_hold, project_retention_hold,
}
use kogg.ReadModel.Metrics.{
  upsert_metric, increment_metric, histogram_buckets, observe_histogram, terminal_class,
  safe_code_class, groups, run_gauges, class_gauges, process_gauges, refresh_gauges,
  duration_metric, duration_labels, observe_duration, count_terminal, project_metrics,
}
use kogg.ReadModel.Ingest.{
  zero_digest, accepted_event, duplicate_event, ingest, no_derived, rebuild_derived, find_event,
  find_cursor, judge, has_parent, persist_fault, reject, violates, cursor_of, advance_cursor,
  make_available, resolve_faults, reevaluate_lifecycle, record_event, accept, ingest_new,
  ingest_valid, ingest_checked,
}
use kogg.ReadModel.Actions.{
  ActionRequest, ActionKind, ActionStatus, ActionReceipt, ActionRow, record_action, record_over,
  update_action, action_receipt, find_action,
}
use kogg.ReadModel.Stream.{resync_required, resumed, subscribe}
use kogg.ReadModel.Streamed.{IsLost, Continues, StandsAfter, subscribe-whole}
use kogg.ReadModel.Retention.{is_held, apply_retention}
use kogg.ReadModel.Held.{Keeps, apply_retention-Keeps}
use kogg.ReadModel.RunPages.{
  RunPage, PagePosition, RunQuery, run_id_asc, has_lifecycle, is_valid_query, is_past, is_asked,
  position_of, place_run, precedes_run, order_runs, last_run, page_of, list_runs,
}
use kogg.ReadModel.Paged.{IsPageOf, list_runs-IsPageOf}
use kogg.ReadModel.MetricContracts.{metric_rows, metrics_snapshot}
use kogg.ReadModel.Metered.{metrics_snapshot-total}
use kogg.ReadModel.Chained.{IsChained, ingest-IsChained}
use kogg.ReadModel.Effects.{ingest-again}
use kogg.ReadModel.Outcomes.{Outcome, ingest-Outcome}
use kogg.ReadModel.Bounded.{append_change-bounded}
use kogg.ReadModel.Ended.{IsDerived, project_event-IsDerived}
use kogg.ReadModel.Startup.{rebuild_in_place}
use kogg.ReadModel.Rebuilt.{ingest_all, rebuild_derived-same}
use kogg.ReadModel.Receipts.{Recorded, record_action-receipt}

abbrev pub sample_digest : String
sample_digest = "aaaaaaaaaaaaaaaaaaaaaaaaaaaaaaaaaaaaaaaaaaaaaaaaaaaaaaaaaaaaaaaa"

abbrev pub platform : Platform
platform = record {
  sha256 = λ text. sample_digest;
  stringify = λ text. text;
  stringify_number = λ n. "0";
  decimal = λ n. "1";
  date_parse = λ text. some 0;
  to_iso_string = λ n. "1970-01-01T00:00:00.000Z";
  text_min = λ a b. a;
  text_max = λ a b. b;
}

abbrev correlations : SafeCorrelations
correlations = record {
  task_id = none;
  project_id = none;
  run_id = some "run";
  node_id = none;
  attempt_id = none;
  operation_id = some "operation";
  process_id = some "process";
  check_id = none;
  evidence_id = none;
  verdict_id = none;
  merge_id = none;
}

abbrev pub started : OwnerEvent
started = record {
  owner_kind = OwnerKind.operation_owner;
  owner_instance_id = "owner";
  epoch_id = "epoch";
  sequence = 1;
  event_id = "event";
  event_kind = "process.started";
  fact_id = "fact";
  fact_digest = sample_digest;
  previous_event_digest = zero_digest;
  causal_parents = [];
  correlations = correlations;
  observed_at = "1970-01-01T00:00:00.000Z";
  safe_payload = ("processKind", text_value "git") ∷ [];
  event_digest = sample_digest;
}

abbrev pub empty : ReadModel
empty = record {
  projection_epoch = "projection";
  lifecycle = ProjectionLifecycle.current_projection;
  change_sequence = 0;
  cursors = [];
  owners = [];
  accepted = [];
  edges = [];
  derived = no_derived;
  changes = [];
  faults = [];
  metrics = [];
}

empty-IsChained : IsChained empty
empty-IsChained = record { linked = tt; unique = tt; anchored = tt }

started-accepted :
    ingest platform started empty ≡ (accepted_event, (ingest platform started empty).1)
unfolding owner_event_kinds payload_text payload_label payload_code column_text label_text
    payload_number correlation_values canonical_event owner_event_digest closed_payload_keys
    closed_string_values payload_keys is_valid_entry is_valid_payload is_valid_parent validate_event
    on_run insert_run event_lifecycle with_lifecycle with_attempt summarise with_summary
    effective_lifecycle derive_run_lifecycle abnormal_process_events live_process_events process_row
    update_process upsert_process count_live count_abnormal project_process hold_acquire
    hold_release acquire_hold release_hold project_retention_hold bucket_start activity_key
    project_activity timeline_row project_entry project_run project_of_run project_event
    upsert_metric increment_metric histogram_buckets observe_histogram terminal_class
    safe_code_class groups run_gauges class_gauges process_gauges refresh_gauges duration_metric
    duration_labels observe_duration count_terminal project_metrics is_protected_event drop_bytes
    new_change append_change find_event find_cursor judge has_parent persist_fault reject violates
    cursor_of advance_cursor make_available resolve_faults reevaluate_lifecycle record_event accept
    ingest_new ingest_valid ingest_checked ingest is_safe_id is_hex64 is_safe_code is_safe_text
    ends_with after_first_dot after_last_dot unless
started-accepted = refl

started-counted :
    (length (metric_rows (ingest_all platform (started ∷ []) empty)) ≤ 4096)
    × All (λ v. v.value < 9007199254740992) (metric_rows (ingest_all platform (started ∷ []) empty))
unfolding owner_event_kinds payload_text payload_label payload_code column_text label_text
    payload_number correlation_values canonical_event owner_event_digest closed_payload_keys
    closed_string_values payload_keys is_valid_entry is_valid_payload is_valid_parent validate_event
    on_run insert_run event_lifecycle with_lifecycle with_attempt summarise with_summary
    effective_lifecycle derive_run_lifecycle abnormal_process_events live_process_events process_row
    update_process upsert_process count_live count_abnormal project_process hold_acquire
    hold_release acquire_hold release_hold project_retention_hold bucket_start activity_key
    project_activity timeline_row project_entry project_run project_of_run project_event
    upsert_metric increment_metric histogram_buckets observe_histogram terminal_class
    safe_code_class groups run_gauges class_gauges process_gauges refresh_gauges duration_metric
    duration_labels observe_duration count_terminal project_metrics is_protected_event drop_bytes
    new_change append_change find_event find_cursor judge has_parent persist_fault reject violates
    cursor_of advance_cursor make_available resolve_faults reevaluate_lifecycle record_event accept
    ingest_new ingest_valid ingest_checked ingest is_safe_id is_hex64 is_safe_code is_safe_text
    ends_with after_first_dot after_last_dot unless metric_rows
started-counted = (omega arith, omega arith)

metrics_snapshot-total_example :
    metrics_snapshot (ingest_all platform (started ∷ []) empty)
    ≡ some (
      (ingest_all platform (started ∷ []) empty).projection_epoch,
      metric_rows (ingest_all platform (started ∷ []) empty),
    )
metrics_snapshot-total_example =
    metrics_snapshot-total platform (started ∷ []) empty refl refl (refl, tt) started-counted.0
      started-counted.1

ingest-IsChained_example : IsChained (ingest platform started empty).1
ingest-IsChained_example = ingest-IsChained platform started empty empty-IsChained

ingest-Outcome_example : Outcome platform started empty (ingest platform started empty)
ingest-Outcome_example = ingest-Outcome platform started empty

ingest-again_example :
    ingest platform started (ingest platform started empty).1
    ≡ (duplicate_event, (ingest platform started empty).1)
ingest-again_example =
    ingest-again platform started empty (ingest platform started empty).1 started-accepted

append_change-bounded_example :
    (length (append_change ChangeKind.rebuild_change none true 7 []).1 ≤ 1000)
    × (retained_bytes (append_change ChangeKind.rebuild_change none true 7 []).1 ≤ 1048576)
    × ((append_change ChangeKind.rebuild_change none true 7 []).0 ≡ 7 + 1)
append_change-bounded_example = append_change-bounded ChangeKind.rebuild_change none true 7 []

abbrev history : List ProjectionChange
history =
    record {
      sequence = 4;
      kind = ChangeKind.rebuild_change;
      run_id = none;
      is_protected = true;
      approximate_bytes = 96;
    }
    ∷ record {
      sequence = 5;
      kind = ChangeKind.owner_event_change;
      run_id = some "run-1";
      is_protected = false;
      approximate_bytes = 101;
    }
    ∷ []

subscribe-whole_example :
    ((after : ℕ) × StandsAfter (resumed 4) history after
      × Continues after history (subscribe (resumed 4) 5 history))
    ⊎ (IsLost (resumed 4) history
        × (subscribe (resumed 4) 5 history
            ≡ record { state = resync_required; last_key = 5; changes = [] }))
unfolding retained_bytes
subscribe-whole_example =
    subscribe-whole (resumed 4) 5 history (omega arith, (omega arith, tt)) (omega arith)
      (omega arith) (omega arith)

project_event-IsDerived_example :
    All
      (λ (r : RunProjection).
        IsDerived r
        × (is_ended r.lifecycle ≡ true
            → (r.live_process_count ≡ 0) × (r.abnormal_process_count ≡ 0)))
      (project_event platform started no_derived).runs
project_event-IsDerived_example = project_event-IsDerived platform started no_derived tt

rebuild_derived-same_example :
    ((rebuild_derived platform "next" (ingest_all platform (started ∷ []) empty)).derived
      ≡ (ingest_all platform (started ∷ []) empty).derived)
    × ((rebuild_in_place platform (ingest_all platform (started ∷ []) empty)).derived
        ≡ (ingest_all platform (started ∷ []) empty).derived)
rebuild_derived-same_example = rebuild_derived-same platform "next" (started ∷ []) empty refl refl

-- Two runs that have ended, one of which is held as evidence.
abbrev with_hold : ReadModel
with_hold =
    let derived = record no_derived {
      runs =
          record (new_run "run" started) { lifecycle = RunLifecycle.completed_run }
          ∷ record (new_run "other" started) { lifecycle = RunLifecycle.failed_run }
          ∷ [];
      holds =
          record {
            run_id = "run";
            hold_kind = "evidence";
            owner_kind = OwnerKind.ranex_owner;
            owner_instance_id = "owner";
            fact_digest = sample_digest;
            is_active = true;
            updated_at = "2026-01-01T00:00:00.000Z";
          }
          ∷ [];
    } in
    record empty { derived = derived }

apply_retention-Keeps_example :
    Keeps "run" with_hold.derived
      (apply_retention platform
        (λ v. v.name)
        "2026-03-01T00:00:00.000Z"
        "2026-01-01T00:00:00.000Z"
        with_hold).1.derived
unfolding is_held
apply_retention-Keeps_example =
    apply_retention-Keeps platform (λ v. v.name) "2026-03-01T00:00:00.000Z"
      "2026-01-01T00:00:00.000Z" with_hold "run" refl

-- The second page of the two runs, of one run.
abbrev second_page : RunQuery
second_page = record { lifecycle = none; abnormal_only = false; sort = run_id_asc; page_size = 1 }

abbrev after_other : PagePosition
after_other = record { last_key = "other"; sort_key = "" }

abbrev last_page : RunPage
last_page = record {
  items = record (new_run "run" started) { lifecycle = RunLifecycle.completed_run } ∷ [];
  next = none;
}

second_page-listed :
    list_runs second_page (some after_other) with_hold.derived.runs ≡ some last_page
unfolding has_lifecycle is_valid_query is_past is_asked position_of place_run precedes_run
    order_runs last_run page_of list_runs
second_page-listed = refl

list_runs-IsPageOf_example :
    ((1 ≤ 1) × (1 ≤ 100)) × IsPageOf second_page (some after_other) last_page
list_runs-IsPageOf_example =
    list_runs-IsPageOf second_page (some after_other) with_hold.derived.runs last_page
      second_page-listed

abbrev request : ActionRequest
request = record {
  request_id = "request";
  action = ActionKind.cancel_action;
  run_id = "run";
  operation_id = some "operation";
  expected_projection_sequence = "1";
}

abbrev row : ActionRow
row = record {
  request = request;
  request_digest = "digest";
  status = ActionStatus.unknown_action;
  safe_code = "ACTION_FORWARDING";
}

abbrev later_row : ActionRow
later_row = record row { status = ActionStatus.forwarded_action; safe_code = "ACTION_OK" }

abbrev receipt : ActionReceipt
receipt = record {
  request_id = "request";
  action = ActionKind.cancel_action;
  run_id = "run";
  status = ActionStatus.forwarded_action;
  safe_code = "ACTION_OK";
}

recorded :
    record_action request "digest" ActionStatus.forwarded_action "ACTION_OK" (row ∷ [])
    ≡ some (receipt, later_row ∷ [])
unfolding record_action record_over find_action update_action
recorded = refl

record_action-receipt_example :
    Recorded request "digest" ActionStatus.forwarded_action "ACTION_OK"
      (row ∷ [])
      (receipt, later_row ∷ [])
    × (action_receipt "other" (later_row ∷ []) ≡ action_receipt "other" (row ∷ []))
record_action-receipt_example =
    record_action-receipt request "digest" ActionStatus.forwarded_action "ACTION_OK" (row ∷ [])
      (later_row ∷ []) receipt "other" recorded refl
