-- ===== src/ReadModel/Snapshots.antt =====
-- `snapshot`, `diagnostics`, `streamDiagnostics`, `operationBelongsToRun` and `actionDiagnostics` of
-- packages/kogg-operations/src/node/operations-read-model.ts. What SQLite's own checks of the store
-- say, and how many clients are open, is given.
use Prim.Native.Nat.{◌%◌}
use kogg.Prelude.{
  ◌||◌, ℕ, ℕ-Eq, ◌+◌, String, String-Eq, Bool, true, false, not, ◌==◌, ◌&&◌, Option, none, some,
  List, [], ◌∷◌, map, filter, any, length, ltb, leb, includes, if◌then◌else◌,
}
use kogg.Text.{is_safe_id}
use kogg.ReadModel.Owners.{OwnerKind}
use kogg.ReadModel.Lifecycles.{RunLifecycle, ProjectionLifecycle}
use kogg.ReadModel.Events.{Platform}
use kogg.ReadModel.Validate.{FaultCode}
use kogg.ReadModel.Tables.{
  ConfiguredOwner, RunProjection, ProcessProjection, ActivityAggregate, RetentionHold,
  ProjectionFault, MetricValue, ReadModel,
}
use kogg.ReadModel.Actions.{ActionStatus, ActionRow}
use kogg.ReadModel.Changes.{stream_change_limit, stream_byte_limit, retained_bytes}
use kogg.ReadModel.MetricContracts.{is_safe_integer, metric_rows, metric_violation_count}
use kogg.ReadModel.RunPages.{run_id_asc, order_runs}
use kogg.ReadModel.Stream.{StreamState, Subscription, anew, resumed, not_decoded, subscribe}

pub data Freshness : Type 0 where
  current_run stale_run unknown_run : Freshness

pub record ProjectionRun : Type 0 where
  pub run_id : String
  pub task_id : Option String
  pub project_id : Option String
  pub lifecycle : RunLifecycle
  pub lifecycle_code : Option String
  pub attempt_count : ℕ
  pub retry_count : ℕ
  pub live_process_count : ℕ
  pub abnormal_process_count : ℕ
  pub check_summary : String
  pub evidence_summary : String
  pub verdict_summary : String
  pub merge_summary : String
  pub freshness : Freshness
  pub degraded_owners : List OwnerKind

-- `runFromRow`; every row is inserted as current and with no degraded owners, and keeps that.
unfoldable pub run_from_row : RunProjection → ProjectionRun
run_from_row r = record {
  run_id = r.run_id;
  task_id = r.task_id;
  project_id = r.project_id;
  lifecycle = r.lifecycle;
  lifecycle_code = r.lifecycle_code;
  attempt_count = r.attempt_count;
  retry_count = r.retry_count;
  live_process_count = r.live_process_count;
  abnormal_process_count = r.abnormal_process_count;
  check_summary = r.check_summary;
  evidence_summary = r.evidence_summary;
  verdict_summary = r.verdict_summary;
  merge_summary = r.merge_summary;
  freshness = current_run;
  degraded_owners = [];
}

-- `runs`, in the order of their identifiers.
unfoldable pub snapshot_runs : ReadModel → List ProjectionRun
snapshot_runs m = map run_from_row (order_runs run_id_asc m.derived.runs)

pub record ProjectionSnapshot : Type 0 where
  pub projection_epoch : String
  pub change_sequence : ℕ
  pub lifecycle : ProjectionLifecycle
  pub runs : List ProjectionRun
  pub fault_count : ℕ

-- `snapshot`.
unfoldable pub snapshot : ReadModel → ProjectionSnapshot
snapshot m = record {
  projection_epoch = m.projection_epoch;
  change_sequence = m.change_sequence;
  lifecycle = m.lifecycle;
  runs = snapshot_runs m;
  fault_count = length m.faults;
}

abbrev is_this : String → Option String → Bool
is_this id none = false
is_this id (some s) = s == id

-- `operationBelongsToRun`.
unfoldable pub operation_belongs_to_run : String → String → ReadModel → Bool
operation_belongs_to_run run_id operation_id m =
    if not (is_safe_id run_id) || not (is_safe_id operation_id)
    then false
    else any (λ (r : ProcessProjection). r.run_id == run_id && is_this operation_id r.operation_id)
        m.derived.processes

abbrev is_unknown : ActionStatus → Bool
is_unknown ActionStatus.unknown_action = true
is_unknown ActionStatus.forwarded_action = false
is_unknown ActionStatus.refused_action = false

-- `actionDiagnostics`.
unfoldable pub unsynchronized_outcome_count : List ActionRow → ℕ
unsynchronized_outcome_count rows = length (
    filter (λ (r : ActionRow). is_unknown r.status && r.safe_code == "ACTION_OUTCOME_UNKNOWN") rows)

abbrev is_causal : FaultCode → Bool
is_causal FaultCode.causal_parent_missing = true
is_causal _ = false

-- The times of an aggregate, where they can be read, with its count.
unfoldable pub keeps_bucket : ℕ → Option ℕ → Option ℕ → Option ℕ → Bool
keeps_bucket count (some bucket) (some first) (some last) =
    (is_safe_integer count && leb 1 count)
    && ((bucket % 60000 == 0 && (leb bucket first && ltb first (bucket + 60000)))
        && (leb first last && ltb last (bucket + 60000)))
keeps_bucket count none first last = false
keeps_bucket count (some bucket) none last = false
keeps_bucket count (some bucket) (some first) none = false

unfoldable pub is_valid_aggregate : Platform → ActivityAggregate → Bool
is_valid_aggregate p a =
    a.key.event_kind == "process.activity"
    && keeps_bucket a.event_count (p.date_parse a.key.bucket_start)
        (p.date_parse a.first_display_time) (p.date_parse a.last_display_time)

-- `activityAggregateViolationCount`.
unfoldable pub aggregate_violation_count : Platform → List ActivityAggregate → ℕ
aggregate_violation_count p rows =
    length (filter (λ (a : ActivityAggregate). not (is_valid_aggregate p a)) rows)

-- `count(DISTINCT projection_epoch)`.
unfoldable pub count_distinct : List String → ℕ
count_distinct [] = 0
count_distinct (x ∷ xs) = let rest = count_distinct xs in if includes xs x then rest else rest + 1

-- The `LEFT JOIN` of the active holds whose run is not there.
unfoldable pub is_stray_hold : List RunProjection → RetentionHold → Bool
is_stray_hold runs h = h.is_active && not (any (λ (r : RunProjection). r.run_id == h.run_id) runs)

pub record ProjectionDiagnostics : Type 0 where
  pub integrity : Bool
  pub foreign_keys : Bool
  pub lifecycle : ProjectionLifecycle
  pub owner_count : ℕ
  pub accepted_event_count : ℕ
  pub fault_count : ℕ
  pub causal_gap_count : ℕ
  pub process_abnormal_count : ℕ
  pub metric_violations : ℕ
  pub retained_metric_epoch_count : ℕ
  pub retained_activity_aggregate_count : ℕ
  pub activity_aggregate_violations : ℕ
  pub active_retention_hold_count : ℕ
  pub retention_violation_count : ℕ

-- `diagnostics`.
unfoldable pub projection_diagnostics : Platform → Bool → Bool → ReadModel → ProjectionDiagnostics
projection_diagnostics p integrity foreign_keys m = record {
  integrity = integrity;
  foreign_keys = foreign_keys;
  lifecycle = m.lifecycle;
  owner_count = length (filter (λ (o : ConfiguredOwner). o.available) m.owners);
  accepted_event_count = length m.accepted;
  fault_count = length m.faults;
  causal_gap_count = length (filter (λ (f : ProjectionFault). is_causal f.safe_code) m.faults);
  process_abnormal_count =
      length (filter (λ (r : ProcessProjection). r.abnormal) m.derived.processes);
  metric_violations = metric_violation_count (metric_rows m);
  retained_metric_epoch_count =
      count_distinct (map (λ (v : MetricValue). v.projection_epoch) m.metrics);
  retained_activity_aggregate_count = length m.derived.aggregates;
  activity_aggregate_violations = aggregate_violation_count p m.derived.aggregates;
  active_retention_hold_count =
      length (filter (λ (h : RetentionHold). h.is_active) m.derived.holds);
  retention_violation_count = length (filter (is_stray_hold m.derived.runs) m.derived.holds);
}

abbrev is_current : StreamState → Bool
is_current StreamState.current_stream = true
is_current StreamState.resync_required = false

pub record StreamDiagnostics : Type 0 where
  pub client_count : ℕ
  pub cursor_round_trip : Bool
  pub resync_recovery : Bool
  pub bounded : Bool

-- `streamDiagnostics`; a cursor that was just encoded is decoded to its sequence.
unfoldable pub stream_diagnostics : ℕ → ReadModel → StreamDiagnostics
stream_diagnostics client_count m =
    let initial : Subscription = subscribe anew m.change_sequence m.changes in
    let again : Subscription = subscribe (resumed initial.last_key) m.change_sequence m.changes in
    let recovered : Subscription = subscribe not_decoded m.change_sequence m.changes in
    record {
      client_count = client_count;
      cursor_round_trip = is_current initial.state && is_current again.state;
      resync_recovery = not (is_current recovered.state);
      bounded =
          (leb (length initial.changes) stream_change_limit
            && leb (length again.changes) stream_change_limit)
          && (leb (length m.changes) stream_change_limit
              && leb (retained_bytes m.changes) stream_byte_limit);
    }
