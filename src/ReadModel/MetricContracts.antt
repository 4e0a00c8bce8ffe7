-- ===== src/ReadModel/MetricContracts.antt =====
-- The contracts of the metrics: `METRIC_LABEL_VALUES`, `METRIC_CONTRACTS`, `metricViolationCount` and
-- `metrics` of packages/kogg-operations/src/node/operations-read-model.ts.
use kogg.Prelude.{
  ℕ, ◌+◌, ◌-◌, String, String-Eq, ℕ-Eq, Bool, true, false, ◌&&◌, Option, none, some, List, [], ◌∷◌,
  ◌==◌, map, filter, length, includes, all, ltb, if◌then◌else◌,
}
use kogg.ReadModel.Tables.{MetricKind, MetricValue, ReadModel}
use kogg.ReadModel.Metrics.{histogram_buckets}

-- `OWNER_KINDS`.
unfoldable pub owner_kinds : List String
owner_kinds =
    "task" ∷ "workflow" ∷ "adapter" ∷ "execution" ∷ "operation" ∷ "project" ∷ "check" ∷ "ranex"
    ∷ "verdict" ∷ "merge" ∷ "diagnostic" ∷ []

-- `RUN_LIFECYCLES`.
unfoldable pub run_lifecycles : List String
run_lifecycles =
    "queued" ∷ "active" ∷ "waiting" ∷ "retrying" ∷ "blocked" ∷ "failed" ∷ "cancelling" ∷ "cleaning"
    ∷ "recovered" ∷ "completed" ∷ "unknown" ∷ []

unfoldable pub terminal_classes : List String
terminal_classes =
    "completed" ∷ "failed" ∷ "cancelled" ∷ "recovered" ∷ "passed" ∷ "refused" ∷ "committed"
    ∷ "quarantined" ∷ []

unfoldable pub safe_code_classes : List String
safe_code_classes = "none" ∷ "timeout" ∷ "authority" ∷ "process" ∷ "integrity" ∷ "other" ∷ []

unfoldable pub process_kinds : List String
process_kinds =
    "git" ∷ "ranex-kernel" ∷ "provider-cli" ∷ "governed-command" ∷ "check" ∷ "build" ∷ "test"
    ∷ "debug-adapter" ∷ "delegated-theia" ∷ "unknown" ∷ []

unfoldable pub abnormal_classes : List String
abnormal_classes =
    "none" ∷ "exited" ∷ "spawn-failed" ∷ "timed-out" ∷ "residual" ∷ "lost" ∷ "quarantined"
    ∷ "inventory-unknown" ∷ []

-- `METRIC_LABEL_VALUES`.
unfoldable pub metric_label_values : String → List String
metric_label_values key =
    if key == "owner_kind"
    then owner_kinds
    else if key == "operation_kind"
    then "workflow-run" ∷ []
    else if key == "node_kind"
    then "agent" ∷ []
    else if key == "terminal_class"
    then terminal_classes
    else if key == "safe_code_class"
    then safe_code_classes
    else if key == "lifecycle_class"
    then run_lifecycles
    else if key == "process_kind"
    then process_kinds
    else if key == "abnormal_class"
    then abnormal_classes
    else []

pub record MetricContract : Type 0 where
  pub kind : MetricKind
  pub labels : List String

abbrev contract : MetricKind → List String → Option MetricContract
contract kind labels = some (record { kind = kind; labels = labels })

-- `METRIC_CONTRACTS`.
unfoldable pub metric_contract : String → Option MetricContract
metric_contract name =
    if name == "kogg_operations_total"
    then contract MetricKind.counter ("operation_kind" ∷ "owner_kind" ∷ "terminal_class" ∷ [])
    else if name == "kogg_attempts_total"
    then contract MetricKind.counter ("node_kind" ∷ "owner_kind" ∷ "terminal_class" ∷ [])
    else if name == "kogg_retries_total"
    then contract MetricKind.counter ("node_kind" ∷ "safe_code_class" ∷ [])
    else if name == "kogg_refusals_total"
    then contract MetricKind.counter ("owner_kind" ∷ "safe_code_class" ∷ [])
    else if name == "kogg_recoveries_total"
    then contract MetricKind.counter ("owner_kind" ∷ "terminal_class" ∷ [])
    else if name == "kogg_quarantines_total"
    then contract MetricKind.counter ("owner_kind" ∷ "safe_code_class" ∷ [])
    else if name == "kogg_runs_active"
    then contract MetricKind.gauge ("lifecycle_class" ∷ [])
    else if name == "kogg_processes_active"
    then contract MetricKind.gauge ("abnormal_class" ∷ "process_kind" ∷ [])
    else if name == "kogg_queue_wait_ms"
    then contract MetricKind.histogram ("owner_kind" ∷ "terminal_class" ∷ [])
    else if name == "kogg_run_duration_ms"
    then contract MetricKind.histogram ("owner_kind" ∷ "terminal_class" ∷ [])
    else if name == "kogg_process_cleanup_ms"
    then contract MetricKind.histogram ("process_kind" ∷ "terminal_class" ∷ [])
    else if name == "kogg_recovery_duration_ms"
    then contract MetricKind.histogram ("owner_kind" ∷ "terminal_class" ∷ [])
    else none

abbrev same_kind : MetricKind → MetricKind → Bool
same_kind MetricKind.counter MetricKind.counter = true
same_kind MetricKind.gauge MetricKind.gauge = true
same_kind MetricKind.histogram MetricKind.histogram = true
same_kind _ _ = false

abbrev same_texts : List String → List String → Bool
same_texts [] [] = true
same_texts (a ∷ xs) (b ∷ ys) = a == b && same_texts xs ys
same_texts _ _ = false

-- `validBucket`.
unfoldable pub is_valid_bucket : MetricKind → Option ℕ → Bool
unfolding histogram_buckets
is_valid_bucket MetricKind.histogram none = false
is_valid_bucket MetricKind.histogram (some bound) = includes histogram_buckets bound
is_valid_bucket MetricKind.counter none = true
is_valid_bucket MetricKind.counter (some bound) = false
is_valid_bucket MetricKind.gauge none = true
is_valid_bucket MetricKind.gauge (some bound) = false

-- Whether the labels, in the order in which they are stored, keep the contract.
unfoldable pub has_valid_labels : List String → List (String × String) → Bool
unfolding metric_label_values
has_valid_labels keys labels =
    same_texts (map (λ (l : String × String). l.0) labels) keys
    && all (λ (l : String × String). includes (metric_label_values l.0) l.1) labels

-- What the contract of a name asks of a row, its value aside.
unfoldable pub keeps_contract :
    Option MetricContract → MetricKind → List (String × String) → Option ℕ → Bool
unfolding is_valid_bucket has_valid_labels
keeps_contract none kind labels bound = false
keeps_contract (some c) kind labels bound =
    same_kind kind c.kind && (has_valid_labels c.labels labels && is_valid_bucket c.kind bound)

-- `Number.isSafeInteger(value)`.
abbrev pub is_safe_integer : ℕ → Bool
is_safe_integer value = ltb value 9007199254740992

unfoldable pub is_valid_metric : MetricValue → Bool
is_valid_metric v =
    keeps_contract (metric_contract v.name) v.metric_kind v.labels v.bucket_upper_bound
    && is_safe_integer v.value

-- `METRIC_VALUE_LIMIT`.
abbrev pub metric_value_limit : ℕ
metric_value_limit = 4096

-- The loop of `metricViolationCount`.
unfoldable pub count_violations : List MetricValue → ℕ
count_violations [] = 0
count_violations (v ∷ vs) = (if is_valid_metric v then 0 else 1) + count_violations vs

-- `metricViolationCount`.
unfoldable pub metric_violation_count : List MetricValue → ℕ
metric_violation_count vs = (length vs - metric_value_limit) + count_violations vs

-- `metricRows`, less their order.
unfoldable pub metric_rows : ReadModel → List MetricValue
metric_rows m = filter (λ (v : MetricValue). v.projection_epoch == m.projection_epoch) m.metrics

-- `metrics`: the epoch and the values, or none where it throws `METRIC_CONTRACT_INVALID`.
unfoldable pub metrics_snapshot : ReadModel → Option (String × List MetricValue)
metrics_snapshot m =
    if metric_violation_count (metric_rows m) == 0
    then some (m.projection_epoch, metric_rows m)
    else none
