-- ===== src/ReadModel/Metrics.antt =====
-- `projectMetrics` of packages/kogg-operations/src/node/operations-read-model.ts, on the rows of
-- `metric_values`.
use Prim.Native.String.{find, len}
use text.Mathlib.Text.{starts_with}
use kogg.Prelude.{
  ℕ, ◌+◌, String, String-Eq, ℕ-Eq, Bool, true, false, not, ◌&&◌, ◌||◌, Option, none, some, List, [],
  ◌∷◌, ◌++◌, ◌==◌, includes, map, filter, length, ltb, leb, if◌then◌else◌,
}
use kogg.Text.{after_last_dot, ends_with}
use kogg.ReadModel.Owners.{owner_text}
use kogg.ReadModel.Lifecycles.{RunLifecycle-Eq, run_lifecycle_text}
use kogg.ReadModel.Events.{OwnerEvent, payload_label, payload_code, payload_number}
use kogg.ReadModel.Tables.{RunProjection, ProcessProjection, Derived, MetricKind, MetricValue}
use kogg.ReadModel.Runs.{otherwise}

abbrev pub same_labels : List (String × String) → List (String × String) → Bool
same_labels [] [] = true
same_labels [] (b ∷ bs) = false
same_labels (a ∷ rows) [] = false
same_labels (a ∷ rows) (b ∷ bs) = (a.0 == b.0 && a.1 == b.1) && same_labels rows bs

abbrev pub same_bound : Option ℕ → Option ℕ → Bool
same_bound none none = true
same_bound none (some b) = false
same_bound (some a) none = false
same_bound (some a) (some b) = a == b

-- `upsertMetric`. The labels are given in the order of their keys, as `canonical` writes them.
unfoldable pub upsert_metric :
    String
    → String
    → MetricKind
    → List (String × String)
    → Option ℕ
    → ℕ
    → List MetricValue
    → List MetricValue
upsert_metric epoch name kind labels bound delta [] =
    record {
      projection_epoch = epoch;
      name = name;
      metric_kind = kind;
      labels = labels;
      bucket_upper_bound = bound;
      value = delta;
    }
    ∷ []
upsert_metric epoch name kind labels bound delta (m ∷ ms) =
    let later = upsert_metric epoch name kind labels bound delta ms in
    if (m.projection_epoch == epoch && m.name == name)
      && (same_labels m.labels labels && same_bound m.bucket_upper_bound bound)
    then record m { value = m.value + delta } ∷ ms
    else m ∷ later

-- `incrementMetric`, where its condition holds.
unfoldable pub increment_metric :
    Bool → String → String → List (String × String) → List MetricValue → List MetricValue
increment_metric test epoch name labels ms =
    if test then upsert_metric epoch name MetricKind.counter labels none 1 ms else ms

-- `HISTOGRAM_BUCKETS`.
unfoldable pub histogram_buckets : List ℕ
histogram_buckets = 10 ∷ 50 ∷ 100 ∷ 250 ∷ 500 ∷ 1000 ∷ 2500 ∷ 5000 ∷ 15000 ∷ 60000 ∷ 300000 ∷ []

-- `observeHistogram`.
unfoldable pub observe_histogram :
    String → String → List (String × String) → ℕ → List ℕ → List MetricValue → List MetricValue
observe_histogram epoch name labels value [] ms = ms
observe_histogram epoch name labels value (bucket ∷ buckets) ms =
    observe_histogram epoch name labels value buckets (
      if leb value bucket
      then upsert_metric epoch name MetricKind.histogram labels (some bucket) 1 ms
      else ms)

abbrev pub terminal_suffixes : List String
terminal_suffixes =
    "failed" ∷ "cancelled" ∷ "completed" ∷ "recovered" ∷ "passed" ∷ "refused" ∷ "committed"
    ∷ "quarantined" ∷ []

-- `terminalClass`.
unfoldable pub terminal_class : String → Option String
terminal_class kind =
    let suffix = after_last_dot kind in
    if includes terminal_suffixes suffix then some suffix else none

abbrev pub contains : String → String → Bool
contains s t = leb (find s t) (len s)

-- `safeCodeClass`.
unfoldable pub safe_code_class : Option String → String
safe_code_class none = "none"
safe_code_class (some code) =
    if code == ""
    then "none"
    else if contains code "TIMEOUT"
    then "timeout"
    else if contains code "AUTH"
    then "authority"
    else if contains code "CLEANUP" || contains code "PROCESS"
    then "process"
    else if contains code "INTEGRITY" || contains code "DIGEST"
    then "integrity"
    else "other"

abbrev pub add_text : String → List String → List String
add_text s seen = if includes seen s then seen else seen ++ s ∷ []

-- `GROUP BY` of one column.
unfoldable pub groups : List String → List String → List String
groups [] seen = seen
groups (s ∷ rows) seen = groups rows (add_text s seen)

abbrev pub count_of : String → List String → ℕ
count_of s rows = length (filter (λ r. r == s) rows)

unfoldable pub run_gauges : String → List String → List String → List MetricValue → List MetricValue
run_gauges epoch rows [] ms = ms
run_gauges epoch rows (l ∷ ls) ms = run_gauges epoch rows ls (
    upsert_metric epoch "kogg_runs_active" MetricKind.gauge (("lifecycle_class", l) ∷ []) none
      (count_of l rows) ms)

-- The class that a process is counted in: its state where it is abnormal.
abbrev pub abnormal_class : ProcessProjection → String
abnormal_class p = if p.abnormal then p.state else "none"

abbrev pub counts_of_kind : String → List ProcessProjection → List String
counts_of_kind kind ps =
    map abnormal_class (filter (λ (p : ProcessProjection). p.process_kind == kind) ps)

unfoldable pub class_gauges :
    String → String → List String → List String → List MetricValue → List MetricValue
class_gauges epoch kind rows [] ms = ms
class_gauges epoch kind rows (c ∷ cs) ms = class_gauges epoch kind rows cs (
    upsert_metric epoch "kogg_processes_active" MetricKind.gauge
      (("abnormal_class", c) ∷ ("process_kind", kind) ∷ []) none (count_of c rows) ms)

unfoldable pub process_gauges :
    String → List ProcessProjection → List String → List MetricValue → List MetricValue
process_gauges epoch ps [] ms = ms
process_gauges epoch ps (kind ∷ kinds) ms =
    let rows = counts_of_kind kind ps in
    process_gauges epoch ps kinds (class_gauges epoch kind rows (groups rows []) ms)

abbrev pub is_gauge : MetricKind → Bool
is_gauge MetricKind.gauge = true
is_gauge MetricKind.counter = false
is_gauge MetricKind.histogram = false

-- `refreshGauges`.
unfoldable pub refresh_gauges : String → Derived → List MetricValue → List MetricValue
refresh_gauges epoch d ms =
    let kept =
      filter (λ (m : MetricValue). not (m.projection_epoch == epoch && is_gauge m.metric_kind))
        ms in
    let rows = map (λ (r : RunProjection). run_lifecycle_text r.lifecycle) d.runs in
    let counted = filter (λ (p : ProcessProjection). p.live || p.abnormal) d.processes in
    process_gauges epoch counted
      (groups (map (λ (p : ProcessProjection). p.process_kind) counted) [])
      (run_gauges epoch rows (groups rows []) kept)

-- The histogram that a duration goes to.
unfoldable pub duration_metric : String → Option String
duration_metric kind =
    if kind == "process.cleaned"
    then some "kogg_process_cleanup_ms"
    else if kind == "run.recovered"
    then some "kogg_recovery_duration_ms"
    else if starts_with kind "run."
    then some "kogg_run_duration_ms"
    else none

unfoldable pub duration_labels : OwnerEvent → String → List (String × String)
duration_labels e metric =
    let terminal = otherwise "completed" (terminal_class e.event_kind) in
    if metric == "kogg_process_cleanup_ms"
    then ("process_kind", otherwise "unknown" (payload_label "processKind" e.safe_payload))
      ∷ ("terminal_class", terminal)
      ∷ []
    else ("owner_kind", owner_text e.owner_kind) ∷ ("terminal_class", terminal) ∷ []

unfoldable pub observe_duration :
    String → OwnerEvent → Option ℕ → Option String → List MetricValue → List MetricValue
observe_duration epoch e none metric ms = ms
observe_duration epoch e (some duration) none ms = ms
observe_duration epoch e (some duration) (some metric) ms =
    observe_histogram epoch metric (duration_labels e metric) duration histogram_buckets ms

unfoldable pub count_terminal :
    String → OwnerEvent → Option String → List MetricValue → List MetricValue
count_terminal epoch e none ms = ms
count_terminal epoch e (some terminal) ms =
    let owner = owner_text e.owner_kind in
    let runs =
      increment_metric (starts_with e.event_kind "run.") epoch "kogg_operations_total"
        (("operation_kind", "workflow-run")
          ∷ ("owner_kind", owner)
          ∷ ("terminal_class", terminal)
          ∷ [])
        ms in
    increment_metric (starts_with e.event_kind "attempt.") epoch "kogg_attempts_total"
      (("node_kind", "agent") ∷ ("owner_kind", owner) ∷ ("terminal_class", terminal) ∷ []) runs

-- `projectMetrics`.
unfoldable pub project_metrics : String → OwnerEvent → Derived → List MetricValue → List MetricValue
project_metrics epoch e d ms =
    let owner = owner_text e.owner_kind in
    let code = safe_code_class (payload_code "safeCode" e.safe_payload) in
    let terminal = count_terminal epoch e (terminal_class e.event_kind) ms in
    let retries =
      increment_metric
        (e.event_kind == "attempt.requested"
          && ltb 0 (otherwise 0 (payload_number "retryOrdinal" e.safe_payload)))
        epoch "kogg_retries_total" (("node_kind", "agent") ∷ ("safe_code_class", code) ∷ [])
        terminal in
    let refusals =
      increment_metric (ends_with e.event_kind ".refused") epoch "kogg_refusals_total"
        (("owner_kind", owner) ∷ ("safe_code_class", code) ∷ []) retries in
    let recoveries =
      increment_metric (ends_with e.event_kind ".recovered") epoch "kogg_recoveries_total"
        (("owner_kind", owner)
          ∷ ("terminal_class", otherwise "recovered" (terminal_class e.event_kind))
          ∷ [])
        refusals in
    let quarantines =
      increment_metric (ends_with e.event_kind ".quarantined") epoch "kogg_quarantines_total"
        (("owner_kind", owner) ∷ ("safe_code_class", code) ∷ []) recoveries in
    refresh_gauges epoch d (
      observe_duration epoch e (payload_number "durationMs" e.safe_payload)
        (duration_metric e.event_kind) quarantines)
