-- ===== src/ReadModel/Measured.antt =====
-- `projectMetrics` of packages/kogg-operations/src/node/operations-read-model.ts keeps the contracts.
use kogg.ReadModel.Labels.{
  class_listed, lifecycles_listed, owner_listed, duration-InBuckets, terminal_listed,
  default_listed, recovered_listed, code_listed,
}
use text.Mathlib.Text.{starts_with}
use kogg.Prelude.{
  All-image, ℕ, String, String-Eq, ℕ-Eq, true, not, ◌&&◌, ◌||◌, ◌==◌, Option, none, some, List, [],
  ◌∷◌, ◌≡◌, refl, inl, inr, map, filter, All, All-filter_of, includes, ltb, Option-cases,
}
use kogg.Text.{ends_with}
use kogg.ReadModel.Owners.{owner_text}
use kogg.ReadModel.Lifecycles.{run_lifecycle_text}
use kogg.ReadModel.Events.{OwnerEvent, Platform, payload_code, payload_number, is_text, value_of}
use kogg.ReadModel.Validate.{validate_event}
use kogg.ReadModel.Tables.{RunProjection, ProcessProjection, Derived, MetricValue, MetricKind}
use kogg.ReadModel.Runs.{otherwise}
use kogg.ReadModel.Metrics.{
  terminal_class, safe_code_class, groups, run_gauges, class_gauges, process_gauges, refresh_gauges,
  duration_metric, duration_labels, observe_duration, count_terminal, project_metrics,
  abnormal_class, counts_of_kind, is_gauge, count_of, histogram_buckets,
}
use kogg.ReadModel.MetricContracts.{abnormal_classes, run_lifecycles}
use kogg.ReadModel.Contracted.{
  IsMetered, IsContracted, upsert_metric-All, increment_metric-All, observe_histogram-All,
  operations-IsMetered, attempts-IsMetered, recoveries-IsMetered, retries-IsMetered,
  refusals-IsMetered, quarantines-IsMetered, lifecycle-IsMetered, class-IsMetered, groups-All,
}
use kogg.ReadModel.Known.{IsKnownKind, IsKnown}

module _ (epoch : String) where
  pub run_gauges-All :
      (rows ls : List String) (ms : List MetricValue)
      → All (λ l. includes run_lifecycles l ≡ true) ls
      → All IsContracted ms
      → All IsContracted (run_gauges epoch rows ls ms)
  unfolding run_gauges
  run_gauges-All rows [] ms k h = h
  run_gauges-All rows (l ∷ ls) ms k h = run_gauges-All rows ls _ k.1 (
      upsert_metric-All epoch "kogg_runs_active" (("lifecycle_class", l) ∷ []) MetricKind.gauge none
        (count_of l rows) ms (lifecycle-IsMetered l k.0) h)

  pub class_gauges-All :
      (kind : String) (rows cs : List String) (ms : List MetricValue)
      → IsKnownKind kind
      → All (λ c. includes abnormal_classes c ≡ true) cs
      → All IsContracted ms
      → All IsContracted (class_gauges epoch kind rows cs ms)
  unfolding class_gauges
  class_gauges-All kind rows [] ms known k h = h
  class_gauges-All kind rows (c ∷ cs) ms known k h = class_gauges-All kind rows cs _ known k.1 (
      upsert_metric-All epoch "kogg_processes_active"
        (("abnormal_class", c) ∷ ("process_kind", kind) ∷ []) MetricKind.gauge none
        (count_of c rows) ms (class-IsMetered c kind k.0 known) h)

  pub classes_listed :
      (kind : String) (ps : List ProcessProjection)
      → All IsKnown ps
      → All (λ c. includes abnormal_classes c ≡ true) (counts_of_kind kind ps)
  classes_listed kind ps h =
      All-image IsKnown (λ c. includes abnormal_classes c ≡ true) abnormal_class
        (filter (λ (q : ProcessProjection). q.process_kind == kind) ps) class_listed
        (All-filter_of IsKnown IsKnown (λ q. q.process_kind == kind) ps (λ q k _. k) h)

  pub process_gauges-All :
      (ps : List ProcessProjection) (kinds : List String) (ms : List MetricValue)
      → All IsKnown ps
      → All IsKnownKind kinds
      → All IsContracted ms
      → All IsContracted (process_gauges epoch ps kinds ms)
  unfolding process_gauges
  process_gauges-All ps [] ms known k h = h
  process_gauges-All ps (kind ∷ kinds) ms known k h = process_gauges-All ps kinds _ known k.1 (
      class_gauges-All kind (counts_of_kind kind ps) (groups (counts_of_kind kind ps) []) ms k.0
        (groups-All (λ c. includes abnormal_classes c ≡ true) (counts_of_kind kind ps) []
          (classes_listed kind ps known) tt)
        h)

  pub refresh_gauges-All :
      (d : Derived) (ms : List MetricValue)
      → All IsKnown d.processes
      → All IsContracted ms
      → All IsContracted (refresh_gauges epoch d ms)
  unfolding refresh_gauges
  refresh_gauges-All d ms known h =
      let counted = filter (λ (q : ProcessProjection). q.live || q.abnormal) d.processes in
      let listed =
        All-filter_of IsKnown IsKnown (λ q. q.live || q.abnormal) d.processes (λ q k _. k) known in
      let texts = map (λ (r : RunProjection). run_lifecycle_text r.lifecycle) d.runs in
      process_gauges-All counted
        (groups (map (λ (q : ProcessProjection). q.process_kind) counted) []) _ listed
        (groups-All IsKnownKind (map (λ (q : ProcessProjection). q.process_kind) counted) []
          (All-image IsKnown IsKnownKind (λ q. q.process_kind) counted (λ q k. k.0) listed) tt)
        (run_gauges-All texts (groups texts []) _
          (groups-All (λ l. includes run_lifecycles l ≡ true) texts [] (lifecycles_listed d.runs)
            tt)
          (All-filter_of IsContracted IsContracted
            (λ v. not (v.projection_epoch == epoch && is_gauge v.metric_kind)) ms (λ v k _. k) h))

  pub count_terminal-All :
      (e : OwnerEvent) (t : Option String) (ms : List MetricValue)
      → terminal_class e.event_kind ≡ t
      → All IsContracted ms
      → All IsContracted (count_terminal epoch e t ms)
  unfolding count_terminal
  count_terminal-All e none ms same h = h
  count_terminal-All e (some t) ms same h =
      let owner = owner_listed e.owner_kind in
      let terminal = terminal_listed e.event_kind t same in
      increment_metric-All epoch "kogg_attempts_total" _ (starts_with e.event_kind "attempt.") _
        (attempts-IsMetered (owner_text e.owner_kind) t "" owner terminal)
        (increment_metric-All epoch "kogg_operations_total" _ (starts_with e.event_kind "run.") ms
          (operations-IsMetered (owner_text e.owner_kind) t "" owner terminal) h)

  pub observed :
      (e : OwnerEvent) (duration : ℕ) (metric : Option String) (ms : List MetricValue)
      → ((name : String)
          → metric ≡ some name
          → All
              (λ b. IsMetered name MetricKind.histogram (duration_labels e name) (some b))
              histogram_buckets)
      → All IsContracted ms
      → All IsContracted (observe_duration epoch e (some duration) metric ms)
  unfolding observe_duration
  observed e duration none ms k h = h
  observed e duration (some name) ms k h =
      observe_histogram-All epoch name (duration_labels e name) duration histogram_buckets ms
        (k name refl) h

  pub observe_duration-All :
      (p : Platform) (e : OwnerEvent) (ms : List MetricValue)
      → validate_event p e ≡ none
      → is_text (value_of "processKind" e.safe_payload) ≡ true
      → All IsContracted ms
      → All IsContracted (
          observe_duration epoch e
            (payload_number "durationMs" e.safe_payload)
            (duration_metric e.event_kind)
            ms)
  unfolding observe_duration
  observe_duration-All p e ms valid text h =
      elim (Option-cases (payload_number "durationMs" e.safe_payload)) [
        | inl absent ↦ rw absent h
        | inr (duration, given) ↦ rw given (
            observed e duration (duration_metric e.event_kind) ms
              (λ metric same. duration-InBuckets p e metric valid text same) h)
      ]

  pub project_metrics-All :
      (p : Platform) (e : OwnerEvent) (d : Derived) (ms : List MetricValue)
      → validate_event p e ≡ none
      → is_text (value_of "processKind" e.safe_payload) ≡ true
      → All IsKnown d.processes
      → All IsContracted ms
      → All IsContracted (project_metrics epoch e d ms)
  unfolding project_metrics
  project_metrics-All p e d ms valid text known h =
      let o = owner_text e.owner_kind in
      let owner = owner_listed e.owner_kind in
      let c = safe_code_class (payload_code "safeCode" e.safe_payload) in
      let code = code_listed (payload_code "safeCode" e.safe_payload) in
      let terminal = otherwise "recovered" (terminal_class e.event_kind) in
      refresh_gauges-All d _ known (
        observe_duration-All p e _ valid text (
          increment_metric-All epoch "kogg_quarantines_total" _
            (ends_with e.event_kind ".quarantined") _
            (quarantines-IsMetered o terminal c owner code)
            (increment_metric-All epoch "kogg_recoveries_total" _
              (ends_with e.event_kind ".recovered") _
              (recoveries-IsMetered o terminal c owner
                (default_listed e.event_kind "recovered" recovered_listed))
              (increment_metric-All epoch "kogg_refusals_total" _
                (ends_with e.event_kind ".refused") _ (refusals-IsMetered o terminal c owner code)
                (increment_metric-All epoch "kogg_retries_total" _
                  (e.event_kind == "attempt.requested"
                    && ltb 0 (otherwise 0 (payload_number "retryOrdinal" e.safe_payload)))
                  _ (retries-IsMetered o terminal c code)
                  (count_terminal-All e (terminal_class e.event_kind) ms refl h))))))
