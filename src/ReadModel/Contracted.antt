-- ===== src/ReadModel/Contracted.antt =====
-- The metrics of packages/kogg-operations/src/node/operations-read-model.ts keep their contracts.
use kogg.Prelude.{
  arith, All-append, ℕ, String, String-Eq, ℕ-Eq, Bool, true, false, ◌&&◌, ◌==◌, Option, none, some,
  List, [], ◌∷◌, ◌≡◌, refl, inl, inr, All, includes, leb, Bool-cases,
}
use kogg.ReadModel.Tables.{MetricKind, MetricValue}
use kogg.ReadModel.Metrics.{
  same_bound, add_text, same_labels, upsert_metric, increment_metric, observe_histogram,
  histogram_buckets, groups,
}
use kogg.ReadModel.MetricContracts.{
  metric_contract, keeps_contract, owner_kinds, terminal_classes, safe_code_classes, process_kinds,
  abnormal_classes, run_lifecycles,
}

abbrev pub IsMetered : String → MetricKind → List (String × String) → Option ℕ → Type 0
IsMetered name kind labels bound = keeps_contract (metric_contract name) kind labels bound ≡ true

abbrev pub IsContracted : MetricValue → Type 0
IsContracted v = IsMetered v.name v.metric_kind v.labels v.bucket_upper_bound

module _ (epoch name : String) (labels : List (String × String)) where
  pub upsert_metric-All :
      (kind : MetricKind) (bound : Option ℕ) (delta : ℕ) (ms : List MetricValue)
      → IsMetered name kind labels bound
      → All IsContracted ms
      → All IsContracted (upsert_metric epoch name kind labels bound delta ms)
  unfolding upsert_metric
  upsert_metric-All kind bound delta [] new h = (new, tt)
  upsert_metric-All kind bound delta (m ∷ ms) new h =
      elim (Bool-cases (
        (m.projection_epoch == epoch && m.name == name)
        && (same_labels m.labels labels && same_bound m.bucket_upper_bound bound))) [
          | inl t ↦ rw t (h.0, h.1)
          | inr f ↦ rw f (h.0, upsert_metric-All kind bound delta ms new h.1)
        ]

  pub increment_metric-All :
      (test : Bool) (ms : List MetricValue)
      → IsMetered name MetricKind.counter labels none
      → All IsContracted ms
      → All IsContracted (increment_metric test epoch name labels ms)
  unfolding increment_metric
  increment_metric-All true ms new h = upsert_metric-All MetricKind.counter none 1 ms new h
  increment_metric-All false ms new h = h

  pub observe_histogram-All :
      (value : ℕ) (buckets : List ℕ) (ms : List MetricValue)
      → All (λ b. IsMetered name MetricKind.histogram labels (some b)) buckets
      → All IsContracted ms
      → All IsContracted (observe_histogram epoch name labels value buckets ms)
  unfolding observe_histogram
  observe_histogram-All value [] ms new h = h
  observe_histogram-All value (b ∷ buckets) ms new h = elim (Bool-cases (leb value b)) [
    | inl t ↦ rw t (
        observe_histogram-All value buckets
          (upsert_metric epoch name MetricKind.histogram labels (some b) 1 ms) new.1
          (upsert_metric-All MetricKind.histogram (some b) 1 ms new.0 h))
    | inr f ↦ rw f (observe_histogram-All value buckets ms new.1 h)
  ]

-- The labels that the program writes.
module _ (owner terminal code : String) where
  pub operations-IsMetered :
      includes owner_kinds owner ≡ true
      → includes terminal_classes terminal ≡ true
      → IsMetered "kogg_operations_total" MetricKind.counter
          (("operation_kind", "workflow-run")
            ∷ ("owner_kind", owner)
            ∷ ("terminal_class", terminal)
            ∷ [])
          none
  unfolding metric_contract keeps_contract
  operations-IsMetered o t = rw (o, t) refl

  pub attempts-IsMetered :
      includes owner_kinds owner ≡ true
      → includes terminal_classes terminal ≡ true
      → IsMetered "kogg_attempts_total" MetricKind.counter
          (("node_kind", "agent") ∷ ("owner_kind", owner) ∷ ("terminal_class", terminal) ∷ [])
          none
  unfolding metric_contract keeps_contract
  attempts-IsMetered o t = rw (o, t) refl

  pub recoveries-IsMetered :
      includes owner_kinds owner ≡ true
      → includes terminal_classes terminal ≡ true
      → IsMetered "kogg_recoveries_total" MetricKind.counter
          (("owner_kind", owner) ∷ ("terminal_class", terminal) ∷ [])
          none
  unfolding metric_contract keeps_contract
  recoveries-IsMetered o t = rw (o, t) refl

  pub retries-IsMetered :
      includes safe_code_classes code ≡ true
      → IsMetered "kogg_retries_total" MetricKind.counter
          (("node_kind", "agent") ∷ ("safe_code_class", code) ∷ [])
          none
  unfolding metric_contract keeps_contract
  retries-IsMetered c = rw c refl

  pub refusals-IsMetered :
      includes owner_kinds owner ≡ true
      → includes safe_code_classes code ≡ true
      → IsMetered "kogg_refusals_total" MetricKind.counter
          (("owner_kind", owner) ∷ ("safe_code_class", code) ∷ [])
          none
  unfolding metric_contract keeps_contract
  refusals-IsMetered o c = rw (o, c) refl

  pub quarantines-IsMetered :
      includes owner_kinds owner ≡ true
      → includes safe_code_classes code ≡ true
      → IsMetered "kogg_quarantines_total" MetricKind.counter
          (("owner_kind", owner) ∷ ("safe_code_class", code) ∷ [])
          none
  unfolding metric_contract keeps_contract
  quarantines-IsMetered o c = rw (o, c) refl

-- The buckets of a histogram whose labels keep its contract.
module _ (owner terminal : String) (t : includes terminal_classes terminal ≡ true) where
  abbrev InBuckets : String → List (String × String) → Type 0
  InBuckets name labels =
      All (λ b. IsMetered name MetricKind.histogram labels (some b)) histogram_buckets

  pub runs-InBuckets :
      includes owner_kinds owner ≡ true
      → InBuckets "kogg_run_duration_ms" (("owner_kind", owner) ∷ ("terminal_class", terminal) ∷ [])
  unfolding metric_contract keeps_contract
  runs-InBuckets o = rw (o, t) (ground arith)

  pub recovery-InBuckets :
      includes owner_kinds owner ≡ true
      → InBuckets "kogg_recovery_duration_ms"
          (("owner_kind", owner) ∷ ("terminal_class", terminal) ∷ [])
  unfolding metric_contract keeps_contract
  recovery-InBuckets o = rw (o, t) (ground arith)

  pub cleanup-InBuckets :
      includes process_kinds owner ≡ true
      → InBuckets "kogg_process_cleanup_ms"
          (("process_kind", owner) ∷ ("terminal_class", terminal) ∷ [])
  unfolding metric_contract keeps_contract
  cleanup-InBuckets o = rw (o, t) (ground arith)

pub lifecycle-IsMetered :
    (l : String)
    → includes run_lifecycles l ≡ true
    → IsMetered "kogg_runs_active" MetricKind.gauge (("lifecycle_class", l) ∷ []) none
unfolding metric_contract keeps_contract
lifecycle-IsMetered l h = rw h refl

pub class-IsMetered :
    (c kind : String)
    → includes abnormal_classes c ≡ true
    → includes process_kinds kind ≡ true
    → IsMetered "kogg_processes_active" MetricKind.gauge
        (("abnormal_class", c) ∷ ("process_kind", kind) ∷ [])
        none
unfolding metric_contract keeps_contract
class-IsMetered c kind h k = rw (h, k) refl

-- What holds of all texts holds of those that `GROUP BY` gives.
module _ (P : String → Type 0) where
  add_text-All : (s : String) (seen : List String) → P s → All P seen → All P (add_text s seen)
  add_text-All s seen k h = elim (Bool-cases (includes seen s)) [
    | inl t ↦ rw t h
    | inr f ↦ rw f (All-append P seen (s ∷ []) h (k, tt))
  ]

  pub groups-All : (rows seen : List String) → All P rows → All P seen → All P (groups rows seen)
  unfolding groups
  groups-All [] seen h k = k
  groups-All (s ∷ rows) seen h k = groups-All rows (add_text s seen) h.1 (add_text-All s seen h.0 k)
