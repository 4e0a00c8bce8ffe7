-- ===== src/ReadModel/Metered.antt =====
-- What `metrics` of packages/kogg-operations/src/node/operations-read-model.ts answers.
use kogg.ReadModel.Measured.{project_metrics-All}
use kogg.Prelude.{
  arith, ℕ, ◌-◌, ◌≤◌, ◌<◌, String-Eq, ℕ-Eq, Bool, true, ◌==◌, none, some, List, [], ◌∷◌, ◌≡◌, refl,
  All, All-filter_of, ltb, length,
}
use kogg.ReadModel.Events.{OwnerEvent, Platform, is_text, value_of}
use kogg.ReadModel.Validate.{FaultCode, validate_event}
use kogg.ReadModel.Tables.{MetricValue, ReadModel}
use kogg.ReadModel.Project.{project_event}
use kogg.ReadModel.Ingest.{
  IngestResult, accepted_event, duplicate_event, faulted, store_error, persist_fault,
  reevaluate_lifecycle, record_event, ingest, no_derived,
}
use kogg.ReadModel.Effects.{Leaves, ingest-Leaves}
use kogg.ReadModel.Rebuilt.{ingest_all}
use kogg.ReadModel.MetricContracts.{
  is_valid_metric, count_violations, metric_violation_count, metric_rows, metrics_snapshot,
}
use kogg.ReadModel.Contracted.{IsContracted}
use kogg.ReadModel.Known.{IsKnown, project_event-IsKnown}

-- The metrics and the processes of a store are as they should be.
abbrev pub IsMeasured : ReadModel → Type 0
IsMeasured m = All IsContracted m.metrics × All IsKnown m.derived.processes

recorded-IsMeasured :
    (p : Platform) (e : OwnerEvent) (reopened : Bool) (m : ReadModel)
    → validate_event p e ≡ none
    → is_text (value_of "processKind" e.safe_payload) ≡ true
    → IsMeasured m
    → IsMeasured (reevaluate_lifecycle (record_event p e reopened m))
unfolding record_event reevaluate_lifecycle
recorded-IsMeasured p e reopened m valid text h =
    let known = project_event-IsKnown p e valid text m.derived h.1 in
    (
      project_metrics-All m.projection_epoch p e (project_event p e m.derived) m.metrics valid text
          known h.0,
      known,
    )

faulted-IsMeasured :
    (e : OwnerEvent) (code : FaultCode) (m : ReadModel)
    → IsMeasured m
    → IsMeasured (persist_fault e code m)
unfolding persist_fault
faulted-IsMeasured e code m h = h

Leaves-IsMeasured :
    (p : Platform) (e : OwnerEvent) (m : ReadModel) (result : IngestResult) (m' : ReadModel)
    → is_text (value_of "processKind" e.safe_payload) ≡ true
    → IsMeasured m
    → Leaves p e m (result, m')
    → IsMeasured m'
Leaves-IsMeasured p e m accepted_event m' text h (_, valid, _, (reopened, left)) =
    rw left (recorded-IsMeasured p e reopened m valid text h)
Leaves-IsMeasured p e m duplicate_event m' text h (left, _) = rw left h
Leaves-IsMeasured p e m (faulted code) m' text h left = rw left (faulted-IsMeasured e code m h)
Leaves-IsMeasured p e m store_error m' text h left = rw left h

pub ingest_all-IsMeasured :
    (p : Platform) (es : List OwnerEvent) (m : ReadModel)
    → All (λ (e : OwnerEvent). is_text (value_of "processKind" e.safe_payload) ≡ true) es
    → IsMeasured m
    → IsMeasured (ingest_all p es m)
ingest_all-IsMeasured p [] m texts h = h
ingest_all-IsMeasured p (e ∷ es) m texts h =
    ingest_all-IsMeasured p es (ingest p e m).1 texts.1
      (Leaves-IsMeasured p e m (ingest p e m).0 (ingest p e m).1 texts.0 h (ingest-Leaves p e m))

below_limit : (a : ℕ) → a < 9007199254740992 → ltb a 9007199254740992 ≡ true
below_limit a h = ground arith

valid_lem :
    (v : MetricValue) → IsContracted v → v.value < 9007199254740992 → is_valid_metric v ≡ true
unfolding is_valid_metric
valid_lem v h small = rw (h, below_limit v.value small) refl

count_violations-none :
    (vs : List MetricValue)
    → All IsContracted vs
    → All (λ v. v.value < 9007199254740992) vs
    → count_violations vs ≡ 0
unfolding count_violations
count_violations-none [] h small = refl
count_violations-none (v ∷ vs) h small =
    rw (valid_lem v h.0 small.0, count_violations-none vs h.1 small.1) refl

-- Whatever events arrive at an empty store, as long as none has a number for its process kind, and
-- however their ingestion ends, the metrics can be read:
-- every row has the kind, the labels, the values of labels and the bucket that the contract of its name
-- asks for, so that only more than 4096 rows, or a value past the safe integers, would be refused.
pub metrics_snapshot-total :
    (p : Platform) (es : List OwnerEvent) (m : ReadModel)
    → m.metrics ≡ []
    → m.derived ≡ no_derived
    → All (λ (e : OwnerEvent). is_text (value_of "processKind" e.safe_payload) ≡ true) es
    → length (metric_rows (ingest_all p es m)) ≤ 4096
    → All (λ v. v.value < 9007199254740992) (metric_rows (ingest_all p es m))
    → metrics_snapshot (ingest_all p es m)
      ≡ some ((ingest_all p es m).projection_epoch, metric_rows (ingest_all p es m))
unfolding metrics_snapshot metric_violation_count metric_rows
metrics_snapshot-total p es m none_yet empty texts few small =
    let last = ingest_all p es m in
    let measured = ingest_all-IsMeasured p es m texts (rw none_yet tt, rw empty tt) in
    let valid =
      count_violations-none (metric_rows last)
        (All-filter_of IsContracted IsContracted (λ v. v.projection_epoch == last.projection_epoch)
          last.metrics (λ v k _. k) measured.0)
        small in
    let none_over : length (metric_rows last) - 4096 ≡ 0 = omega arith in rw (valid, none_over) refl
