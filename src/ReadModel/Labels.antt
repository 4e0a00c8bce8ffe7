-- ===== src/ReadModel/Labels.antt =====
-- The values that packages/kogg-operations/src/node/operations-read-model.ts gives to the labels of
-- metrics are those of their contracts.
use text.Mathlib.Text.{starts_with}
use kogg.Prelude.{
  String, String-Eq, ℕ-Eq, Bool, true, false, ◌||◌, ◌==◌, Option, none, some, some-injective, List,
  [], ◌∷◌, ◌≡◌, refl, inl, inr, map, All, includes, Bool-cases, Option-cases, if◌then◌else◌,
}
use kogg.Text.{after_last_dot}
use kogg.ReadModel.Owners.{OwnerKind, owner_text}
use kogg.ReadModel.Lifecycles.{RunLifecycle, run_lifecycle_text}
use kogg.ReadModel.Events.{OwnerEvent, Platform, payload_code, payload_text-code, is_text, value_of}
use kogg.ReadModel.Validate.{validate_event}
use kogg.ReadModel.Tables.{RunProjection, ProcessProjection, MetricKind}
use kogg.ReadModel.Runs.{otherwise}
use kogg.ReadModel.Metrics.{
  terminal_suffixes, contains, terminal_class, safe_code_class, duration_metric, duration_labels,
  abnormal_class, histogram_buckets,
}
use kogg.ReadModel.MetricContracts.{
  owner_kinds, terminal_classes, safe_code_classes, process_kinds, abnormal_classes, run_lifecycles,
}
use kogg.ReadModel.Contracted.{IsMetered, runs-InBuckets, recovery-InBuckets, cleanup-InBuckets}
use kogg.ReadModel.Known.{includes-All, IsKnownKind, IsKnown, valid-kind}

pub owner_listed : (kind : OwnerKind) → includes owner_kinds (owner_text kind) ≡ true
unfolding owner_kinds
owner_listed OwnerKind.task_owner = refl
owner_listed OwnerKind.workflow_owner = refl
owner_listed OwnerKind.adapter_owner = refl
owner_listed OwnerKind.execution_owner = refl
owner_listed OwnerKind.operation_owner = refl
owner_listed OwnerKind.project_owner = refl
owner_listed OwnerKind.check_owner = refl
owner_listed OwnerKind.ranex_owner = refl
owner_listed OwnerKind.verdict_owner = refl
owner_listed OwnerKind.merge_owner = refl
owner_listed OwnerKind.diagnostic_owner = refl

pub lifecycle_listed : (l : RunLifecycle) → includes run_lifecycles (run_lifecycle_text l) ≡ true
unfolding run_lifecycles
lifecycle_listed RunLifecycle.queued_run = refl
lifecycle_listed RunLifecycle.active_run = refl
lifecycle_listed RunLifecycle.waiting_run = refl
lifecycle_listed RunLifecycle.retrying_run = refl
lifecycle_listed RunLifecycle.blocked_run = refl
lifecycle_listed RunLifecycle.failed_run = refl
lifecycle_listed RunLifecycle.cancelling_run = refl
lifecycle_listed RunLifecycle.cleaning_run = refl
lifecycle_listed RunLifecycle.recovered_run = refl
lifecycle_listed RunLifecycle.completed_run = refl
lifecycle_listed RunLifecycle.unknown_run = refl

pub terminal_listed :
    (kind t : String) → terminal_class kind ≡ some t → includes terminal_classes t ≡ true
unfolding terminal_class terminal_classes
terminal_listed kind t h = elim (Bool-cases (includes terminal_suffixes (after_last_dot kind))) [
  | inl found ↦ rw (← some-injective (rw found at h)) (
      includes-All (λ k. includes terminal_classes k ≡ true) terminal_suffixes (after_last_dot kind)
        (refl, (refl, (refl, (refl, (refl, (refl, (refl, (refl, tt)))))))) found)
  | inr other ↦ absurd (cc (rw other at h))
]

pub default_listed :
    (kind fallback : String)
    → includes terminal_classes fallback ≡ true
    → includes terminal_classes (otherwise fallback (terminal_class kind)) ≡ true
default_listed kind fallback h = elim (Option-cases (terminal_class kind)) [
  | inl absent ↦ rw absent h
  | inr (t, given) ↦ rw given (terminal_listed kind t given)
]

pub completed_listed : includes terminal_classes "completed" ≡ true
unfolding terminal_classes
completed_listed = refl

pub recovered_listed : includes terminal_classes "recovered" ≡ true
unfolding terminal_classes
recovered_listed = refl

-- What holds of both branches holds of the choice.
pub if_holds :
    (P : String → Type 0) (test : Bool) (x y : String) → P x → P y → P (if test then x else y)
if_holds P true x y h k = h
if_holds P false x y h k = k

abbrev IsCode : String → Type 0
IsCode c = includes safe_code_classes c ≡ true

pub code_listed : (code : Option String) → includes safe_code_classes (safe_code_class code) ≡ true
unfolding safe_code_class safe_code_classes
code_listed none = refl
code_listed (some code) = if_holds IsCode (code == "") _ _ refl (
    if_holds IsCode (contains code "TIMEOUT") _ _ refl (
      if_holds IsCode (contains code "AUTH") _ _ refl (
        if_holds IsCode (contains code "CLEANUP" || contains code "PROCESS") _ _ refl
          (if_holds IsCode (contains code "INTEGRITY" || contains code "DIGEST") _ _ refl refl))))

pub none_listed : includes abnormal_classes "none" ≡ true
unfolding abnormal_classes
none_listed = refl

pub lifecycles_listed :
    (runs : List RunProjection)
    → All
        (λ l. includes run_lifecycles l ≡ true)
        (map (λ (r : RunProjection). run_lifecycle_text r.lifecycle) runs)
lifecycles_listed [] = tt
lifecycles_listed (r ∷ runs) = (lifecycle_listed r.lifecycle, lifecycles_listed runs)

pub class_listed :
    (q : ProcessProjection) → IsKnown q → includes abnormal_classes (abnormal_class q) ≡ true
class_listed q h = elim (Bool-cases q.abnormal) [ inl t ↦ rw t (h.1 t) | inr f ↦ rw f none_listed ]

pub unknown-IsKnownKind : IsKnownKind "unknown"
unfolding process_kinds
unknown-IsKnownKind = refl

-- The histogram of a duration is given labels that it takes.
pub duration-InBuckets :
    (p : Platform) (e : OwnerEvent) (metric : String)
    → validate_event p e ≡ none
    → is_text (value_of "processKind" e.safe_payload) ≡ true
    → duration_metric e.event_kind ≡ some metric
    → All
        (λ b. IsMetered metric MetricKind.histogram (duration_labels e metric) (some b))
        histogram_buckets
unfolding duration_metric duration_labels
duration-InBuckets p e metric valid text h =
    let terminal = otherwise "completed" (terminal_class e.event_kind) in
    let listed = default_listed e.event_kind "completed" completed_listed in
    let owner = owner_listed e.owner_kind in
    elim (Bool-cases (e.event_kind == "process.cleaned")) [
      | inl cleaned ↦ rw (← some-injective (rw cleaned at h)) (
          rw (payload_text-code "processKind" e.safe_payload text).1 (
            cleanup-InBuckets (otherwise "unknown" (payload_code "processKind" e.safe_payload))
              terminal listed
              (elim (Option-cases (payload_code "processKind" e.safe_payload)) [
                | inl absent ↦ rw absent unknown-IsKnownKind
                | inr (k, given) ↦ rw given (valid-kind p e k valid given)
              ])))
      | inr uncleaned ↦ elim (Bool-cases (e.event_kind == "run.recovered")) [
        | inl recovered ↦
            rw (← some-injective (rw (uncleaned, recovered) at h))
              (recovery-InBuckets (owner_text e.owner_kind) terminal listed owner)
        | inr unrecovered ↦ elim (Bool-cases (starts_with e.event_kind "run.")) [
          | inl of_run ↦
              rw (← some-injective (rw (uncleaned, unrecovered, of_run) at h))
                (runs-InBuckets (owner_text e.owner_kind) terminal listed owner)
          | inr other ↦ absurd (cc (rw (uncleaned, unrecovered, other) at h))
        ]
      ]
    ]
