-- ===== src/ReadModel/Ended.antt =====
-- The lifecycles that `projectEvent` of packages/kogg-operations/src/node/operations-read-model.ts
-- shows.
use kogg.Prelude.{
  ltb_refuted, &&-right-false, ||-eq-false, ==_refl, true-ne-false, ◌∙◌, arith, String, String-Eq,
  ℕ-Eq, true, false, ◌&&◌, ◌||◌, Option, none, some, List, [], ◌∷◌, ◌==◌, ◌≡◌, refl, inl, inr, any,
  All, All-mono, All-append, Bool-cases, ltb,
}
use kogg.Text.{after_first_dot}
use kogg.ReadModel.Owners.{OwnerKind, OwnerKind-Eq}
use kogg.ReadModel.Lifecycles.{RunLifecycle}
use kogg.ReadModel.Events.{OwnerEvent, Platform}
use kogg.ReadModel.Tables.{RunProjection, Derived}
use kogg.ReadModel.Runs.{
  summarise, on_run, new_run, insert_run, event_lifecycle, with_lifecycle, with_attempt,
  with_summary, is_ended, effective_lifecycle, derive_run_lifecycle, project_process,
}
use kogg.ReadModel.Holds.{project_retention_hold}
use kogg.ReadModel.Project.{project_entry, project_run, project_of_run, project_event}

-- The lifecycle that a run shows is the one that its owner and its processes give.
abbrev pub IsDerived : RunProjection → Type 0
IsDerived r = r.lifecycle ≡ effective_lifecycle r

-- Of every run but one.
abbrev IsDerivedBut : String → RunProjection → Type 0
IsDerivedBut id r = (r.run_id == id) ≡ false → IsDerived r

abbrev KeepsRun : (RunProjection → RunProjection) → Type 0
KeepsRun change = (r : RunProjection) → (change r).run_id ≡ r.run_id

on_run-IsDerivedBut :
    (id : String) (change : RunProjection → RunProjection) (runs : List RunProjection)
    → KeepsRun change
    → All (IsDerivedBut id) runs
    → All (IsDerivedBut id) (on_run id change runs)
unfolding on_run
on_run-IsDerivedBut id change [] k h = tt
on_run-IsDerivedBut id change (r ∷ runs) k h = (
  elim (Bool-cases (r.run_id == id)) [
    | inl t ↦ rw t (λ n. true-ne-false t (rw (k r) at n))
    | inr f ↦ rw f h.0
  ],
  on_run-IsDerivedBut id change runs k h.1,
)

on_run-IsDerived :
    (id : String) (runs : List RunProjection)
    → All (IsDerivedBut id) runs
    → All IsDerived (on_run id derive_run_lifecycle runs)
unfolding on_run derive_run_lifecycle effective_lifecycle
on_run-IsDerived id [] h = tt
on_run-IsDerived id (r ∷ runs) h = (
  elim (Bool-cases (r.run_id == id)) [ inl t ↦ rw t refl | inr f ↦ rw f (h.0 f) ],
  on_run-IsDerived id runs h.1,
)

insert_run-IsDerivedBut :
    (id : String) (e : OwnerEvent) (runs : List RunProjection)
    → All IsDerived runs
    → All (IsDerivedBut id) (insert_run id e runs)
unfolding insert_run
insert_run-IsDerivedBut id e runs h =
    let kept = All-mono IsDerived (IsDerivedBut id) runs (λ r d _. d) h in
    elim (Bool-cases (any (λ (r : RunProjection). r.run_id == id) runs)) [
      | inl t ↦ rw t kept
      | inr f ↦ rw f (
          All-append (IsDerivedBut id) runs (new_run id e ∷ []) kept
            (λ n. true-ne-false (==_refl id) n, tt))
    ]

with_lifecycle-keeps :
    (e : OwnerEvent) (l : Option RunLifecycle) (r : RunProjection)
    → (with_lifecycle e l r).run_id ≡ r.run_id
unfolding with_lifecycle
with_lifecycle-keeps e none r = refl
with_lifecycle-keeps e (some l) r = refl

with_attempt-keeps : (e : OwnerEvent) → KeepsRun (with_attempt e)
unfolding with_attempt
with_attempt-keeps e r = elim (Bool-cases (e.event_kind == "attempt.requested")) [
  | inl t ↦ rw t refl
  | inr f ↦ rw f refl
]

summarise-keeps :
    (kind : OwnerKind) (text : String) (r : RunProjection)
    → (summarise kind text r).run_id ≡ r.run_id
unfolding summarise
summarise-keeps OwnerKind.task_owner text r = refl
summarise-keeps OwnerKind.workflow_owner text r = refl
summarise-keeps OwnerKind.adapter_owner text r = refl
summarise-keeps OwnerKind.execution_owner text r = refl
summarise-keeps OwnerKind.operation_owner text r = refl
summarise-keeps OwnerKind.project_owner text r = refl
summarise-keeps OwnerKind.check_owner text r = refl
summarise-keeps OwnerKind.ranex_owner text r = refl
summarise-keeps OwnerKind.verdict_owner text r = refl
summarise-keeps OwnerKind.merge_owner text r = refl
summarise-keeps OwnerKind.diagnostic_owner text r = refl

with_summary-keeps : (e : OwnerEvent) → KeepsRun (with_summary e)
unfolding with_summary
with_summary-keeps e r = summarise-keeps e.owner_kind (after_first_dot e.event_kind) r

project_process-IsDerivedBut :
    (run_id : String) (e : OwnerEvent) (process_id : Option String) (d : Derived)
    → All (IsDerivedBut run_id) d.runs
    → All (IsDerivedBut run_id) (project_process run_id e process_id d).runs
unfolding project_process derive_run_lifecycle
project_process-IsDerivedBut run_id e none d h = h
project_process-IsDerivedBut run_id e (some process_id) d h =
    elim (Bool-cases (e.owner_kind == OwnerKind.operation_owner)) [
      | inl t ↦ rw t (on_run-IsDerivedBut run_id _ d.runs (λ r. refl) h)
      | inr f ↦ rw f h
    ]

project_entry-runs :
    (p : Platform) (run_id : String) (e : OwnerEvent) (d : Derived)
    → (project_entry p run_id e d).runs ≡ d.runs
unfolding project_entry
project_entry-runs p run_id e d = elim (Bool-cases (e.event_kind == "process.activity")) [
  | inl t ↦ rw t refl
  | inr f ↦ rw f refl
]

project_of_run-IsDerived :
    (p : Platform) (e : OwnerEvent) (run_id : Option String) (d : Derived)
    → All IsDerived d.runs
    → All IsDerived (project_of_run p e run_id d).runs
unfolding project_of_run project_run project_retention_hold
project_of_run-IsDerived p e none d h = h
project_of_run-IsDerived p e (some run_id) d h =
    let started =
      on_run-IsDerivedBut run_id
        (λ (r : RunProjection). with_attempt e (with_lifecycle e (event_lifecycle e.event_kind) r))
        (insert_run run_id e d.runs)
        (λ r.
          with_attempt-keeps e (with_lifecycle e (event_lifecycle e.event_kind) r)
          ∙ with_lifecycle-keeps e (event_lifecycle e.event_kind) r)
        (insert_run-IsDerivedBut run_id e d.runs h) in
    let updated =
      project_process-IsDerivedBut run_id e e.correlations.process_id (project_run run_id e d)
        started in
    let summarised = on_run-IsDerivedBut run_id (with_summary e) _ (with_summary-keeps e) updated in
    rw (project_entry-runs p run_id e _) (on_run-IsDerived run_id _ summarised)

ended-quiet :
    (r : RunProjection)
    → is_ended (effective_lifecycle r) ≡ true
    → (r.live_process_count ≡ 0) × (r.abnormal_process_count ≡ 0)
unfolding effective_lifecycle
ended-quiet r h =
    let quiet =
      λ (r : RunProjection). ltb 0 r.live_process_count || ltb 0 r.abnormal_process_count in
    elim (Bool-cases (is_ended r.owner_lifecycle && quiet r)) [
      | inl t ↦ absurd (cc (rw t at h))
      | inr f ↦
          let (live, abnormal) =
            ||-eq-false (ltb 0 r.live_process_count) (ltb 0 r.abnormal_process_count)
              (&&-right-false (is_ended r.owner_lifecycle) (quiet r) (rw f at h) f) in
          (
            omega (arith, ltb_refuted 0 r.live_process_count live),
            omega (arith, ltb_refuted 0 r.abnormal_process_count abnormal),
          )
    ]

-- Whatever event is projected: if every run showed the lifecycle that its owner and its processes give
-- it before, it does so after. A run that is shown as failed, recovered or completed then has no live
-- and no abnormal process counted.
pub project_event-IsDerived :
    (p : Platform) (e : OwnerEvent) (d : Derived)
    → All IsDerived d.runs
    → All
        (λ (r : RunProjection).
          IsDerived r
          × (is_ended r.lifecycle ≡ true
              → (r.live_process_count ≡ 0) × (r.abnormal_process_count ≡ 0)))
        (project_event p e d).runs
unfolding project_event
project_event-IsDerived p e d h =
    All-mono IsDerived _ _ (λ r derived. (derived, λ ended. ended-quiet r (rw derived at ended)))
      (project_of_run-IsDerived p e e.correlations.run_id d h)
