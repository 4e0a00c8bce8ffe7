-- ===== src/ReadModel/Separate.antt =====
-- No two rows of the timeline and the activity stand for one event, whatever `ingest` of
-- packages/kogg-operations/src/node/operations-read-model.ts takes in.
use mathlib.Core.List.{append_assoc}
use kogg.Prelude.{
  String, String-Eq, Bool, true, false, ◌||◌, Option, none, some, List, [], ◌∷◌, ◌++◌, ◌==◌, ◌⊎◌,
  ◌≡◌, refl, ap, inl, inr, any, map, Bool-cases, ||-eq-false, includes, includes-head,
  includes-cons, includes-append, includes-append_left, includes-append_right, Distinct,
  Distinct-snoc, Distinct-insert, true-ne-false,
}
use kogg.ReadModel.Owners.{OwnerKind, OwnerKind-Eq}
use kogg.ReadModel.Events.{OwnerEvent, Platform}
use kogg.ReadModel.Validate.{FaultCode}
use kogg.ReadModel.Tables.{TimelineRow, ActivityKey, ActivityAggregate, Derived, ReadModel}
use kogg.ReadModel.Runs.{project_process}
use kogg.ReadModel.Holds.{project_retention_hold}
use kogg.ReadModel.Project.{
  same_key, project_activity, timeline_row, project_entry, project_run, project_of_run,
  project_event, activity_key,
}
use kogg.ReadModel.Ingest.{
  IngestResult, accepted_event, duplicate_event, faulted, store_error, violates, persist_fault,
  reevaluate_lifecycle, record_event, ingest,
}
use kogg.ReadModel.Effects.{Leaves, ingest-Leaves}
use kogg.ReadModel.Rebuilt.{ingest_all}
use kogg.ReadModel.Ascending.{timeline_digests, aggregate_digests, row_digests}

-- The digests after an event are those before it, or that of the event has joined them.
record IsGrown (x : String) (before after : List String) : Type 0 where
  stays_distinct : Distinct before → includes before x ≡ false → Distinct after
  nothing_else : (a : String) → includes after a ≡ true → (includes before a ≡ true) ⊎ (x ≡ a)

IsGrown-same : (x : String) (ds : List String) → IsGrown x ds ds
IsGrown-same x ds = record { stays_distinct = λ h k. h; nothing_else = λ a h. inl h }

IsGrown-snoc : (x : String) (ds : List String) → IsGrown x ds (ds ++ x ∷ [])
IsGrown-snoc x ds = record {
  stays_distinct = λ h k. Distinct-snoc ds x h k;
  nothing_else = λ a h. elim (includes-append ds (x ∷ []) a h) [
    | inl l ↦ inl l
    | inr r ↦ elim (includes-cons x [] a r) [ inl same ↦ inr same | inr empty ↦ absurd cc ]
  ];
}

IsGrown-insert : (x : String) (ds es : List String) → IsGrown x (ds ++ es) (ds ++ x ∷ es)
IsGrown-insert x ds es = record {
  stays_distinct = λ h k. Distinct-insert ds es x h k;
  nothing_else = λ a h. elim (includes-append ds (x ∷ es) a h) [
    | inl l ↦ inl (includes-append_left ds es a l)
    | inr r ↦ elim (includes-cons x es a r) [
      | inl same ↦ inr same
      | inr later ↦ inl (includes-append_right ds es a later)
    ]
  ];
}

timeline_digests-snoc :
    (run_id : String) (e : OwnerEvent) (ts : List TimelineRow)
    → timeline_digests (ts ++ timeline_row run_id e ∷ [])
      ≡ timeline_digests ts ++ e.event_digest ∷ []
unfolding timeline_row
timeline_digests-snoc run_id e [] = refl
timeline_digests-snoc run_id e (t ∷ ts) =
    ap (λ l. t.event_digest ∷ l) (timeline_digests-snoc run_id e ts)

-- An aggregate keeps the event that it began with.
aggregate_digests-project :
    (p : Platform) (key : ActivityKey) (e : OwnerEvent) (rows : List ActivityAggregate)
    → (aggregate_digests (project_activity p key e rows) ≡ aggregate_digests rows)
      ⊎ (aggregate_digests (project_activity p key e rows)
          ≡ aggregate_digests rows ++ e.event_digest ∷ [])
unfolding project_activity
aggregate_digests-project p key e [] = inr refl
aggregate_digests-project p key e (a ∷ rows) = elim (Bool-cases (same_key a.key key)) [
  | inl t ↦ inl (rw t refl)
  | inr f ↦ elim (aggregate_digests-project p key e rows) [
    | inl same ↦ inl (rw f (ap (λ l. a.first_event_digest ∷ l) same))
    | inr more ↦ inr (rw f (ap (λ l. a.first_event_digest ∷ l) more))
  ]
]

project_entry-IsGrown :
    (p : Platform) (run_id : String) (e : OwnerEvent) (d : Derived)
    → IsGrown e.event_digest (row_digests d) (row_digests (project_entry p run_id e d))
unfolding project_entry
project_entry-IsGrown p run_id e d =
    let ts = timeline_digests d.timeline in
    let rows = aggregate_digests d.aggregates in
    elim (Bool-cases (e.event_kind == "process.activity")) [
      | inr f ↦
          rw
            (
              f,
              timeline_digests-snoc run_id e d.timeline,
              append_assoc ts (e.event_digest ∷ []) rows,
            )
            (IsGrown-insert e.event_digest ts rows)
      | inl t ↦ elim (aggregate_digests-project p (activity_key p run_id e) e d.aggregates) [
        | inl same ↦ rw (t, same) (IsGrown-same e.event_digest (ts ++ rows))
        | inr more ↦
            rw (t, more, ← append_assoc ts rows (e.event_digest ∷ []))
              (IsGrown-snoc e.event_digest (ts ++ rows))
      ]
    ]

project_process-rows :
    (run_id : String) (e : OwnerEvent) (process_id : Option String) (d : Derived)
    → row_digests (project_process run_id e process_id d) ≡ row_digests d
unfolding project_process
project_process-rows run_id e none d = refl
project_process-rows run_id e (some process_id) d =
    elim (Bool-cases (e.owner_kind == OwnerKind.operation_owner)) [
      | inl t ↦ rw t refl
      | inr f ↦ rw f refl
    ]

project_entry-from :
    (p : Platform) (run_id : String) (e : OwnerEvent) (d d' : Derived)
    → row_digests d' ≡ row_digests d
    → IsGrown e.event_digest (row_digests d) (row_digests (project_entry p run_id e d'))
project_entry-from p run_id e d d' same = rw same at (project_entry-IsGrown p run_id e d')

project_of_run-IsGrown :
    (p : Platform) (e : OwnerEvent) (run_id : Option String) (d : Derived)
    → IsGrown e.event_digest (row_digests d) (row_digests (project_of_run p e run_id d))
unfolding project_of_run project_run project_retention_hold
project_of_run-IsGrown p e none d = IsGrown-same e.event_digest (row_digests d)
project_of_run-IsGrown p e (some run_id) d =
    project_entry-from p run_id e d _
      (project_process-rows run_id e e.correlations.process_id (project_run run_id e d))

abbrev event_digests : List OwnerEvent → List String
event_digests es = map (λ (e : OwnerEvent). e.event_digest) es

-- No two rows of the store stand for one event, and each stands for an accepted one.
abbrev pub IsSeparate : ReadModel → Type 0
IsSeparate m =
    Distinct (row_digests m.derived)
    × ((a : String)
        → includes (row_digests m.derived) a ≡ true
        → includes (event_digests m.accepted) a ≡ true)

event_digests-snoc :
    (es : List OwnerEvent) (e : OwnerEvent)
    → event_digests (es ++ e ∷ []) ≡ event_digests es ++ e.event_digest ∷ []
event_digests-snoc [] e = refl
event_digests-snoc (x ∷ es) e = ap (λ l. x.event_digest ∷ l) (event_digests-snoc es e)

-- The digest of an event that repeats none is new.
fresh-digest :
    (e : OwnerEvent) (es : List OwnerEvent)
    → any (λ (a : OwnerEvent). a.event_id == e.event_id || a.event_digest == e.event_digest) es
      ≡ false
    → includes (event_digests es) e.event_digest ≡ false
fresh-digest e [] h = refl
fresh-digest e (a ∷ es) h =
    elim (Bool-cases (a.event_id == e.event_id || a.event_digest == e.event_digest)) [
      | inl t ↦ true-ne-false refl (rw t at h)
      | inr f ↦
          let (_, other) =
            ||-eq-false (a.event_id == e.event_id) (a.event_digest == e.event_digest) f in
          rw other (fresh-digest e es (rw f at h))
    ]

fresh_when :
    (e : OwnerEvent) (m : ReadModel)
    → violates e m ≡ false
    → includes (event_digests m.accepted) e.event_digest ≡ false
unfolding violates
fresh_when e m h = fresh-digest e m.accepted (
    (||-eq-false
      (any (λ (a : OwnerEvent). a.event_id == e.event_id || a.event_digest == e.event_digest)
        m.accepted)
      _ h).0)

recorded-IsSeparate :
    (p : Platform) (e : OwnerEvent) (reopened : Bool) (m : ReadModel)
    → violates e m ≡ false
    → IsSeparate m
    → IsSeparate (reevaluate_lifecycle (record_event p e reopened m))
unfolding record_event reevaluate_lifecycle project_event
recorded-IsSeparate p e reopened m fresh h =
    let grown = project_of_run-IsGrown p e e.correlations.run_id m.derived in
    let unseen = fresh_when e m fresh in
    (
      grown.stays_distinct h.0
          (elim (Bool-cases (includes (row_digests m.derived) e.event_digest)) [
            | inl t ↦ true-ne-false (h.1 e.event_digest t) unseen
            | inr f ↦ f
          ]),
      λ a there. rw (event_digests-snoc m.accepted e) (elim (grown.nothing_else a there) [
        | inl before ↦
            includes-append_left (event_digests m.accepted) (e.event_digest ∷ []) a (h.1 a before)
        | inr same ↦
            includes-append_right (event_digests m.accepted) (e.event_digest ∷ []) a
              (rw (← same) (includes-head e.event_digest []))
      ]),
    )

faulted-IsSeparate :
    (e : OwnerEvent) (code : FaultCode) (m : ReadModel)
    → IsSeparate m
    → IsSeparate (persist_fault e code m)
unfolding persist_fault
faulted-IsSeparate e code m h = h

Leaves-IsSeparate :
    (p : Platform) (e : OwnerEvent) (m : ReadModel) (result : IngestResult) (m' : ReadModel)
    → IsSeparate m
    → Leaves p e m (result, m')
    → IsSeparate m'
Leaves-IsSeparate p e m accepted_event m' h (_, _, fresh, (reopened, left)) =
    rw left (recorded-IsSeparate p e reopened m fresh h)
Leaves-IsSeparate p e m duplicate_event m' h (left, _) = rw left h
Leaves-IsSeparate p e m (faulted code) m' h left = rw left (faulted-IsSeparate e code m h)
Leaves-IsSeparate p e m store_error m' h left = rw left h

pub ingest_all-IsSeparate :
    (p : Platform) (es : List OwnerEvent) (m : ReadModel)
    → IsSeparate m
    → IsSeparate (ingest_all p es m)
ingest_all-IsSeparate p [] m h = h
ingest_all-IsSeparate p (e ∷ es) m h =
    ingest_all-IsSeparate p es (ingest p e m).1
      (Leaves-IsSeparate p e m (ingest p e m).0 (ingest p e m).1 h (ingest-Leaves p e m))
