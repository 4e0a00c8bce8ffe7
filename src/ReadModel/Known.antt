-- ===== src/ReadModel/Known.antt =====
-- The processes that packages/kogg-operations/src/node/operations-read-model.ts projects are of known
-- kinds and abnormal classes.
use Prim.Native.String.{len, slice}
use kogg.Text.{is_safe_text, is_safe_code}
use kogg.Prelude.{
  ||-eq-true, Option-cases, all-All, ==_sound, String, String-Eq, Bool, true, false, ◌&&◌, ◌==◌,
  Option, none, some, some-injective, List, [], ◌∷◌, ◌≡◌, refl, inl, inr, All, all, includes,
  Bool-cases, &&-eq-true, if◌then◌else◌,
}
use kogg.ReadModel.Owners.{OwnerKind-Eq, OwnerKind}
use kogg.ReadModel.Events.{
  PayloadValue, text_value, number_value, SafeOwnerPayload, OwnerEvent, Platform, payload_code,
  payload_text-code, is_text, value_of,
}
use kogg.ReadModel.Validate.{
  payload_keys, closed_payload_keys, closed_values, unless, FaultCode, validate_event,
  is_valid_payload, is_valid_entry, closed_string_values,
}
use kogg.ReadModel.Tables.{ProcessProjection, Derived}
use kogg.ReadModel.Runs.{
  abnormal_process_events, process_row, update_process, upsert_process, project_process,
}
use kogg.ReadModel.Project.{project_entry, project_run, project_of_run, project_event}
use kogg.ReadModel.Holds.{project_retention_hold}
use kogg.ReadModel.MetricContracts.{process_kinds, abnormal_classes}

abbrev pub IsKnownKind : String → Type 0
IsKnownKind kind = includes process_kinds kind ≡ true

-- A process has a known kind, and a known class where it is abnormal.
abbrev pub IsKnown : ProcessProjection → Type 0
IsKnown q =
    IsKnownKind q.process_kind × (q.abnormal ≡ true → includes abnormal_classes q.state ≡ true)

-- An entry of the payload that is valid.
process_entry :
    (kind key t : String)
    → key ≡ "processKind"
    → is_valid_entry kind (key, text_value t) ≡ true
    → IsKnownKind t
unfolding is_valid_entry process_kinds
process_entry kind key t same valid =
    rw same at
      (&&-eq-true (is_safe_text t)
        (if key == "safeCode"
          then is_safe_code t
          else includes (closed_values key closed_string_values) t)
        valid).1

entry-kind :
    (kind : String) (payload : SafeOwnerPayload) (k : String)
    → All (λ x. is_valid_entry kind x ≡ true) payload
    → payload_code "processKind" payload ≡ some k
    → IsKnownKind k
unfolding payload_code
entry-kind kind [] k valid h = absurd cc
entry-kind kind ((key, text_value t) ∷ payload) k valid h =
    elim (Bool-cases (key == "processKind")) [
      | inl at_key ↦
          rw (← some-injective (rw at_key at h))
            (process_entry kind key t (==_sound key "processKind" at_key) valid.0)
      | inr other ↦ entry-kind kind payload k valid.1 (rw other at h)
    ]
entry-kind kind ((key, number_value n) ∷ payload) k valid h =
    elim (Bool-cases (key == "processKind")) [
      | inl at_key ↦ absurd (cc (rw at_key at h))
      | inr other ↦ entry-kind kind payload k valid.1 (rw other at h)
    ]

unless-none :
    (test : Bool) (code : FaultCode) (rest : Option FaultCode)
    → unless test code rest ≡ none
    → (test ≡ true) × (rest ≡ none)
unfolding unless
unless-none true code rest h = (refl, h)
unless-none false code rest h = absurd cc

-- The payload of a valid event is valid.
valid-payload :
    (p : Platform) (e : OwnerEvent)
    → validate_event p e ≡ none
    → is_valid_payload e.event_kind e.safe_payload ≡ true
unfolding validate_event
valid-payload p e valid =
    (unless-none _ _ _
      (unless-none _ _ _
        (unless-none _ _ _
          (unless-none _ _ _ (unless-none _ _ _ (unless-none _ _ _ valid).1).1).1).1).1).0

-- A valid event gives a known kind, if it gives one.
pub valid-kind :
    (p : Platform) (e : OwnerEvent) (k : String)
    → validate_event p e ≡ none
    → payload_code "processKind" e.safe_payload ≡ some k
    → IsKnownKind k
unfolding is_valid_payload
valid-kind p e k valid h =
    let (_, listed) =
      &&-eq-true
        (all (λ (x : String × PayloadValue). includes closed_payload_keys x.0) e.safe_payload)
        (all (λ (x : String × PayloadValue). includes (payload_keys e.event_kind) x.0)
            e.safe_payload
          && all (is_valid_entry e.event_kind) e.safe_payload)
        (valid-payload p e valid) in
    let (_, entries) =
      &&-eq-true
        (all (λ (x : String × PayloadValue). includes (payload_keys e.event_kind) x.0)
          e.safe_payload)
        (all (is_valid_entry e.event_kind) e.safe_payload) listed in
    entry-kind e.event_kind e.safe_payload k
      (all-All (λ x. is_valid_entry e.event_kind x ≡ true) (is_valid_entry e.event_kind)
        e.safe_payload (λ x h. h) entries)
      h

-- What holds of all members holds of one.
pub includes-All :
    (P : String → Type 0) (xs : List String) (a : String) → All P xs → includes xs a ≡ true → P a
includes-All P [] a k h = absurd cc
includes-All P (x ∷ xs) a k h = elim (Bool-cases (x == a)) [
  | inl t ↦ rw (← ==_sound x a t) k.0
  | inr f ↦ includes-All P xs a k.1 (rw f at h)
]

abnormal_state :
    (kind : String)
    → includes abnormal_process_events kind ≡ true
    → includes abnormal_classes (slice kind 8 (len kind)) ≡ true
unfolding abnormal_process_events abnormal_classes
abnormal_state kind h =
    includes-All (λ k. includes abnormal_classes (slice k 8 (len k)) ≡ true) abnormal_process_events
      kind (refl, (refl, (refl, (refl, (refl, (refl, tt)))))) h

governed-IsKnownKind : IsKnownKind "governed-command"
unfolding process_kinds
governed-IsKnownKind = refl

exited_state : includes abnormal_classes (slice "process.exited" 8 (len "process.exited")) ≡ true
unfolding abnormal_classes
exited_state = refl

-- The row that a valid event writes.
process_row-IsKnown :
    (p : Platform) (process_id run_id : String) (e : OwnerEvent)
    → validate_event p e ≡ none
    → is_text (value_of "processKind" e.safe_payload) ≡ true
    → IsKnown (process_row process_id run_id e)
unfolding process_row
process_row-IsKnown p process_id run_id e valid text = (
  rw (payload_text-code "processKind" e.safe_payload text).0
      (elim (Option-cases (payload_code "processKind" e.safe_payload)) [
        | inl absent ↦ rw absent governed-IsKnownKind
        | inr (k, given) ↦ rw given (valid-kind p e k valid given)
      ]),
  λ h.
      elim (||-eq-true (includes abnormal_process_events e.event_kind)
        (e.event_kind == "process.exited") h) [
          | inl listed ↦ abnormal_state e.event_kind listed
          | inr exited ↦ rw (==_sound e.event_kind "process.exited" exited) exited_state
        ],
)

update_process-IsKnown :
    (new old : ProcessProjection) → IsKnown new → IsKnown old → IsKnown (update_process new old)
unfolding update_process
update_process-IsKnown new old h k = (k.0, h.1)

upsert_process-IsKnown :
    (new : ProcessProjection) (ps : List ProcessProjection)
    → IsKnown new
    → All IsKnown ps
    → All IsKnown (upsert_process new ps)
unfolding upsert_process
upsert_process-IsKnown new [] k h = (k, tt)
upsert_process-IsKnown new (old ∷ ps) k h = elim (Bool-cases (old.process_id == new.process_id)) [
  | inl t ↦ rw t (update_process-IsKnown new old k h.0, h.1)
  | inr f ↦ rw f (h.0, upsert_process-IsKnown new ps k h.1)
]

module _ (p : Platform) (e : OwnerEvent) (valid : validate_event p e ≡ none)
    (text : is_text (value_of "processKind" e.safe_payload) ≡ true) where
  project_process-IsKnown :
      (run_id : String) (id : Option String) (d : Derived)
      → All IsKnown d.processes
      → All IsKnown (project_process run_id e id d).processes
  unfolding project_process
  project_process-IsKnown run_id none d h = h
  project_process-IsKnown run_id (some id) d h =
      elim (Bool-cases (e.owner_kind == OwnerKind.operation_owner)) [
        | inl t ↦ rw t (
            upsert_process-IsKnown (process_row id run_id e) d.processes
              (process_row-IsKnown p id run_id e valid text) h)
        | inr f ↦ rw f h
      ]

  project_entry-processes :
      (run_id : String) (d : Derived) → (project_entry p run_id e d).processes ≡ d.processes
  unfolding project_entry
  project_entry-processes run_id d = elim (Bool-cases (e.event_kind == "process.activity")) [
    | inl t ↦ rw t refl
    | inr f ↦ rw f refl
  ]

  project_of_run-IsKnown :
      (run_id : Option String) (d : Derived)
      → All IsKnown d.processes
      → All IsKnown (project_of_run p e run_id d).processes
  unfolding project_of_run project_run project_retention_hold
  project_of_run-IsKnown none d h = h
  project_of_run-IsKnown (some run_id) d h =
      rw (project_entry-processes run_id _)
        (project_process-IsKnown run_id e.correlations.process_id (project_run run_id e d) h)

  -- The processes that a valid event leaves are known, if those before it are.
  pub project_event-IsKnown :
      (d : Derived) → All IsKnown d.processes → All IsKnown (project_event p e d).processes
  unfolding project_event
  project_event-IsKnown d h = project_of_run-IsKnown e.correlations.run_id d h
