-- ===== src/ReadModel/Outcomes.antt =====
-- What an owner's event does to the tables of
-- packages/kogg-operations/src/node/operations-read-model.ts, written without the functions that
-- `ingest` calls.
use kogg.Prelude.{
  ◌==◌, ◌≡◌, ◌+◌, String-Eq, ℕ-Eq, Bool, true, false, ◌&&◌, ◌||◌, none, some, List, [], ◌∷◌, ◌++◌,
  map, find?, any, if◌then◌else◌, refl, ap, Bool-cases, inl, inr, ==_refl, some-injective,
  ||-eq-false,
}
use kogg.Text.{is_safe_id}
use kogg.ReadModel.Owners.{OwnerKind, OwnerKind-Eq}
use kogg.ReadModel.Lifecycles.{ProjectionLifecycle}
use kogg.ReadModel.Events.{CausalRef, OwnerEvent, Platform}
use kogg.ReadModel.Validate.{FaultCode, is_sequence, validate_event}
use kogg.ReadModel.Tables.{OwnerCursor, ConfiguredOwner, ProjectionFault, ReadModel}
use kogg.ReadModel.Changes.{append_change}
use kogg.ReadModel.Ingest.{
  IngestResult, accepted_event, duplicate_event, faulted, store_error, find_event, find_cursor,
  violates, persist_fault, reevaluate_lifecycle, record_event, ingest, make_available,
}
use kogg.ReadModel.Effects.{Leaves, ingest-Leaves}
use kogg.ReadModel.Delivered.{advanced}

-- The fault with the identifiers and the sequence that are safe to show.
abbrev pub safe_fault : OwnerEvent → FaultCode → ProjectionFault
safe_fault e code = record {
  owner_kind = e.owner_kind;
  owner_instance_id = if is_safe_id e.owner_instance_id then e.owner_instance_id else "unknown";
  epoch_id = if is_safe_id e.epoch_id then e.epoch_id else "unknown";
  owner_sequence = if is_sequence e.sequence then e.sequence else 0;
  safe_code = code;
}

-- An event of the owner's epoch has the sequence.
abbrev pub has_key_of : OwnerEvent → OwnerEvent → Bool
has_key_of e a =
    a.owner_instance_id == e.owner_instance_id
    && (a.epoch_id == e.epoch_id && a.sequence == e.sequence)

abbrev pub Outcome : Platform → OwnerEvent → ReadModel → IngestResult × ReadModel → Type 0
Outcome p e m (accepted_event, m') =
    (validate_event p e ≡ none)
    × (any (has_key_of e) m.accepted ≡ false)
    × (any (λ (a : OwnerEvent). a.event_id == e.event_id || a.event_digest == e.event_digest)
          m.accepted
        ≡ false)
    × (m'.accepted ≡ m.accepted ++ e ∷ [])
    × (m'.edges
        ≡ m.edges ++ map (λ (r : CausalRef). (e.event_digest, r.event_digest)) e.causal_parents)
    × ((c : OwnerCursor) × (find_cursor e.owner_instance_id m'.cursors ≡ some c)
        × (c.epoch_id ≡ e.epoch_id)
        × (c.sequence ≡ e.sequence)
        × (c.event_digest ≡ e.event_digest))
    × (any (λ (o : ConfiguredOwner). o.owner_kind == e.owner_kind && o.available) m'.owners ≡ true)
    × (m'.change_sequence ≡ m.change_sequence + 1)
Outcome p e m (duplicate_event, m') =
    (m' ≡ m)
    × (any (λ (a : OwnerEvent). has_key_of e a && a.event_digest == e.event_digest) m.accepted
        ≡ true)
Outcome p e m (faulted code, m') = m' ≡ record {
  projection_epoch = m.projection_epoch;
  lifecycle = ProjectionLifecycle.degraded_projection;
  change_sequence = m.change_sequence;
  cursors = m.cursors;
  owners = m.owners;
  accepted = m.accepted;
  edges = m.edges;
  derived = m.derived;
  changes = m.changes;
  faults = m.faults ++ safe_fault e code ∷ [];
  metrics = m.metrics;
}
Outcome p e m (store_error, m') = m' ≡ m

find?-none {ℓ} : {A : Type ℓ} (q : A → Bool) (xs : List A) → find? q xs ≡ none → any q xs ≡ false
find?-none q [] h = refl
find?-none q (x ∷ xs) h = elim (Bool-cases (q x)) [
  | inl t ↦ absurd (cc (rw t at h))
  | inr f ↦ rw f (find?-none q xs (rw f at h))
]

find?-any {ℓ} :
    {A : Type ℓ} (q r : A → Bool) (xs : List A) (x : A)
    → find? q xs ≡ some x
    → r x ≡ true
    → any (λ y. q y && r y) xs ≡ true
find?-any q r [] x h k = absurd cc
find?-any q r (y ∷ ys) x h k = elim (Bool-cases (q y)) [
  | inl t ↦ let same : y ≡ x = some-injective (rw t at h) in rw (t, ap r same, k) refl
  | inr f ↦ rw f (find?-any q r ys x (rw f at h) k)
]

available-now :
    (kind : OwnerKind) (os : List ConfiguredOwner)
    → any (λ (o : ConfiguredOwner). o.owner_kind == kind && o.available) (make_available kind os)
      ≡ true
unfolding make_available
available-now kind [] = rw (==_refl kind) refl
available-now kind (o ∷ os) = elim (Bool-cases (o.owner_kind == kind)) [
  | inl t ↦ rw (t, t) refl
  | inr f ↦ rw (f, f) (available-now kind os)
]

module _ (p : Platform) (e : OwnerEvent) (m : ReadModel) where
  recorded-Outcome :
      (reopened : Bool)
      → find_event e.owner_instance_id e.epoch_id e.sequence m.accepted ≡ none
      → validate_event p e ≡ none
      → violates e m ≡ false
      → Outcome p e m (accepted_event, reevaluate_lifecycle (record_event p e reopened m))
  unfolding find_event violates record_event reevaluate_lifecycle append_change
  recorded-Outcome reopened new valid fine = (
    valid,
    find?-none (has_key_of e) m.accepted new,
    (||-eq-false _ _ fine).0,
    refl,
    refl,
    advanced e m.cursors,
    available-now e.owner_kind m.owners,
    refl,
  )

  Leaves-Outcome :
      (result : IngestResult) (m' : ReadModel)
      → Leaves p e m (result, m')
      → Outcome p e m (result, m')
  unfolding find_event persist_fault
  Leaves-Outcome accepted_event m' (new, valid, fine, (reopened, left)) =
      rw left (recorded-Outcome reopened new valid fine)
  Leaves-Outcome duplicate_event m' (left, (existing, found, same)) = (
    left,
    find?-any (has_key_of e) (λ a. a.event_digest == e.event_digest) m.accepted existing found
        (rw same (==_refl e.event_digest)),
  )
  Leaves-Outcome (faulted code) m' left = left
  Leaves-Outcome store_error m' left = left

  -- An event is accepted only where it is valid, its key is new and no accepted event has its identifier
  -- or digest. It is then the last of the accepted events, its causal edges are recorded, its owner's
  -- cursor stands at it, its owner's kind is available and the change sequence is one higher. An event
  -- that faults leaves one more fault, with the safe forms of its identifiers and sequence, and the
  -- degraded lifecycle, and changes nothing else. A duplicate repeats the key and the digest of an
  -- accepted event and, like an error of the store, changes nothing.
  pub ingest-Outcome : Outcome p e m (ingest p e m)
  ingest-Outcome = Leaves-Outcome (ingest p e m).0 (ingest p e m).1 (ingest-Leaves p e m)
