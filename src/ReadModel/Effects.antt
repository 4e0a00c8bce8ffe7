-- ===== src/ReadModel/Effects.antt =====
-- What `ingest` of packages/kogg-operations/src/node/operations-read-model.ts leaves, by how it ends.
use kogg.Prelude.{
  ==_sound, String-Eq, ℕ-Eq, Bool, true, false, none, some, ◌==◌, ◌≡◌, refl, inl, inr, all,
  Bool-cases, Option-cases, ==_refl,
}
use kogg.ReadModel.Events.{OwnerEvent, Platform}
use kogg.ReadModel.Validate.{FaultCode, validate_event}
use kogg.ReadModel.Tables.{ReadModel}
use kogg.ReadModel.Ingest.{
  IngestResult, accepted_event, duplicate_event, faulted, store_error, find_event, find_cursor,
  has_parent, violates, Verdict, refused_by, follows, reopens, judge, persist_fault, reject,
  reevaluate_lifecycle, record_event, accept, ingest_new, ingest_valid, ingest_checked, ingest,
}
use kogg.ReadModel.Chained.{find_event-new}

-- Only an accepted event is recorded; a fault is recorded as one, and nothing else changes.
abbrev pub Leaves : Platform → OwnerEvent → ReadModel → IngestResult × ReadModel → Type 0
Leaves p e m (accepted_event, m') =
    (find_event e.owner_instance_id e.epoch_id e.sequence m.accepted ≡ none)
    × (validate_event p e ≡ none)
    × (violates e m ≡ false)
    × ((reopened : Bool) × (m' ≡ reevaluate_lifecycle (record_event p e reopened m)))
Leaves p e m (duplicate_event, m') =
    (m' ≡ m)
    × ((existing : OwnerEvent) × (find_event e.owner_instance_id e.epoch_id e.sequence m.accepted
          ≡ some existing)
        × (existing.event_digest ≡ e.event_digest))
Leaves p e m (faulted code, m') = m' ≡ persist_fault e code m
Leaves p e m (store_error, m') = m' ≡ m

module _ (p : Platform) (e : OwnerEvent) (m : ReadModel) where
  reject-Leaves : (code : FaultCode) → Leaves p e m (reject e code m)
  unfolding reject
  reject-Leaves code = refl

  accept-Leaves :
      (reopened : Bool)
      → find_event e.owner_instance_id e.epoch_id e.sequence m.accepted ≡ none
      → validate_event p e ≡ none
      → Leaves p e m (accept p e reopened m)
  unfolding accept
  accept-Leaves reopened new valid =
      elim (Bool-cases (all (has_parent m.accepted) e.causal_parents)) [
        | inr f ↦ rw f (reject-Leaves FaultCode.causal_parent_missing)
        | inl t ↦ rw t (elim (Bool-cases (violates e m)) [
          | inl bad ↦ rw bad refl
          | inr fine ↦ rw fine (new, valid, fine, (reopened, refl))
        ])
      ]

  ingest_new-Leaves :
      (v : Verdict)
      → find_event e.owner_instance_id e.epoch_id e.sequence m.accepted ≡ none
      → validate_event p e ≡ none
      → Leaves p e m (ingest_new p e v m)
  unfolding ingest_new
  ingest_new-Leaves (refused_by code) new valid = reject-Leaves code
  ingest_new-Leaves follows new valid = accept-Leaves false new valid
  ingest_new-Leaves reopens new valid = accept-Leaves true new valid

  pub ingest-Leaves : Leaves p e m (ingest p e m)
  unfolding ingest ingest_checked ingest_valid
  ingest-Leaves = elim (Option-cases (validate_event p e)) [
    | inr (code, invalid) ↦ rw invalid (reject-Leaves code)
    | inl valid ↦
        rw valid
          (elim (Option-cases (find_event e.owner_instance_id e.epoch_id e.sequence m.accepted)) [
            | inr (existing, found) ↦
                rw found (elim (Bool-cases (existing.event_digest == e.event_digest)) [
                  | inl same ↦
                      rw same (
                        refl,
                        (existing, found, ==_sound existing.event_digest e.event_digest same),
                      )
                  | inr other ↦ rw other (reject-Leaves FaultCode.owner_sequence_conflict)
                ])
            | inl new ↦
                rw new (
                  ingest_new-Leaves (judge e (find_cursor e.owner_instance_id m.cursors)) new valid)
          ])
  ]

ingest-found :
    (p : Platform) (e : OwnerEvent) (m : ReadModel)
    → validate_event p e ≡ none
    → find_event e.owner_instance_id e.epoch_id e.sequence m.accepted ≡ some e
    → ingest p e m ≡ (duplicate_event, m)
unfolding ingest ingest_checked ingest_valid
ingest-found p e m valid found = rw (valid, found, ==_refl e.event_digest) refl

recorded-found :
    (p : Platform) (e : OwnerEvent) (reopened : Bool) (m : ReadModel)
    → find_event e.owner_instance_id e.epoch_id e.sequence m.accepted ≡ none
    → find_event e.owner_instance_id e.epoch_id e.sequence
        (reevaluate_lifecycle (record_event p e reopened m)).accepted
      ≡ some e
unfolding record_event reevaluate_lifecycle
recorded-found p e reopened m new = find_event-new m.accepted e new

-- An event that has been accepted is a duplicate when it arrives again, and changes nothing then.
pub ingest-again :
    (p : Platform) (e : OwnerEvent) (m m' : ReadModel)
    → ingest p e m ≡ (accepted_event, m')
    → ingest p e m' ≡ (duplicate_event, m')
ingest-again p e m m' h =
    let (new, valid, _, (reopened, left)) = rw h at (ingest-Leaves p e m) in
    ingest-found p e m' valid (rw left (recorded-found p e reopened m new))
