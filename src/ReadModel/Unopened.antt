-- ===== src/ReadModel/Unopened.antt =====
-- A replay under one epoch into the read model of
-- packages/kogg-operations/src/node/operations-read-model.ts leaves another epoch unopened.
use kogg.Prelude.{
  All-append, ◌++◌, ==_refl, sym, Bool-cases, String-Eq, inl, inr, true-ne-false, ◌≤◌, suc, true,
  Option-cases, ◌==◌, All-mono, false, ℕ, String, Bool, Option, none, some, List, [], ◌∷◌, ◌≡◌,
  refl, All,
}
use kogg.ReadModel.Events.{OwnerEvent, Platform}
use kogg.ReadModel.Tables.{OwnerCursor, ReadModel}
use kogg.ReadModel.Ingest.{
  advance_cursor, record_event, reevaluate_lifecycle, IngestResult, accepted_event, duplicate_event,
  faulted, store_error, zero_digest, find_cursor, persist_fault, ingest,
}
use kogg.ReadModel.Replay.{is_taken_on, replay}
use kogg.ReadModel.Effects.{Leaves, ingest-Leaves}
use kogg.ReadModel.Delivered.{
  advanced, recorded-accepted, recorded-cursors, IsPlaced, is_from, StandsAt, HasOnly,
}

abbrev IsElsewhere : String → Option OwnerCursor → Type 0
IsElsewhere epoch none = Unit
IsElsewhere epoch (some c) = (c.epoch_id == epoch) ≡ false

-- No event of the owner's epoch is accepted, and its cursor is not in it.
abbrev pub IsUnopened : String → String → ReadModel → Type 0
IsUnopened owner epoch m =
    All (λ (a : OwnerEvent). is_from owner epoch a ≡ false) m.accepted
    × IsElsewhere epoch (find_cursor owner m.cursors)

elsewhere-StandsAt :
    (owner epoch : String) (c : Option OwnerCursor)
    → IsElsewhere epoch c
    → StandsAt owner epoch zero_digest 0 c
elsewhere-StandsAt owner epoch none h = refl
elsewhere-StandsAt owner epoch (some c) h = (h, refl)

pub unopened-StandsAt :
    (owner epoch : String) (m : ReadModel)
    → IsUnopened owner epoch m
    → StandsAt owner epoch zero_digest 0 (find_cursor owner m.cursors)
unopened-StandsAt owner epoch m h = elsewhere-StandsAt owner epoch (find_cursor owner m.cursors) h.1

pub unopened-HasOnly :
    (owner epoch : String) (m : ReadModel)
    → IsUnopened owner epoch m
    → HasOnly owner epoch 0 m.accepted
unopened-HasOnly owner epoch m h =
    All-mono (λ (a : OwnerEvent). is_from owner epoch a ≡ false)
      (λ (a : OwnerEvent). is_from owner epoch a ≡ true → a.sequence ≤ 0) m.accepted
      (λ a out from. absurd (true-ne-false from out)) h.0

module _ (owner epoch other : String) (apart : (epoch == other) ≡ false) where
  record-IsUnopened :
      (p : Platform) (e : OwnerEvent) (previous : String) (n : ℕ) (reopened : Bool) (m : ReadModel)
      → IsPlaced owner epoch previous n e
      → IsUnopened owner other m
      → IsUnopened owner other (reevaluate_lifecycle (record_event p e reopened m))
  record-IsUnopened p e previous n reopened m placed h =
      let (c, found, same, at, digest) = advanced e m.cursors in
      let here : find_cursor owner (advance_cursor e m.cursors) ≡ some c =
        rw (sym placed.of_owner) found in
      let out : is_from owner other e ≡ false =
        rw (placed.of_epoch, apart, placed.of_owner, ==_refl owner) refl in
      let all : All (λ (a : OwnerEvent). is_from owner other a ≡ false) (m.accepted ++ e ∷ []) =
        All-append (λ (a : OwnerEvent). is_from owner other a ≡ false) m.accepted (e ∷ []) h.0
          (out, tt) in
      let where_left : IsElsewhere other (find_cursor owner (advance_cursor e m.cursors)) =
        rw here (rw (same, placed.of_epoch) apart) in
      (rw (recorded-accepted p e reopened m) all, rw (recorded-cursors p e reopened m) where_left)

  left-IsUnopened :
      (p : Platform) (e : OwnerEvent) (previous : String) (n : ℕ) (m : ReadModel)
      → IsPlaced owner epoch previous n e
      → IsUnopened owner other m
      → (r : IngestResult × ReadModel) → Leaves p e m r
      → IsUnopened owner other r.1
  unfolding persist_fault
  left-IsUnopened p e previous n m placed h (accepted_event, m')
        (new, valid, fresh, (reopened, left)) =
      rw left (record-IsUnopened p e previous n reopened m placed h)
  left-IsUnopened p e previous n m placed h (duplicate_event, m') (left, _) = rw left h
  left-IsUnopened p e previous n m placed h (faulted code, m') left = rw left h
  left-IsUnopened p e previous n m placed h (store_error, m') left = rw left h

  module _ {Row : Type 0} (p : Platform) (map_event : String → ℕ → Row → Option OwnerEvent)
      (places : (previous : String) (n : ℕ) (row : Row) (e : OwnerEvent)
        → map_event previous n row ≡ some e
        → IsPlaced owner epoch previous n e) where
    pub replay-IsUnopened :
        (rows : List Row) (previous : String) (n : ℕ) (m : ReadModel)
        → IsUnopened owner other m
        → IsUnopened owner other (replay p map_event previous n rows m).1
    unfolding replay
    replay-IsUnopened [] previous n m h = h
    replay-IsUnopened (row ∷ rows) previous n m h =
        elim (Option-cases (map_event previous (suc n) row)) [
          | inl missing ↦ rw (missing, replay) h
          | inr (e, mapped) ↦
              let next =
                left-IsUnopened p e previous (suc n) m (places previous (suc n) row e mapped) h
                  (ingest p e m) (ingest-Leaves p e m) in
              elim (Bool-cases (is_taken_on (ingest p e m).0)) [
                | inl t ↦
                    rw (mapped, replay, t)
                      (replay-IsUnopened rows e.event_digest (suc n) (ingest p e m).1 next)
                | inr f ↦ rw (mapped, replay, f) next
              ]
        ]
