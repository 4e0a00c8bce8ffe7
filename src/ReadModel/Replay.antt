-- ===== src/ReadModel/Replay.antt =====
-- How an owner sends its log to the read model: the loops of `replayOwnerEvents` in
-- packages/kogg-operations/src/node/operation-registry.ts and of `publish` in
-- packages/kogg-core/src/node/diagnostic-owner-journal.ts, over the function that makes an event of a
-- row. An event is made of the digest of the one before it, its place in the log
-- and its row.
use kogg.Prelude.{ℕ, suc, String, Bool, true, false, Option, none, some, List, [], ◌∷◌}
use kogg.ReadModel.Events.{OwnerEvent, Platform}
use kogg.ReadModel.Canonical.{owner_event_digest}
use kogg.ReadModel.Tables.{ReadModel}
use kogg.ReadModel.Ingest.{
  IngestResult, accepted_event, duplicate_event, faulted, store_error, ingest,
}

-- How a replay ends: the whole log was taken, an event was refused, or a row could not be mapped and
-- the error was thrown on.
pub data ReplayEnd : Type 0 where
  delivered refused_event mapping_failed : ReplayEnd

-- Whether `ingest` returns.
unfoldable pub is_taken_on : IngestResult → Bool
is_taken_on accepted_event = true
is_taken_on duplicate_event = true
is_taken_on (faulted code) = false
is_taken_on store_error = false

-- The event with its own digest.
unfoldable pub sign_event : Platform → OwnerEvent → OwnerEvent
sign_event p e = record e { event_digest = owner_event_digest p e }

module _ {Row : Type 0} (p : Platform) (map_event : String → ℕ → Row → Option OwnerEvent) where
  -- The rows from behind the first `n`, whose last event has the digest `previous`.
  unfoldable pub replay : String → ℕ → List Row → ReadModel → ReplayEnd × ReadModel
  replay previous n [] m = (delivered, m)
  replay previous n (row ∷ rows) m = elim (map_event previous (suc n) row) [
    | none ↦ (mapping_failed, m)
    | some e ↦ elim (is_taken_on (ingest p e m).0) [
      | true ↦ replay e.event_digest (suc n) rows (ingest p e m).1
      | false ↦ (refused_event, (ingest p e m).1)
    ]
  ]
