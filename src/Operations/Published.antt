-- ===== src/Operations/Published.antt =====
-- The log of packages/kogg-operations/src/node/operation-registry.ts reaches the read model, by
-- `publishOwnerEvents`.
use kogg.Prelude.{
  String, String-Eq, ℕ, some, some-injective, List, ◌++◌, ◌==◌, ◌≡◌, refl, sym, false, inl, inr,
  Option-cases,
}
use kogg.Operations.Database.{EventRow, OperationRow, Database, find_operation, bump}
use kogg.Operations.Publish.{
  owner_event_of, map_owner_event, replay_owner_events, open_epoch, republish, publish_owner_events,
}
use kogg.ReadModel.Events.{OwnerEvent, Platform}
use kogg.ReadModel.Tables.{ReadModel}
use kogg.ReadModel.Ingest.{zero_digest}
use kogg.ReadModel.Replay.{delivered, refused_event, sign_event}
use kogg.ReadModel.Delivered.{IsPlaced, AreNew, Maps, replay-delivered}
use kogg.ReadModel.Unopened.{IsUnopened, unopened-StandsAt, unopened-HasOnly, replay-IsUnopened}

module _ (p : Platform) (db : Database) (owner epoch : String) where
  owner_event_of-IsPlaced :
      (previous : String) (n : ℕ) (row : EventRow) (o : OperationRow)
      → IsPlaced owner epoch previous n (owner_event_of p db owner epoch previous n row o)
  unfolding owner_event_of sign_event
  owner_event_of-IsPlaced previous n row o = record {
    of_owner = refl;
    of_epoch = refl;
    at_place = refl;
    behind = refl;
    alone = refl;
  }

  places :
      (previous : String) (n : ℕ) (row : EventRow) (e : OwnerEvent)
      → map_owner_event p db owner epoch previous n row ≡ some e
      → IsPlaced owner epoch previous n e
  unfolding map_owner_event
  places previous n row e mapped = elim (Option-cases (find_operation row.operation_id db)) [
    | inl missing ↦ absurd (cc (rw (missing, map_owner_event) at mapped))
    | inr (o, found) ↦
        let same : owner_event_of p db owner epoch previous n row o ≡ e =
          some-injective (rw (found, map_owner_event) at mapped) in
        rw (sym same) (owner_event_of-IsPlaced previous n row o)
  ]

replayed-IsUnopened :
    (p : Platform) (db : Database) (epoch other : String) (m : ReadModel)
    → (epoch == other) ≡ false
    → IsUnopened db.meta.owner_id other m
    → IsUnopened db.meta.owner_id other (replay_owner_events p db epoch m).1
unfolding replay_owner_events
replayed-IsUnopened p db epoch other m apart h =
    replay-IsUnopened db.meta.owner_id epoch other apart p
      (map_owner_event p db db.meta.owner_id epoch) (places p db db.meta.owner_id epoch) db.events
      zero_digest 0 m h

replayed-delivered :
    (p : Platform) (db : Database) (epoch : String) (m : ReadModel) (es : List OwnerEvent)
    → IsUnopened db.meta.owner_id epoch m
    → Maps p (map_owner_event p db db.meta.owner_id epoch) zero_digest 0 db.events es
    → AreNew p m.accepted es
    → ((replay_owner_events p db epoch m).0 ≡ delivered)
      × ((replay_owner_events p db epoch m).1.accepted ≡ m.accepted ++ es)
unfolding replay_owner_events
replayed-delivered p db epoch m es unopened maps new =
    replay-delivered p (map_owner_event p db db.meta.owner_id epoch) db.meta.owner_id epoch
      (places p db db.meta.owner_id epoch) db.events es zero_digest 0 m maps
      (unopened-StandsAt db.meta.owner_id epoch m unopened)
      (unopened-HasOnly db.meta.owner_id epoch m unopened) new

-- Where the replay of the log under the present epoch is refused, the log is published under the new
-- one: when the new epoch is not the present one and the read model has neither an event nor the
-- cursor of the owner in it, and the rows map to events that are valid and that the read model has
-- none of, the publication ends, with every event of the log behind the events that were accepted
-- before, in the log's order, and the registry keeps the new epoch.
pub publish_owner_events-delivered :
    (p : Platform) (next_epoch : String) (db : Database) (m : ReadModel) (es : List OwnerEvent)
    → IsUnopened db.meta.owner_id next_epoch m
    → (db.meta.owner_epoch_id == next_epoch) ≡ false
    → (replay_owner_events p db db.meta.owner_epoch_id m).0 ≡ refused_event
    → Maps p (map_owner_event p db db.meta.owner_id next_epoch) zero_digest 0 db.events es
    → AreNew p (replay_owner_events p db db.meta.owner_epoch_id m).1.accepted es
    → let (end, after, left) = publish_owner_events p next_epoch db m in
      (end ≡ delivered)
      × (left.accepted ≡ (replay_owner_events p db db.meta.owner_epoch_id m).1.accepted ++ es)
      × (after.meta.owner_epoch_id ≡ next_epoch)
unfolding publish_owner_events republish open_epoch bump
publish_owner_events-delivered p next_epoch db m es unopened apart refused maps new =
    let first = replay_owner_events p db db.meta.owner_epoch_id m in
    let still : IsUnopened db.meta.owner_id next_epoch first.1 =
      replayed-IsUnopened p db db.meta.owner_epoch_id next_epoch m apart unopened in
    let (ended, whole) = replayed-delivered p db next_epoch first.1 es still maps new in
    rw refused (ended, whole, refl)
