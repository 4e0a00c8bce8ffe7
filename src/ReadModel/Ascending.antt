-- ===== src/ReadModel/Ascending.antt =====
-- The orders of the entries of a timeline rise, where no two rows stand for one event:
-- packages/kogg-operations/src/node/operations-read-model.ts.
use mathlib.Core.List.{append_assoc}
use kogg.Prelude.{
  arith, ℕ, ℕ-Eq, ◌<◌, String, String-Eq, true, false, List, [], ◌∷◌, ◌++◌, ◌==◌, ◌≡◌, refl, ap,
  ◌∙◌, inl, inr, All, All-mono, Bool-cases, leb, Distinct, map,
}
use kogg.ReadModel.Events.{OwnerEvent}
use kogg.ReadModel.Tables.{TimelineRow, ActivityAggregate, Derived, ReadModel}
use kogg.ReadModel.TimelinePages.{
  TimelineEntry, order_of, timeline_entry, aggregate_entry, joined, timeline_entries,
  aggregate_entries, place_entry, order_entries, ordered_entries,
}
use kogg.ReadModel.Positions.{place_entry-All, order_entries-All}
use kogg.ReadModel.TimelineRead.{IsAscending}
use kogg.ReadModel.Places.{Place, digests_of, IsApart, AreApart, positions, positions-AreApart}

below : (a b : ℕ) → leb a b ≡ true → (a == b) ≡ false → a < b
below a b h k = ground arith

above : (a b : ℕ) → leb a b ≡ false → b < a
above a b h = ground arith

place_entry-IsAscending :
    (t : TimelineEntry) (ts : List TimelineEntry)
    → All (IsApart t) ts
    → IsAscending ts
    → IsAscending (place_entry t ts)
unfolding place_entry
place_entry-IsAscending t [] h k = (tt, tt)
place_entry-IsAscending t (u ∷ us) h k =
    elim (Bool-cases (leb t.projection_order u.projection_order)) [
      | inl e ↦
          let first = below t.projection_order u.projection_order e h.0 in
          rw e (
            (
              first,
              All-mono (λ v. u.projection_order < v.projection_order)
                  (λ v. t.projection_order < v.projection_order) us (λ v later. omega arith) k.0,
            ),
            k,
          )
      | inr e ↦ rw e (
        place_entry-All (λ v. u.projection_order < v.projection_order) t us
            (above t.projection_order u.projection_order e) k.0,
        place_entry-IsAscending t us h.1 k.1,
      )
    ]

order_entries-IsAscending : (ts : List TimelineEntry) → AreApart ts → IsAscending (order_entries ts)
unfolding order_entries
order_entries-IsAscending [] h = tt
order_entries-IsAscending (t ∷ ts) h =
    place_entry-IsAscending t (order_entries ts) (order_entries-All (IsApart t) ts h.0)
      (order_entries-IsAscending ts h.1)

timeline_entry-order : (t : TimelineRow) (n : ℕ) → (timeline_entry n t).projection_order ≡ n
unfolding timeline_entry
timeline_entry-order t n = refl

aggregate_entry-order :
    (aggregate_id : ActivityAggregate → String) (a : ActivityAggregate) (n : ℕ)
    → (aggregate_entry aggregate_id n a).projection_order ≡ n
unfolding aggregate_entry
aggregate_entry-order aggregate_id a n = refl

-- The digests of the events that the rows of the store stand for.
abbrev pub timeline_digests : List TimelineRow → List String
timeline_digests ts = map (λ (t : TimelineRow). t.event_digest) ts

abbrev pub aggregate_digests : List ActivityAggregate → List String
aggregate_digests rows = map (λ (a : ActivityAggregate). a.first_event_digest) rows

abbrev pub row_digests : Derived → List String
row_digests d = timeline_digests d.timeline ++ aggregate_digests d.aggregates

module _ (aggregate_id : ActivityAggregate → String) (run_id : String) where
  abbrev timeline_place : TimelineRow → Place
  timeline_place t = record {
    digest = t.event_digest;
    is_chosen = t.run_id == run_id;
    entry_at = λ order. timeline_entry order t;
    at_order = timeline_entry-order t;
  }

  abbrev aggregate_place : ActivityAggregate → Place
  aggregate_place a = record {
    digest = a.first_event_digest;
    is_chosen = a.key.run_id == run_id;
    entry_at = λ order. aggregate_entry aggregate_id order a;
    at_order = aggregate_entry-order aggregate_id a;
  }

  abbrev places : List TimelineRow → List ActivityAggregate → List Place
  places [] [] = []
  places [] (a ∷ rows) = aggregate_place a ∷ places [] rows
  places (t ∷ ts) rows = timeline_place t ∷ places ts rows

  places-digests :
      (ts : List TimelineRow) (rows : List ActivityAggregate)
      → digests_of (places ts rows) ≡ timeline_digests ts ++ aggregate_digests rows
  places-digests [] [] = refl
  places-digests [] (a ∷ rows) = ap (λ l. a.first_event_digest ∷ l) (places-digests [] rows)
  places-digests (t ∷ ts) rows = ap (λ l. t.event_digest ∷ l) (places-digests ts rows)

  entries-positions :
      (accepted : List OwnerEvent) (ts : List TimelineRow) (rows : List ActivityAggregate)
      → timeline_entries run_id accepted ts ++ aggregate_entries aggregate_id run_id accepted rows
        ≡ positions accepted (places ts rows)
  unfolding timeline_entries aggregate_entries
  entries-positions accepted [] [] = refl
  entries-positions accepted [] (a ∷ rows) = elim (Bool-cases (a.key.run_id == run_id)) [
    | inl e ↦ rw e (
        ap
          (λ l.
            joined (order_of 0 a.first_event_digest accepted)
              (λ order. aggregate_entry aggregate_id order a)
            ++ l)
          (entries-positions accepted [] rows))
    | inr e ↦ rw e (entries-positions accepted [] rows)
  ]
  entries-positions accepted (t ∷ ts) rows = elim (Bool-cases (t.run_id == run_id)) [
    | inl e ↦
        let first = joined (order_of 0 t.event_digest accepted) (λ order. timeline_entry order t) in
        rw e (
          append_assoc first (timeline_entries run_id accepted ts)
            (aggregate_entries aggregate_id run_id accepted rows)
          ∙ ap (λ l. first ++ l) (entries-positions accepted ts rows))
    | inr e ↦ rw e (entries-positions accepted ts rows)
  ]

-- Where no two rows stand for one event, the orders of a run's entries rise.
pub ordered_entries-IsAscending :
    (aggregate_id : ActivityAggregate → String) (m : ReadModel) (run_id : String)
    → Distinct (row_digests m.derived)
    → IsAscending (ordered_entries aggregate_id m run_id)
unfolding ordered_entries
ordered_entries-IsAscending aggregate_id m run_id h =
    let d = m.derived in
    let xs = places aggregate_id run_id d.timeline d.aggregates in
    rw (entries-positions aggregate_id run_id m.accepted d.timeline d.aggregates) (
      order_entries-IsAscending (positions m.accepted xs) (
        positions-AreApart m.accepted xs
          (rw (places-digests aggregate_id run_id d.timeline d.aggregates) h)))
