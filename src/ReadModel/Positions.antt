-- ===== src/ReadModel/Positions.antt =====
-- The order of a timeline entry in packages/kogg-operations/src/node/operations-read-model.ts is at
-- least one, as the `rowid` of its event is.
use kogg.Prelude.{
  arith, ℕ, suc, ◌<◌, String, String-Eq, Option, none, some, some-injective, List, [], ◌∷◌, ◌==◌,
  ◌≡◌, refl, inl, inr, All, All-append, Bool-cases, leb,
}
use kogg.ReadModel.Events.{OwnerEvent}
use kogg.ReadModel.Tables.{TimelineRow, ActivityAggregate, ReadModel}
use kogg.ReadModel.TimelinePages.{
  TimelineEntry, order_of, timeline_entry, aggregate_entry, joined, timeline_entries,
  aggregate_entries, place_entry, order_entries, ordered_entries,
}

abbrev IsPositive : TimelineEntry → Type 0
IsPositive t = 0 < t.projection_order

pub order_of-above :
    (n : ℕ) (digest : String) (es : List OwnerEvent) (order : ℕ)
    → order_of n digest es ≡ some order
    → n < order
unfolding order_of
order_of-above n digest [] order h = absurd cc
order_of-above n digest (e ∷ es) order h = elim (Bool-cases (e.event_digest == digest)) [
  | inl t ↦ rw (← some-injective (rw t at h)) (omega arith)
  | inr f ↦ let later = order_of-above (suc n) digest es order (rw f at h) in omega arith
]

joined-IsPositive :
    (order : Option ℕ) (entry : ℕ → TimelineEntry)
    → ((n : ℕ) → order ≡ some n → IsPositive (entry n))
    → All IsPositive (joined order entry)
joined-IsPositive none entry h = tt
joined-IsPositive (some n) entry h = (h n refl, tt)

timeline_entries-IsPositive :
    (run_id : String) (accepted : List OwnerEvent) (ts : List TimelineRow)
    → All IsPositive (timeline_entries run_id accepted ts)
unfolding timeline_entries timeline_entry
timeline_entries-IsPositive run_id accepted [] = tt
timeline_entries-IsPositive run_id accepted (t ∷ ts) = elim (Bool-cases (t.run_id == run_id)) [
  | inl e ↦ rw e (
      All-append IsPositive
        (joined (order_of 0 t.event_digest accepted) (λ order. timeline_entry order t))
        (timeline_entries run_id accepted ts)
        (joined-IsPositive (order_of 0 t.event_digest accepted) (λ order. timeline_entry order t)
          (λ n. order_of-above 0 t.event_digest accepted n))
        (timeline_entries-IsPositive run_id accepted ts))
  | inr e ↦ rw e (timeline_entries-IsPositive run_id accepted ts)
]

aggregate_entries-IsPositive :
    (aggregate_id : ActivityAggregate → String) (run_id : String) (accepted : List OwnerEvent)
    (rows : List ActivityAggregate)
    → All IsPositive (aggregate_entries aggregate_id run_id accepted rows)
unfolding aggregate_entries aggregate_entry
aggregate_entries-IsPositive aggregate_id run_id accepted [] = tt
aggregate_entries-IsPositive aggregate_id run_id accepted (a ∷ rows) =
    elim (Bool-cases (a.key.run_id == run_id)) [
      | inl e ↦ rw e (
          All-append IsPositive
            (joined (order_of 0 a.first_event_digest accepted)
              (λ order. aggregate_entry aggregate_id order a))
            (aggregate_entries aggregate_id run_id accepted rows)
            (joined-IsPositive (order_of 0 a.first_event_digest accepted)
              (λ order. aggregate_entry aggregate_id order a)
              (λ n. order_of-above 0 a.first_event_digest accepted n))
            (aggregate_entries-IsPositive aggregate_id run_id accepted rows))
      | inr e ↦ rw e (aggregate_entries-IsPositive aggregate_id run_id accepted rows)
    ]

module _ (P : TimelineEntry → Type 0) where
  pub place_entry-All :
      (t : TimelineEntry) (ts : List TimelineEntry) → P t → All P ts → All P (place_entry t ts)
  unfolding place_entry
  place_entry-All t [] h k = (h, tt)
  place_entry-All t (u ∷ us) h k = elim (Bool-cases (leb t.projection_order u.projection_order)) [
    | inl e ↦ rw e (h, k)
    | inr e ↦ rw e (k.0, place_entry-All t us h k.1)
  ]

  pub order_entries-All : (ts : List TimelineEntry) → All P ts → All P (order_entries ts)
  unfolding order_entries
  order_entries-All [] h = tt
  order_entries-All (t ∷ ts) h = place_entry-All t (order_entries ts) h.0 (order_entries-All ts h.1)

pub ordered_entries-IsPositive :
    (aggregate_id : ActivityAggregate → String) (m : ReadModel) (run_id : String)
    → All (λ t. 0 < t.projection_order) (ordered_entries aggregate_id m run_id)
unfolding ordered_entries
ordered_entries-IsPositive aggregate_id m run_id = order_entries-All IsPositive _ (
    All-append IsPositive (timeline_entries run_id m.accepted m.derived.timeline)
      (aggregate_entries aggregate_id run_id m.accepted m.derived.aggregates)
      (timeline_entries-IsPositive run_id m.accepted m.derived.timeline)
      (aggregate_entries-IsPositive aggregate_id run_id m.accepted m.derived.aggregates))
