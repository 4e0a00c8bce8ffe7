-- ===== src/ReadModel/Held.antt =====
-- What the retention of packages/kogg-operations/src/node/operations-read-model.ts leaves in place.
use kogg.Prelude.{
  filter-filter_wider, ℕ-Eq, ◌&&◌, filter-All, ◌∙◌, String, String-Eq, true, false, not, ◌==◌, List,
  [], ◌∷◌, ◌≡◌, refl, inl, inr, map, filter, All, All-mono, Bool-cases, length,
}
use kogg.ReadModel.Canonical.{before, insert_entry, sort_entries}
use kogg.ReadModel.Events.{Platform}
use kogg.ReadModel.Tables.{
  RunProjection, ProcessProjection, TimelineRow, ActivityAggregate, RetentionHold, Derived,
  MetricValue, ReadModel,
}
use kogg.ReadModel.Retention.{
  is_held, is_expired_run, expired_runs, is_expired_aggregate, delete_run, expire_run, expire_runs,
  expire_rest, conclude_retention, apply_retention,
}

-- The rows about a run are the same in both.
abbrev pub Keeps : String → Derived → Derived → Type 0
Keeps id d d' =
    (filter (λ (r : RunProjection). r.run_id == id) d'.runs
      ≡ filter (λ (r : RunProjection). r.run_id == id) d.runs)
    × (filter (λ (r : ProcessProjection). r.run_id == id) d'.processes
        ≡ filter (λ (r : ProcessProjection). r.run_id == id) d.processes)
    × (filter (λ (t : TimelineRow). t.run_id == id) d'.timeline
        ≡ filter (λ (t : TimelineRow). t.run_id == id) d.timeline)
    × (filter (λ (a : ActivityAggregate). a.key.run_id == id) d'.aggregates
        ≡ filter (λ (a : ActivityAggregate). a.key.run_id == id) d.aggregates)
    × (filter (λ (h : RetentionHold). h.run_id == id) d'.holds
        ≡ filter (λ (h : RetentionHold). h.run_id == id) d.holds)

kept_test :
    (id other s : String) → (other == id) ≡ false → (s == id) ≡ true → not (s == other) ≡ true
kept_test id other s h e = elim (Bool-cases (s == other)) [
  | inl t ↦ let same : s ≡ other = (String-Eq.beq_iff s other).0 t in absurd cc
  | inr f ↦ rw f refl
]

delete_run-Keeps :
    (id other : String) (d : Derived) → (other == id) ≡ false → Keeps id d (delete_run other d)
unfolding delete_run
delete_run-Keeps id other d h = (
  filter-filter_wider (λ r. r.run_id == id) (λ r. not (r.run_id == other))
      (λ r. kept_test id other r.run_id h) d.runs,
  filter-filter_wider (λ r. r.run_id == id) (λ r. not (r.run_id == other))
      (λ r. kept_test id other r.run_id h) d.processes,
  filter-filter_wider (λ t. t.run_id == id) (λ t. not (t.run_id == other))
      (λ t. kept_test id other t.run_id h) d.timeline,
  refl,
  filter-filter_wider (λ t. t.run_id == id) (λ t. not (t.run_id == other))
      (λ t. kept_test id other t.run_id h) d.holds,
)

Keeps-trans : (id : String) (a b c : Derived) → Keeps id a b → Keeps id b c → Keeps id a c
Keeps-trans id a b c (r, p, t, g, h) (r', p', t', g', h') = (r' ∙ r, p' ∙ p, t' ∙ t, g' ∙ g, h' ∙ h)

expire_runs-Keeps :
    (id : String) (ids : List String) (m : ReadModel)
    → All (λ other. (other == id) ≡ false) ids
    → Keeps id m.derived (expire_runs ids m).derived
unfolding expire_runs expire_run
expire_runs-Keeps id [] m h = (refl, refl, refl, refl, refl)
expire_runs-Keeps id (other ∷ ids) m h =
    Keeps-trans id m.derived (delete_run other m.derived)
      (expire_runs ids (expire_run other m)).derived (delete_run-Keeps id other m.derived h.0)
      (expire_runs-Keeps id ids (expire_run other m) h.1)

-- Sorting keeps what holds of all keys.
module _ (P : String → Type 0) where
  insert_entry-All :
      (e : String × String) (xs : List (String × String))
      → P e.0
      → All (λ x. P x.0) xs
      → All (λ x. P x.0) (insert_entry e xs)
  insert_entry-All e [] k h = (k, tt)
  insert_entry-All e (x ∷ xs) k h = elim (Bool-cases (before e.0 x.0)) [
    | inl t ↦ rw t (k, h)
    | inr f ↦ rw f (h.0, insert_entry-All e xs k h.1)
  ]

  sort_entries-All :
      (xs : List (String × String)) → All (λ x. P x.0) xs → All (λ x. P x.0) (sort_entries xs)
  sort_entries-All [] h = tt
  sort_entries-All (x ∷ xs) h = insert_entry-All x (sort_entries xs) h.0 (sort_entries-All xs h.1)

  entries-All :
      (rows : List RunProjection)
      → All (λ r. P r.run_id) rows
      → All (λ (x : String × String). P x.0) (map (λ (r : RunProjection). (r.run_id, "")) rows)
  entries-All [] h = tt
  entries-All (r ∷ rows) h = (h.0, entries-All rows h.1)

  keys-All :
      (xs : List (String × String))
      → All (λ x. P x.0) xs
      → All P (map (λ (e : String × String). e.0) xs)
  keys-All [] h = tt
  keys-All (x ∷ xs) h = (h.0, keys-All xs h.1)

  sorted_keys-All :
      (rows : List RunProjection)
      → All (λ r. P r.run_id) rows
      → All P (
          map
            (λ (e : String × String). e.0)
            (sort_entries (map (λ (r : RunProjection). (r.run_id, "")) rows)))
  sorted_keys-All rows h =
      keys-All (sort_entries (map (λ (r : RunProjection). (r.run_id, "")) rows))
        (sort_entries-All (map (λ (r : RunProjection). (r.run_id, "")) rows) (entries-All rows h))

-- A run that is held is none of those that expire.
expired-differs :
    (p : Platform) (cutoff id : String) (d : Derived) (r : RunProjection)
    → is_held id d.holds ≡ true
    → is_expired_run p cutoff d r ≡ true
    → (r.run_id == id) ≡ false
unfolding is_expired_run
expired-differs p cutoff id d r held expired = elim (Bool-cases (r.run_id == id)) [
  | inl t ↦
      let same : r.run_id ≡ id = (String-Eq.beq_iff r.run_id id).0 t in
      absurd (cc (rw (same, held) at expired))
  | inr f ↦ f
]

expired_runs-differ :
    (p : Platform) (cutoff id : String) (d : Derived)
    → is_held id d.holds ≡ true
    → All (λ other. (other == id) ≡ false) (expired_runs p cutoff d)
unfolding expired_runs
expired_runs-differ p cutoff id d held =
    sorted_keys-All (λ other. (other == id) ≡ false) (filter (is_expired_run p cutoff d) d.runs)
      (All-mono (λ r. is_expired_run p cutoff d r ≡ true) (λ r. (r.run_id == id) ≡ false)
        (filter (is_expired_run p cutoff d) d.runs) (λ r. expired-differs p cutoff id d r held)
        (filter-All (is_expired_run p cutoff d) d.runs))

aggregate-stays :
    (p : Platform) (cutoff id : String) (holds : List RetentionHold) (a : ActivityAggregate)
    → is_held id holds ≡ true
    → (a.key.run_id == id) ≡ true
    → not (is_expired_aggregate p cutoff holds a) ≡ true
unfolding is_expired_aggregate
aggregate-stays p cutoff id holds a held same =
    let at_id : a.key.run_id ≡ id = (String-Eq.beq_iff a.key.run_id id).0 same in
    rw (at_id, held) refl

conclude_retention-Keeps :
    (ids : List String) (aggregates : List ActivityAggregate) (metrics : List MetricValue)
    (m : ReadModel) (id : String)
    → All (λ other. (other == id) ≡ false) ids
    → filter (λ (a : ActivityAggregate). a.key.run_id == id) aggregates
      ≡ filter (λ (a : ActivityAggregate). a.key.run_id == id) m.derived.aggregates
    → Keeps id m.derived (conclude_retention ids aggregates metrics m).1.derived
unfolding conclude_retention expire_rest
conclude_retention-Keeps ids aggregates metrics m id differ same =
    let (r, p, t, g, h) = expire_runs-Keeps id ids m differ in
    elim (Bool-cases (
      length ids == 0
      && (length aggregates == length m.derived.aggregates
          && length metrics == length m.metrics))) [
            | inl e ↦ rw e (refl, refl, refl, refl, refl)
            | inr e ↦ rw e (r, p, t, same, h)
          ]

-- While a run has an active hold, retention takes away nothing of it: its row, its processes, its
-- timeline, its activity and its holds are those that they were.
pub apply_retention-Keeps :
    (p : Platform) (updated_at : MetricValue → String) (detail_cutoff activity_cutoff : String)
    (m : ReadModel) (id : String)
    → is_held id m.derived.holds ≡ true
    → Keeps id m.derived (apply_retention p updated_at detail_cutoff activity_cutoff m).1.derived
unfolding apply_retention
apply_retention-Keeps p updated_at detail_cutoff activity_cutoff m id held =
    conclude_retention-Keeps (expired_runs p detail_cutoff m.derived) _ _ m id
      (expired_runs-differ p detail_cutoff id m.derived held)
      (filter-filter_wider (λ a. a.key.run_id == id)
        (λ a. not (is_expired_aggregate p activity_cutoff m.derived.holds a))
        (λ a. aggregate-stays p activity_cutoff id m.derived.holds a held) m.derived.aggregates)
