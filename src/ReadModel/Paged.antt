-- ===== src/ReadModel/Paged.antt =====
-- What a page of runs of packages/kogg-operations/src/node/operations-read-model.ts holds.
use kogg.Prelude.{
  ◌⊎◌, ◌<◌, ◌||◌, ◌==◌, ==_sound, Bool, true, false, not, none, String-Eq, &&-eq-true, ||-eq-true,
  All-mono, arith, ◌+◌, ◌≤◌, Option, some, some-injective, List, [], ◌∷◌, ◌≡◌, inl, inr, sym, take,
  filter, filter-All, All, All-take, Bool-cases, length, length-take-le, ltb, ltb_refuted,
}
use kogg.ReadModel.Tables.{RunProjection}
use kogg.ReadModel.Lifecycles.{RunLifecycle, RunLifecycle-Eq, run_lifecycle_text}
use kogg.ReadModel.Canonical.{before}
use kogg.ReadModel.RunPages.{
  has_lifecycle, is_past, run_id_asc, lifecycle_asc, RunSort, RunQuery, PagePosition, RunPage,
  is_valid_query, is_asked, precedes_run, place_run, order_runs, page_of, list_runs,
}

-- Sorting keeps what holds of all runs.
module _ (P : RunProjection → Type 0) (sort : RunSort) where
  place_run-All :
      (r : RunProjection) (xs : List RunProjection) → P r → All P xs → All P (place_run sort r xs)
  unfolding place_run
  place_run-All r [] k h = (k, tt)
  place_run-All r (x ∷ xs) k h = elim (Bool-cases (precedes_run sort r x)) [
    | inl t ↦ rw t (k, h)
    | inr f ↦ rw f (h.0, place_run-All r xs k h.1)
  ]

  order_runs-All : (xs : List RunProjection) → All P xs → All P (order_runs sort xs)
  unfolding order_runs
  order_runs-All [] h = tt
  order_runs-All (x ∷ xs) h = place_run-All x (order_runs sort xs) h.0 (order_runs-All xs h.1)

-- What the query says of a run, and what its cursor does: the runs of a page come behind its last.
abbrev pub HasLifecycle : Option RunLifecycle → RunProjection → Type 0
HasLifecycle none r = Unit
HasLifecycle (some l) r = r.lifecycle ≡ l

abbrev pub IsAbnormal : Bool → RunProjection → Type 0
IsAbnormal false r = Unit
IsAbnormal true r = 0 < r.abnormal_process_count

abbrev pub ComesAfter : RunSort → Option PagePosition → RunProjection → Type 0
ComesAfter sort none r = Unit
ComesAfter run_id_asc (some c) r = before r.run_id c.last_key ≡ false
ComesAfter lifecycle_asc (some c) r =
    (before (run_lifecycle_text r.lifecycle) c.sort_key ≡ false)
    ⊎ ((run_lifecycle_text r.lifecycle ≡ c.sort_key) × (before r.run_id c.last_key ≡ false))

abbrev pub IsWanted : RunQuery → Option PagePosition → RunProjection → Type 0
IsWanted q cursor r =
    HasLifecycle q.lifecycle r × IsAbnormal q.abnormal_only r × ComesAfter q.sort cursor r

-- The page has at most as many runs as were asked for, and each is wanted.
abbrev pub IsPageOf : RunQuery → Option PagePosition → RunPage → Type 0
IsPageOf q cursor page = (length page.items ≤ q.page_size) × All (IsWanted q cursor) page.items

has_lifecycle-HasLifecycle :
    (l : Option RunLifecycle) (r : RunProjection) → has_lifecycle l r ≡ true → HasLifecycle l r
unfolding has_lifecycle
has_lifecycle-HasLifecycle none r h = tt
has_lifecycle-HasLifecycle (some l) r h = ==_sound r.lifecycle l h

is_asked-IsAbnormal :
    (asked : Bool) (r : RunProjection)
    → (not asked || ltb 0 r.abnormal_process_count) ≡ true
    → IsAbnormal asked r
is_asked-IsAbnormal false r h = tt
is_asked-IsAbnormal true r h = ground arith

negated : (b : Bool) → not b ≡ true → b ≡ false
negated b h = ground arith

is_past-ComesAfter :
    (sort : RunSort) (cursor : Option PagePosition) (r : RunProjection)
    → is_past sort cursor r ≡ true
    → ComesAfter sort cursor r
unfolding is_past
is_past-ComesAfter sort none r h = tt
is_past-ComesAfter run_id_asc (some c) r h = negated (before r.run_id c.last_key) h
is_past-ComesAfter lifecycle_asc (some c) r h = elim (||-eq-true _ _ h) [
  | inl past ↦ inl (negated (before (run_lifecycle_text r.lifecycle) c.sort_key) past)
  | inr tied ↦
      let (same, past) =
        &&-eq-true (run_lifecycle_text r.lifecycle == c.sort_key) (not (before r.run_id c.last_key))
          tied in
      inr (
        ==_sound (run_lifecycle_text r.lifecycle) c.sort_key same,
        negated (before r.run_id c.last_key) past,
      )
]

is_asked-IsWanted :
    (q : RunQuery) (cursor : Option PagePosition) (r : RunProjection)
    → is_asked q cursor r ≡ true
    → IsWanted q cursor r
unfolding is_asked
is_asked-IsWanted q cursor r h =
    let (lifecycle, rest) = &&-eq-true (has_lifecycle q.lifecycle r) _ h in
    let (abnormal, past) =
      &&-eq-true (not q.abnormal_only || ltb 0 r.abnormal_process_count) (is_past q.sort cursor r)
        rest in
    (
      has_lifecycle-HasLifecycle q.lifecycle r lifecycle,
      is_asked-IsAbnormal q.abnormal_only r abnormal,
      is_past-ComesAfter q.sort cursor r past,
    )

page_of-IsPageOf :
    (q : RunQuery) (cursor : Option PagePosition) (rows : List RunProjection)
    → All (IsWanted q cursor) rows
    → IsPageOf q cursor (page_of q rows)
unfolding page_of
page_of-IsPageOf q cursor rows h = elim (Bool-cases (ltb q.page_size (length rows))) [
  | inl t ↦ rw t (length-take-le q.page_size rows, All-take (IsWanted q cursor) q.page_size rows h)
  | inr f ↦ rw f (ltb_refuted q.page_size (length rows) f, h)
]

valid_size : (q : RunQuery) → is_valid_query q ≡ true → (1 ≤ q.page_size) × (q.page_size ≤ 100)
unfolding is_valid_query
valid_size q h = (ground arith, ground arith)

-- A page of runs has at most as many as were asked for, which are from one to a hundred. Each of them
-- has the lifecycle that was asked for, has an abnormal process if only such were asked for, and comes
-- after the cursor in the order that was asked for: its identifier is greater, or its lifecycle's text
-- is greater or the same with a greater identifier.
pub list_runs-IsPageOf :
    (q : RunQuery) (cursor : Option PagePosition) (runs : List RunProjection) (page : RunPage)
    → list_runs q cursor runs ≡ some page
    → ((1 ≤ q.page_size) × (q.page_size ≤ 100)) × IsPageOf q cursor page
unfolding list_runs
list_runs-IsPageOf q cursor runs page h = elim (Bool-cases (is_valid_query q)) [
  | inl t ↦
      let asked = filter (is_asked q cursor) runs in
      let wanted =
        All-mono (λ r. is_asked q cursor r ≡ true) (IsWanted q cursor) asked
          (is_asked-IsWanted q cursor) (filter-All (is_asked q cursor) runs) in
      let same = some-injective (rw t at h) in
      (
        valid_size q t,
        rw (sym same) (
            page_of-IsPageOf q cursor (take (q.page_size + 1) (order_runs q.sort asked)) (
              All-take (IsWanted q cursor) (q.page_size + 1) (order_runs q.sort asked)
                (order_runs-All (IsWanted q cursor) q.sort asked wanted))),
      )
  | inr f ↦ absurd (cc (rw f at h))
]
