-- ===== src/ReadModel/RunPages.antt =====
-- `listRuns` of packages/kogg-operations/src/node/operations-read-model.ts. A page cursor is the
-- position that `decodeCursor` gives, and what `encodeCursor` is given.
use mathlib.Core.Option
use kogg.Prelude.{
  ℕ, ◌+◌, String, String-Eq, Bool, true, not, ◌==◌, ◌&&◌, ◌||◌, Option, none, some, List, [], ◌∷◌,
  take, filter, length, ltb, leb, if◌then◌else◌,
}
use kogg.ReadModel.Lifecycles.{RunLifecycle, RunLifecycle-Eq, run_lifecycle_text}
use kogg.ReadModel.Canonical.{before}
use kogg.ReadModel.Tables.{RunProjection}

pub data RunSort : Type 0 where
  run_id_asc lifecycle_asc : RunSort

pub record RunQuery : Type 0 where
  pub lifecycle : Option RunLifecycle
  pub abnormal_only : Bool
  pub sort : RunSort
  pub page_size : ℕ

pub record PagePosition : Type 0 where
  pub last_key : String
  pub sort_key : String

-- The epoch that a page also names, the one of the store, is left out.
pub record RunPage : Type 0 where
  pub items : List RunProjection
  pub next : Option PagePosition

-- `validateRunQuery`.
unfoldable pub is_valid_query : RunQuery → Bool
is_valid_query q = leb 1 q.page_size && leb q.page_size 100

unfoldable pub has_lifecycle : Option RunLifecycle → RunProjection → Bool
has_lifecycle none r = true
has_lifecycle (some l) r = r.lifecycle == l

unfoldable pub is_past : RunSort → Option PagePosition → RunProjection → Bool
is_past sort none r = true
is_past run_id_asc (some c) r = not (before r.run_id c.last_key)
is_past lifecycle_asc (some c) r =
    not (before (run_lifecycle_text r.lifecycle) c.sort_key)
    || (run_lifecycle_text r.lifecycle == c.sort_key && not (before r.run_id c.last_key))

-- The `WHERE` clause.
unfoldable pub is_asked : RunQuery → Option PagePosition → RunProjection → Bool
is_asked q cursor r =
    has_lifecycle q.lifecycle r
    && ((not q.abnormal_only || ltb 0 r.abnormal_process_count) && is_past q.sort cursor r)

-- The `ORDER BY` clause.
unfoldable pub precedes_run : RunSort → RunProjection → RunProjection → Bool
precedes_run run_id_asc a b = before a.run_id b.run_id
precedes_run lifecycle_asc a b =
    if run_lifecycle_text a.lifecycle == run_lifecycle_text b.lifecycle
    then before a.run_id b.run_id
    else before (run_lifecycle_text a.lifecycle) (run_lifecycle_text b.lifecycle)

unfoldable pub place_run : RunSort → RunProjection → List RunProjection → List RunProjection
place_run sort r [] = r ∷ []
place_run sort r (x ∷ xs) =
    let later = place_run sort r xs in if precedes_run sort r x then r ∷ x ∷ xs else x ∷ later

unfoldable pub order_runs : RunSort → List RunProjection → List RunProjection
order_runs sort [] = []
order_runs sort (r ∷ rs) = place_run sort r (order_runs sort rs)

unfoldable pub position_of : RunSort → RunProjection → PagePosition
position_of run_id_asc r = record { last_key = r.run_id; sort_key = "" }
position_of lifecycle_asc r = record {
  last_key = r.run_id;
  sort_key = run_lifecycle_text r.lifecycle;
}

-- `selected.at(-1)`.
unfoldable pub last_run : List RunProjection → Option RunProjection
last_run [] = none
last_run (r ∷ []) = some r
last_run (r ∷ s ∷ rs) = last_run (s ∷ rs)

unfoldable pub page_of : RunQuery → List RunProjection → RunPage
page_of q rows =
    let selected = take q.page_size rows in
    if ltb q.page_size (length rows)
    then record { items = selected; next = Option.map (position_of q.sort) (last_run selected) }
    else record { items = rows; next = none }

-- The page, or none where it throws `PROJECTION_QUERY_INVALID`.
unfoldable pub list_runs : RunQuery → Option PagePosition → List RunProjection → Option RunPage
list_runs q cursor runs =
    if is_valid_query q
    then some
        (page_of q (take (q.page_size + 1) (order_runs q.sort (filter (is_asked q cursor) runs))))
    else none
