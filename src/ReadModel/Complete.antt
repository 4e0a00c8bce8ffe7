-- ===== src/ReadModel/Complete.antt =====
-- The pages of `timelinePage` in packages/kogg-operations/src/node/operations-read-model.ts have every
-- entry.
use kogg.Prelude.{ℕ, ◌<◌, String, true, some, List, ◌≡◌, length}
use kogg.ReadModel.Events.{OwnerEvent, Platform}
use kogg.ReadModel.Tables.{ActivityAggregate, ReadModel}
use kogg.ReadModel.Ingest.{no_derived}
use kogg.ReadModel.Rebuilt.{ingest_all}
use kogg.ReadModel.TimelinePages.{ordered_entries, is_valid_page, timeline_page}
use kogg.ReadModel.TimelineRead.{IsAscending, read_pages, read_pages-whole}
use kogg.ReadModel.Ascending.{ordered_entries-IsAscending}
use kogg.ReadModel.Separate.{ingest_all-IsSeparate}

-- Whatever events arrive at an empty store, and however their ingestion ends: a client that asks for
-- the pages of a run one after the other, each from the cursor of the one before, reads every entry of
-- the run's timeline exactly once and in order, on pages of any valid size, with one request more than
-- there are entries at most; the orders of the entries rise.
pub read_pages_complete :
    (p : Platform) (es : List OwnerEvent) (m : ReadModel)
    (aggregate_id : ActivityAggregate → String) (run_id : String) (limit fuel : ℕ)
    → m.derived ≡ no_derived
    → is_valid_page run_id limit ≡ true
    → length (ordered_entries aggregate_id (ingest_all p es m) run_id) < fuel
    → (read_pages fuel
          (λ after. timeline_page aggregate_id (ingest_all p es m) run_id after limit)
          0
        ≡ some (ordered_entries aggregate_id (ingest_all p es m) run_id))
      × IsAscending (ordered_entries aggregate_id (ingest_all p es m) run_id)
read_pages_complete p es m aggregate_id run_id limit fuel empty valid enough =
    let last = ingest_all p es m in
    let separate = ingest_all-IsSeparate p es m (rw empty (tt, λ a h. absurd cc)) in
    let rises = ordered_entries-IsAscending aggregate_id last run_id separate.0 in
    (read_pages-whole aggregate_id last run_id limit fuel valid rises enough, rises)
