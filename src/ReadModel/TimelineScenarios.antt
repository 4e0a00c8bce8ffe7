-- ===== src/ReadModel/TimelineScenarios.antt =====
-- The timeline of a store with one event, read in pages of one:
-- packages/kogg-operations/src/node/operations-read-model.ts.
use kogg.Prelude.{ℕ, suc, ◌<◌, length, String, arith, true, some, [], ◌∷◌, ◌≡◌, refl}
use kogg.Text.{is_safe_id}
use kogg.ReadModel.Tables.{ReadModel, ActivityAggregate}
use kogg.ReadModel.Rebuilt.{ingest_all}
use kogg.ReadModel.TimelinePages.{ordered_entries, is_valid_page, timeline_page}
use kogg.ReadModel.TimelineRead.{IsAscending, read_pages}
use kogg.ReadModel.Complete.{read_pages_complete}
use kogg.ReadModel.Scenarios.{platform, started, empty}

abbrev store : ReadModel
store = ingest_all platform (started ∷ []) empty

abbrev aggregate_id : ActivityAggregate → String
aggregate_id a = a.first_event_digest

-- One request more than there are entries.
abbrev requests : ℕ
requests = suc (length (ordered_entries aggregate_id store "run"))

requests-enough : length (ordered_entries aggregate_id store "run") < requests
requests-enough = omega arith

run-valid : is_valid_page "run" 1 ≡ true
unfolding is_valid_page is_safe_id
run-valid = refl

read_pages_complete_example :
    (read_pages requests (λ after. timeline_page aggregate_id store "run" after 1) 0
      ≡ some (ordered_entries aggregate_id store "run"))
    × IsAscending (ordered_entries aggregate_id store "run")
read_pages_complete_example =
    read_pages_complete platform (started ∷ []) empty aggregate_id "run" 1 requests refl run-valid
      requests-enough
