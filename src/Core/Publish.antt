-- ===== src/Core/Publish.antt =====
-- `publish` of packages/kogg-core/src/node/diagnostic-owner-journal.ts, with the read model as the
-- sink. Digests are texts here, and `JSON.parse` of a payload is a parameter.
use kogg.Prelude.{String, Option, none, some, List, []}
use kogg.Core.Journal.{EventRow}
use kogg.ReadModel.Owners.{OwnerKind}
use kogg.ReadModel.Events.{SafeCorrelations, SafeOwnerPayload, OwnerEvent, Platform}
use kogg.ReadModel.Ingest.{zero_digest}
use kogg.ReadModel.Tables.{ReadModel}
use kogg.ReadModel.Replay.{ReplayEnd, sign_event, replay}

abbrev of_report : String → SafeCorrelations
of_report report_id = record {
  task_id = none;
  project_id = none;
  run_id = some report_id;
  node_id = none;
  attempt_id = none;
  operation_id = none;
  process_id = none;
  check_id = none;
  evidence_id = none;
  verdict_id = none;
  merge_id = none;
}

unfoldable pub diagnostic_event :
    Platform → String → String → String → EventRow String → SafeOwnerPayload → OwnerEvent
diagnostic_event p owner_id epoch_id previous row payload = sign_event p (record {
  owner_kind = OwnerKind.diagnostic_owner;
  owner_instance_id = owner_id;
  epoch_id = epoch_id;
  sequence = row.event_sequence;
  event_id = row.fact.event_id;
  event_kind = row.fact.event_kind;
  fact_id = row.fact.report_id;
  fact_digest = row.fact_digest;
  previous_event_digest = previous;
  causal_parents = [];
  correlations = of_report row.fact.report_id;
  observed_at = row.fact.observed_at;
  safe_payload = payload;
  event_digest = "";
})

-- None where `JSON.parse` throws.
unfoldable pub map_diagnostic_event :
    Platform
    → (String → Option SafeOwnerPayload)
    → String
    → String
    → String
    → EventRow String
    → Option OwnerEvent
map_diagnostic_event p parse owner_id epoch_id previous row = elim (parse row.fact.safe_payload) [
  | none ↦ none
  | some payload ↦ some (diagnostic_event p owner_id epoch_id previous row payload)
]

-- `publish`.
unfoldable pub publish :
    Platform
    → (String → Option SafeOwnerPayload)
    → String
    → String
    → List (EventRow String)
    → ReadModel
    → ReplayEnd × ReadModel
publish p parse owner_id epoch_id rows m =
    replay p (λ previous n row. map_diagnostic_event p parse owner_id epoch_id previous row)
      zero_digest 0 rows m
