-- ===== src/ReadModel/Project.antt =====
-- `projectActivityAggregate` and `projectEvent` of
-- packages/kogg-operations/src/node/operations-read-model.ts.
use Prim.Native.Nat.{◌/◌}
use kogg.Prelude.{
  ◌+◌, ◌*◌, String, String-Eq, ℕ-Eq, Bool, ◌&&◌, Option, none, some, List, [], ◌∷◌, ◌++◌, ◌==◌,
  if◌then◌else◌,
}
use kogg.ReadModel.Owners.{OwnerKind-Eq}
use kogg.ReadModel.Lifecycles.{RunLifecycle-Eq}
use kogg.ReadModel.Events.{OwnerEvent, Platform, payload_text, payload_number}
use kogg.ReadModel.Tables.{RunProjection, TimelineRow, ActivityKey, ActivityAggregate, Derived}
use kogg.ReadModel.Runs.{
  otherwise, on_run, insert_run, with_attempt, with_lifecycle, event_lifecycle, with_summary,
  derive_run_lifecycle, project_process,
}
use kogg.ReadModel.Holds.{project_retention_hold}

-- The minute that an event falls in; an event that passed the checks has a date.
unfoldable pub bucket_start : Platform → String → String
bucket_start p time = p.to_iso_string (otherwise 0 (p.date_parse time) / 60000 * 60000)

unfoldable pub activity_key : Platform → String → OwnerEvent → ActivityKey
activity_key p run_id e = record {
  run_id = run_id;
  owner_instance_id = e.owner_instance_id;
  event_kind = e.event_kind;
  safe_code = otherwise "" (payload_text "safeCode" e.safe_payload);
  attempt_id = otherwise "" e.correlations.attempt_id;
  bucket_start = bucket_start p e.observed_at;
}

abbrev pub same_key : ActivityKey → ActivityKey → Bool
same_key a b =
    (a.run_id == b.run_id && a.owner_instance_id == b.owner_instance_id)
    && ((a.event_kind == b.event_kind && a.safe_code == b.safe_code)
        && (a.attempt_id == b.attempt_id && a.bucket_start == b.bucket_start))

-- `projectActivityAggregate`.
unfoldable pub project_activity :
    Platform → ActivityKey → OwnerEvent → List ActivityAggregate → List ActivityAggregate
project_activity p key e [] =
    record {
      key = key;
      owner_kind = e.owner_kind;
      event_count = otherwise 1 (payload_number "count" e.safe_payload);
      first_display_time = e.observed_at;
      last_display_time = e.observed_at;
      first_owner_sequence = e.sequence;
      last_owner_sequence = e.sequence;
      first_event_digest = e.event_digest;
      last_event_digest = e.event_digest;
    }
    ∷ []
project_activity p key e (a ∷ rows) =
    let later = project_activity p key e rows in
    if same_key a.key key
    then record a {
      event_count = a.event_count + otherwise 1 (payload_number "count" e.safe_payload);
      first_display_time = p.text_min a.first_display_time e.observed_at;
      last_display_time = p.text_max a.last_display_time e.observed_at;
      last_owner_sequence = e.sequence;
      last_event_digest = e.event_digest;
    }
      ∷ rows
    else a ∷ later

unfoldable pub timeline_row : String → OwnerEvent → TimelineRow
timeline_row run_id e = record {
  entry_id = e.event_id;
  run_id = run_id;
  owner_kind = e.owner_kind;
  owner_sequence = e.sequence;
  event_kind = e.event_kind;
  safe_code = payload_text "safeCode" e.safe_payload;
  attempt_id = e.correlations.attempt_id;
  process_id = e.correlations.process_id;
  display_time = e.observed_at;
  event_digest = e.event_digest;
}

unfoldable pub project_entry : Platform → String → OwnerEvent → Derived → Derived
project_entry p run_id e d =
    if e.event_kind == "process.activity"
    then record d { aggregates = project_activity p (activity_key p run_id e) e d.aggregates }
    else record d { timeline = d.timeline ++ timeline_row run_id e ∷ [] }

-- The updates of the run before those of its processes.
unfoldable pub project_run : String → OwnerEvent → Derived → Derived
project_run run_id e d = record d {
  runs =
      on_run run_id
        (λ (r : RunProjection). with_attempt e (with_lifecycle e (event_lifecycle e.event_kind) r))
        (insert_run run_id e d.runs);
}

unfoldable pub project_of_run : Platform → OwnerEvent → Option String → Derived → Derived
project_of_run p e none d = d
project_of_run p e (some run_id) d =
    let updated = project_process run_id e e.correlations.process_id (project_run run_id e d) in
    let summarised = record updated { runs = on_run run_id (with_summary e) updated.runs } in
    let held = project_retention_hold run_id e summarised in
    project_entry p run_id e (record held { runs = on_run run_id derive_run_lifecycle held.runs })

-- `projectEvent`.
unfoldable pub project_event : Platform → OwnerEvent → Derived → Derived
project_event p e d = project_of_run p e e.correlations.run_id d
