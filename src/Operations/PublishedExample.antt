-- ===== src/Operations/PublishedExample.antt =====
-- The log of packages/kogg-operations/src/node/operation-registry.ts, published to a read model whose
-- cursor has gone ahead of it.
use kogg.Prelude.{String-Eq, ℕ-Eq, none, some, [], ◌∷◌, ◌++◌, ◌≡◌, refl}
use kogg.ReadModel.Unopened.{IsUnopened}
use kogg.Text.{
  ends_with, after_first_dot, after_last_dot, is_safe_id, is_hex64, is_safe_code, is_safe_text,
}
use kogg.Operations.Codes.{Admission}
use kogg.Operations.Database.{Database, EventRow, EventName}
use kogg.Operations.OwnerEvents.{owner_event_kind}
use kogg.Operations.Texts.{operation_safe_code_text}
use kogg.Operations.Scenarios.{completed_row, database_with, first_id}
use kogg.Operations.Publish.{
  operation_safe_code_event, safe_code_entry, owner_payload, owner_event_of, map_owner_event,
  replay_owner_events, publish_owner_events,
}
use kogg.Operations.Published.{publish_owner_events-delivered}
use kogg.ReadModel.Owners.{OwnerKind, owner_event_kinds}
use kogg.ReadModel.Events.{OwnerEvent, correlation_values, payload_text, payload_number}
use kogg.ReadModel.Canonical.{canonical_event, owner_event_digest}
use kogg.ReadModel.Validate.{
  validate_event, unless, closed_payload_keys, closed_string_values, payload_keys, is_valid_entry,
  is_valid_payload, is_valid_parent,
}
use kogg.ReadModel.Tables.{ReadModel}
use kogg.ReadModel.Ingest.{
  zero_digest, find_event, find_cursor, judge, reject, persist_fault, ingest_new, ingest_valid,
  ingest_checked, ingest,
}
use kogg.ReadModel.Replay.{delivered, refused_event, is_taken_on, sign_event, replay}
use kogg.ReadModel.Scenarios.{platform, empty}

abbrev database : Database
database = database_with Admission.enabled

abbrev row : EventRow
row = record {
  sequence = 1;
  operation_id = first_id;
  process_id = none;
  event_name = EventName.operation_completed;
  created_at = 40;
}

-- A read model that has had more of the stream than the registry has kept.
abbrev ahead : ReadModel
ahead = record empty {
  cursors =
      record {
        owner_kind = OwnerKind.operation_owner;
        owner_instance_id = "owner";
        epoch_id = "epoch";
        sequence = 5;
        event_digest = zero_digest;
      }
      ∷ [];
}

abbrev published : OwnerEvent
published = owner_event_of platform database "owner" "next" zero_digest 1 row completed_row

is_valid : validate_event platform published ≡ none
unfolding validate_event unless is_safe_id is_hex64 is_safe_code is_safe_text owner_event_kinds
    correlation_values canonical_event owner_event_digest is_valid_payload is_valid_entry
    payload_keys closed_payload_keys closed_string_values is_valid_parent ends_with after_first_dot
    after_last_dot payload_text payload_number owner_event_of sign_event owner_payload
    owner_event_kind safe_code_entry operation_safe_code_event operation_safe_code_text
is_valid = refl

row-published : map_owner_event platform database "owner" "next" zero_digest 1 row ≡ some published
unfolding map_owner_event
row-published = refl

refused : (replay_owner_events platform database "epoch" ahead).0 ≡ refused_event
unfolding replay_owner_events replay map_owner_event is_taken_on ingest ingest_checked ingest_valid
    ingest_new judge find_event find_cursor reject persist_fault validate_event unless is_safe_id
    is_hex64 is_safe_code is_safe_text owner_event_kinds correlation_values canonical_event
    owner_event_digest is_valid_payload is_valid_entry payload_keys closed_payload_keys
    closed_string_values is_valid_parent ends_with after_first_dot after_last_dot payload_text
    payload_number owner_event_of sign_event owner_payload owner_event_kind safe_code_entry
    operation_safe_code_event operation_safe_code_text
refused = refl

left_behind : (replay_owner_events platform database "epoch" ahead).1.accepted ≡ []
unfolding replay_owner_events replay map_owner_event is_taken_on ingest ingest_checked ingest_valid
    ingest_new judge find_event find_cursor reject persist_fault validate_event unless is_safe_id
    is_hex64 is_safe_code is_safe_text owner_event_kinds correlation_values canonical_event
    owner_event_digest is_valid_payload is_valid_entry payload_keys closed_payload_keys
    closed_string_values is_valid_parent ends_with after_first_dot after_last_dot payload_text
    payload_number owner_event_of sign_event owner_payload owner_event_kind safe_code_entry
    operation_safe_code_event operation_safe_code_text
left_behind = refl

unopened : IsUnopened "owner" "next" ahead
unfolding find_cursor
unopened = (tt, refl)

publish_owner_events-delivered_example :
    let (end, after, left) = publish_owner_events platform "next" database ahead in
    (end ≡ delivered)
    × (left.accepted
        ≡ (replay_owner_events platform database "epoch" ahead).1.accepted ++ published ∷ [])
    × (after.meta.owner_epoch_id ≡ "next")
publish_owner_events-delivered_example =
    publish_owner_events-delivered platform "next" database ahead (published ∷ []) unopened refl
      refused (row-published, tt) (is_valid, rw left_behind refl, tt)
