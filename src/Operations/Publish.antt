-- ===== src/Operations/Publish.antt =====
-- `publishOwnerEvents`, `replayOwnerEvents` and `mapOwnerEvent` of
-- packages/kogg-operations/src/node/operation-registry.ts, with the read model as the owner sink.
use Prim.Native.String.{◌++◌ as str_append, len, slice}
use kogg.Prelude.{
  ℕ, suc, String, String-Eq, Bool, true, false, Option, none, some, [], ◌∷◌, ◌==◌, find?,
}
use kogg.Operations.Codes.{OperationSafeCode}
use kogg.Operations.Database.{
  EventName, EventRow, OperationRow, ProcessRow, Database, Meta, find_operation, bump,
}
use kogg.Operations.OwnerEvents.{owner_event_kind, process_cleanup_for}
use kogg.Operations.Texts.{process_kind_text, cleanup_state_text, operation_safe_code_text}
use kogg.ReadModel.Owners.{OwnerKind}
use kogg.ReadModel.Events.{text_value, SafeOwnerPayload, OwnerEvent, Platform}
use kogg.ReadModel.Canonical.{array_text}
use kogg.ReadModel.Ingest.{zero_digest}
use kogg.ReadModel.Tables.{ReadModel}
use kogg.ReadModel.Replay.{ReplayEnd, delivered, refused_event, mapping_failed, sign_event, replay}

-- `processSafeCodeEvent` and `operationSafeCodeEvent`.
unfoldable pub process_safe_code_event : EventName → Bool
process_safe_code_event EventName.process_failed = true
process_safe_code_event EventName.process_possible_residual = true
process_safe_code_event _ = false

unfoldable pub operation_safe_code_event : EventName → Bool
operation_safe_code_event EventName.operation_completed = true
operation_safe_code_event EventName.operation_failed = true
operation_safe_code_event EventName.operation_timeout = true
operation_safe_code_event EventName.operation_cancelled = true
operation_safe_code_event EventName.operation_refused = true
operation_safe_code_event EventName.recovery_failed = true
operation_safe_code_event EventName.recovery_completed = true
operation_safe_code_event _ = false

unfoldable pub safe_code_entry : Bool → Option OperationSafeCode → SafeOwnerPayload
safe_code_entry false code = []
safe_code_entry true none = []
safe_code_entry true (some code) = ("safeCode", text_value (operation_safe_code_text code)) ∷ []

abbrev process_safe_code : Option ProcessRow → Option OperationSafeCode
process_safe_code none = none
process_safe_code (some r) = r.safe_code

abbrev process_kind_of : Option ProcessRow → String
process_kind_of none = "unknown"
process_kind_of (some r) = process_kind_text r.kind

-- The payload of a row that names a process, and of one that names none.
unfoldable pub owner_payload :
    EventName → String → Option String → Option ProcessRow → OperationRow → SafeOwnerPayload
owner_payload name kind (some id) process o =
    ("processKind", text_value (process_kind_of process))
    ∷ ("processState", text_value (slice kind 8 (len kind)))
    ∷ ("cleanupState", text_value (cleanup_state_text (process_cleanup_for kind)))
    ∷ safe_code_entry (process_safe_code_event name) (process_safe_code process)
owner_payload name kind none process o =
    ("lifecycle", text_value (slice kind 10 (len kind)))
    ∷ safe_code_entry (operation_safe_code_event name) o.safe_code

abbrev is_given : Option String → Bool
is_given none = false
is_given (some id) = true

abbrev process_of : Option String → Database → Option ProcessRow
process_of none db = none
process_of (some id) db = find? (λ (r : ProcessRow). r.id == id) db.processes

abbrev text_or_null : Platform → Option String → String
text_or_null p none = "null"
text_or_null p (some s) = p.stringify s

-- `mapOwnerEvent` on the row of an operation that is there.
unfoldable pub owner_event_of :
    Platform → Database → String → String → String → ℕ → EventRow → OperationRow → OwnerEvent
owner_event_of p db owner_id epoch_id previous sequence row o =
    let kind = owner_event_kind row.event_name (is_given row.process_id) in
    sign_event p (record {
      owner_kind = OwnerKind.operation_owner;
      owner_instance_id = owner_id;
      epoch_id = epoch_id;
      sequence = sequence;
      event_id =
          str_append "operation-event-" (str_append epoch_id (str_append ":" (p.decimal sequence)));
      event_kind = kind;
      fact_id = str_append row.operation_id (str_append ":" (p.decimal sequence));
      fact_digest = p.sha256 (
          array_text p (
            p.stringify (p.decimal sequence)
            ∷ p.stringify row.operation_id
            ∷ text_or_null p row.process_id
            ∷ p.stringify kind
            ∷ p.stringify (p.to_iso_string row.created_at)
            ∷ []));
      previous_event_digest = previous;
      causal_parents = [];
      correlations = record {
        task_id = o.correlations.task_id;
        project_id = o.correlations.project_id;
        run_id = o.correlations.run_id;
        node_id = none;
        attempt_id = o.correlations.attempt_id;
        operation_id = some row.operation_id;
        process_id = row.process_id;
        check_id = none;
        evidence_id = none;
        verdict_id = none;
        merge_id = none;
      };
      observed_at = p.to_iso_string row.created_at;
      safe_payload =
          owner_payload row.event_name kind row.process_id (process_of row.process_id db) o;
      event_digest = "";
    })

-- `mapOwnerEvent`: none where the operation is not there, and its property is read all the same.
unfoldable pub map_owner_event :
    Platform → Database → String → String → String → ℕ → EventRow → Option OwnerEvent
map_owner_event p db owner_id epoch_id previous sequence row =
    elim (find_operation row.operation_id db) [
      | none ↦ none
      | some o ↦ some (owner_event_of p db owner_id epoch_id previous sequence row o)
    ]

-- `replayOwnerEvents`.
unfoldable pub replay_owner_events :
    Platform → Database → String → ReadModel → ReplayEnd × ReadModel
replay_owner_events p db epoch_id m =
    replay p (map_owner_event p db db.meta.owner_id epoch_id) zero_digest 0 db.events m

-- The update of `operation_meta` and `bump`.
unfoldable pub open_epoch : String → Database → Database
open_epoch next_epoch db =
    let meta : Meta = db.meta in
    bump (record db {
      meta = record meta { owner_epoch_id = next_epoch; revision = suc meta.revision };
    })

-- After the replay under the present epoch: where it was refused, one under a new epoch.
unfoldable pub republish :
    Platform → String → Database → ReplayEnd × ReadModel → ReplayEnd × Database × ReadModel
republish p next_epoch db (delivered, m) = (delivered, db, m)
republish p next_epoch db (mapping_failed, m) = (mapping_failed, db, m)
republish p next_epoch db (refused_event, m) =
    let (result, left) = replay_owner_events p db next_epoch m in
    (result, open_epoch next_epoch db, left)

-- `publishOwnerEvents`, with the epoch that `randomUUID` makes.
unfoldable pub publish_owner_events :
    Platform → String → Database → ReadModel → ReplayEnd × Database × ReadModel
publish_owner_events p next_epoch db m =
    republish p next_epoch db (replay_owner_events p db db.meta.owner_epoch_id m)
