-- ===== src/ReadModel/Validate.antt =====
-- `validateEvent` and `validatePayload` of
-- packages/kogg-operations/src/node/operations-read-model.ts, on events that have the fields of their
-- types; each answers none where it passes, and the code of the fault that it throws otherwise.
use Prim.Native.String.{len}
use text.Mathlib.Text.{starts_with}
use kogg.Prelude.{
  ℕ, String, String-Eq, ℕ-Eq, Bool, true, false, not, ◌&&◌, ◌||◌, Option, none, some, List, [], ◌∷◌,
  ◌==◌, includes, all, length, ltb, leb, is_some, if◌then◌else◌,
}
use kogg.Text.{is_safe_id, is_hex64, is_safe_code, is_safe_text}
use kogg.ReadModel.Owners.{owner_event_kinds}
use kogg.ReadModel.Events.{
  CausalRef, PayloadValue, text_value, number_value, SafeOwnerPayload, OwnerEvent, Platform,
  correlation_values,
}
use kogg.ReadModel.Canonical.{canonical_event, owner_event_digest}

pub data FaultCode : Type 0 where
  owner_event_invalid owner_schema_unknown owner_payload_invalid : FaultCode
  owner_event_digest_mismatch owner_sequence_conflict owner_epoch_unknown : FaultCode
  owner_cursor_rewind owner_cursor_gap owner_previous_digest_mismatch : FaultCode
  causal_parent_missing action_request_replay_mismatch : FaultCode

-- `CLOSED_PAYLOAD_KEYS`.
unfoldable pub closed_payload_keys : List String
closed_payload_keys =
    "lifecycle" ∷ "safeCode" ∷ "processKind" ∷ "processState" ∷ "cleanupState" ∷ "terminalClass"
    ∷ "abnormalClass" ∷ "resultClass" ∷ "decisionClass" ∷ "freshness" ∷ "knownState" ∷ "count"
    ∷ "retryOrdinal" ∷ "durationMs" ∷ "value" ∷ "unit" ∷ []

-- `CLOSED_STRING_VALUES`.
unfoldable pub closed_string_values : List (String × List String)
closed_string_values =
    (
      "lifecycle",
      "draft" ∷ "frozen" ∷ "active" ∷ "archived" ∷ "queued" ∷ "waiting" ∷ "retrying" ∷ "blocked"
          ∷ "failed" ∷ "stalled" ∷ "cancelling" ∷ "cleaning" ∷ "cancelled" ∷ "timed-out"
          ∷ "recovered" ∷ "completed" ∷ "unknown" ∷ "requested" ∷ "started" ∷ "refused" ∷ "admitted"
          ∷ "quarantined" ∷ "available" ∷ "unavailable" ∷ [],
    )
    ∷ (
      "processKind",
      "git" ∷ "ranex-kernel" ∷ "provider-cli" ∷ "governed-command" ∷ "check" ∷ "build" ∷ "test"
          ∷ "debug-adapter" ∷ "delegated-theia" ∷ "unknown" ∷ [],
    )
    ∷ (
      "processState",
      "reserved" ∷ "spawning" ∷ "started" ∷ "ready" ∷ "activity" ∷ "exited" ∷ "cancelling"
          ∷ "cleaning" ∷ "cleaned" ∷ "spawn-failed" ∷ "timed-out" ∷ "residual" ∷ "lost"
          ∷ "quarantined" ∷ "inventory-unknown" ∷ [],
    )
    ∷ ("cleanupState", "required" ∷ "cleaning" ∷ "cleaned" ∷ "failed" ∷ "unknown" ∷ [])
    ∷ (
      "terminalClass",
      "none" ∷ "completed" ∷ "failed" ∷ "cancelled" ∷ "refused" ∷ "recovered" ∷ "committed"
          ∷ "quarantined" ∷ "unknown" ∷ [],
    )
    ∷ (
      "abnormalClass",
      "none" ∷ "stalled" ∷ "identity-mismatch" ∷ "unregistered-child" ∷ "timeout"
          ∷ "exit-without-cleanup" ∷ "escalated" ∷ "residual" ∷ "owner-lost" ∷ "recovery-active"
          ∷ "quarantined" ∷ "inventory-unknown" ∷ [],
    )
    ∷ (
      "resultClass",
      "unknown" ∷ "pending" ∷ "passed" ∷ "failed" ∷ "refused" ∷ "cancelled" ∷ "not-applicable" ∷ [],
    )
    ∷ (
      "decisionClass",
      "unknown" ∷ "pending" ∷ "accepted" ∷ "rejected" ∷ "refused" ∷ "committed" ∷ "quarantined"
          ∷ [],
    )
    ∷ ("freshness", "current" ∷ "stale" ∷ "unknown" ∷ [])
    ∷ ("knownState", "known" ∷ "partial" ∷ "unknown" ∷ [])
    ∷ ("unit", "tokens" ∷ "milliseconds" ∷ "bytes" ∷ "items" ∷ [])
    ∷ []

-- `payloadKeys`.
unfoldable pub payload_keys : String → List String
payload_keys kind =
    if kind == "usage.observed"
    then "knownState" ∷ "value" ∷ "unit" ∷ []
    else if starts_with kind "process."
    then "processKind" ∷ "processState" ∷ "cleanupState" ∷ "terminalClass" ∷ "abnormalClass"
      ∷ "safeCode" ∷ "count" ∷ "durationMs" ∷ "freshness" ∷ []
    else if starts_with kind "attempt."
    then "lifecycle" ∷ "terminalClass" ∷ "safeCode" ∷ "retryOrdinal" ∷ "durationMs" ∷ "freshness"
      ∷ []
    else if starts_with kind "run."
    then "lifecycle" ∷ "terminalClass" ∷ "safeCode" ∷ "count" ∷ "durationMs" ∷ "freshness" ∷ []
    else if starts_with kind "check."
    then "lifecycle" ∷ "resultClass" ∷ "safeCode" ∷ "count" ∷ "durationMs" ∷ "freshness" ∷ []
    else if starts_with kind "verdict." || (starts_with kind "gate." || starts_with kind "merge.")
    then "lifecycle" ∷ "decisionClass" ∷ "terminalClass" ∷ "safeCode" ∷ "count" ∷ "durationMs"
      ∷ "freshness" ∷ []
    else "lifecycle" ∷ "resultClass" ∷ "decisionClass" ∷ "terminalClass" ∷ "safeCode" ∷ "count"
      ∷ "durationMs" ∷ "freshness" ∷ []

abbrev pub closed_values : String → List (String × List String) → List String
closed_values key [] = []
closed_values key ((k, values) ∷ rest) =
    let later = closed_values key rest in if k == key then values else later

-- What the loop of `validatePayload` asks of an entry.
unfoldable pub is_valid_entry : String → String × PayloadValue → Bool
unfolding closed_string_values
is_valid_entry kind (key, text_value t) =
    is_safe_text t
    && (if key == "safeCode"
        then is_safe_code t
        else includes (closed_values key closed_string_values) t)
is_valid_entry kind (key, number_value n) =
    leb n 1000000000000
    && (not (kind == "process.activity" && (key == "count" && ltb n 1))
        && not (key == "retryOrdinal" && ltb 1000 n))

-- Whether `validatePayload` passes.
unfoldable pub is_valid_payload : String → SafeOwnerPayload → Bool
unfolding closed_payload_keys is_valid_entry payload_keys
is_valid_payload kind payload =
    all (λ (e : String × PayloadValue). includes closed_payload_keys e.0) payload
    && (all (λ (e : String × PayloadValue). includes (payload_keys kind) e.0) payload
        && all (is_valid_entry kind) payload)

-- `SEQUENCE.test`: at most twenty digits.
abbrev pub is_sequence : ℕ → Bool
is_sequence n = ltb n 100000000000000000000

unfoldable pub is_valid_parent : CausalRef → Bool
is_valid_parent r =
    is_safe_id r.owner_instance_id
    && (is_safe_id r.epoch_id && (is_sequence r.sequence && is_hex64 r.event_digest))

-- `throw new ProjectionFault(code)` where the test fails.
unfoldable pub unless : Bool → FaultCode → Option FaultCode → Option FaultCode
unless true code rest = rest
unless false code rest = some code

-- `validateEvent`.
unfoldable pub validate_event : Platform → OwnerEvent → Option FaultCode
validate_event p e =
    unless (includes (owner_event_kinds e.owner_kind) e.event_kind) FaultCode.owner_schema_unknown (
      unless
        (all is_safe_id (
          e.owner_instance_id
          ∷ e.epoch_id
          ∷ e.event_id
          ∷ e.fact_id
          ∷ correlation_values e.correlations))
        FaultCode.owner_event_invalid
        (unless
          (is_sequence e.sequence
            && (not (e.sequence == 0)
                && (is_hex64 e.fact_digest
                    && (is_hex64 e.previous_event_digest && is_hex64 e.event_digest))))
          FaultCode.owner_event_invalid
          (unless (leb (length e.causal_parents) 16) FaultCode.owner_event_invalid (
            unless (all is_valid_parent e.causal_parents) FaultCode.owner_event_invalid (
              unless (is_valid_payload e.event_kind e.safe_payload) FaultCode.owner_payload_invalid
                (unless
                  (is_some (p.date_parse e.observed_at) && leb (len (canonical_event p e)) 65536)
                  FaultCode.owner_event_invalid
                  (unless (owner_event_digest p e == e.event_digest)
                    FaultCode.owner_event_digest_mismatch none)))))))
