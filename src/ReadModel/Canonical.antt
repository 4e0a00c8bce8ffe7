-- ===== src/ReadModel/Canonical.antt =====
-- `canonical` of packages/kogg-operations/src/node/operations-read-model.ts on the events of owners,
-- and the digest of an event.
use Prim.Native.Nat.{Ordering}
use Prim.Native.String.{compare, ◌++◌ as str_append}
use kogg.Prelude.{
  false, String, Bool, true, Option, none, some, List, [], ◌∷◌, ◌++◌, map, if◌then◌else◌,
}
use kogg.ReadModel.Owners.{owner_text}
use kogg.ReadModel.Events.{
  SafeCorrelations, CausalRef, PayloadValue, text_value, number_value, SafeOwnerPayload, OwnerEvent,
  Platform,
}

abbrev pub before : String → String → Bool
before a b = elim (compare a b) [ Ordering.gt ↦ false | _ ↦ true ]

-- `Object.keys(value).sort()`, on the entries.
abbrev pub insert_entry : String × String → List (String × String) → List (String × String)
insert_entry e [] = e ∷ []
insert_entry e (x ∷ xs) =
    let later = insert_entry e xs in if before e.0 x.0 then e ∷ x ∷ xs else x ∷ later

abbrev pub sort_entries : List (String × String) → List (String × String)
sort_entries [] = []
sort_entries (x ∷ xs) = insert_entry x (sort_entries xs)

-- `parts.join(',')`.
abbrev pub join_comma : List String → String
join_comma [] = ""
join_comma (x ∷ []) = x
join_comma (x ∷ y ∷ xs) = str_append x (str_append "," (join_comma (y ∷ xs)))

module _ (p : Platform) where
  abbrev pub object_text : List (String × String) → String
  object_text entries = str_append "{" (
      str_append
        (join_comma (
          map (λ (e : String × String). str_append (p.stringify e.0) (str_append ":" e.1))
            (sort_entries entries)))
        "}")

  abbrev pub array_text : List String → String
  array_text items = str_append "[" (str_append (join_comma items) "]")

  abbrev optional : String → Option String → List (String × String)
  optional key none = []
  optional key (some v) = (key, p.stringify v) ∷ []

  abbrev correlations_text : SafeCorrelations → String
  correlations_text c = object_text (
      optional "taskId" c.task_id
      ++ optional "projectId" c.project_id
      ++ optional "runId" c.run_id
      ++ optional "nodeId" c.node_id
      ++ optional "attemptId" c.attempt_id
      ++ optional "operationId" c.operation_id
      ++ optional "processId" c.process_id
      ++ optional "checkId" c.check_id
      ++ optional "evidenceId" c.evidence_id
      ++ optional "verdictId" c.verdict_id
      ++ optional "mergeId" c.merge_id)

  abbrev parent_text : CausalRef → String
  parent_text r = object_text (
      ("ownerInstanceId", p.stringify r.owner_instance_id)
      ∷ ("epochId", p.stringify r.epoch_id)
      ∷ ("sequence", p.stringify (p.decimal r.sequence))
      ∷ ("eventDigest", p.stringify r.event_digest)
      ∷ [])

  abbrev value_text : PayloadValue → String
  value_text (text_value t) = p.stringify t
  value_text (number_value n) = p.stringify_number n

  abbrev payload_text_of : SafeOwnerPayload → String
  payload_text_of payload =
      object_text (map (λ (e : String × PayloadValue). (e.0, value_text e.1)) payload)

  abbrev unsigned_entries : OwnerEvent → List (String × String)
  unsigned_entries e =
      ("ownerKind", p.stringify (owner_text e.owner_kind))
      ∷ ("ownerInstanceId", p.stringify e.owner_instance_id)
      ∷ ("ownerSchemaVersion", p.stringify_number 1)
      ∷ ("epochId", p.stringify e.epoch_id)
      ∷ ("sequence", p.stringify (p.decimal e.sequence))
      ∷ ("eventId", p.stringify e.event_id)
      ∷ ("eventKind", p.stringify e.event_kind)
      ∷ ("factId", p.stringify e.fact_id)
      ∷ ("factDigest", p.stringify e.fact_digest)
      ∷ ("previousEventDigest", p.stringify e.previous_event_digest)
      ∷ ("causalParents", array_text (map parent_text e.causal_parents))
      ∷ ("correlations", correlations_text e.correlations)
      ∷ ("observedAt", p.stringify e.observed_at)
      ∷ ("safePayload", payload_text_of e.safe_payload)
      ∷ []

  -- `canonical(event)`.
  unfoldable pub canonical_event : OwnerEvent → String
  canonical_event e = object_text (("eventDigest", p.stringify e.event_digest) ∷ unsigned_entries e)

  -- `OperationsReadModel.digest`.
  unfoldable pub owner_event_digest : OwnerEvent → String
  owner_event_digest e =
      p.sha256 (str_append "kogg:operations:owner-event:v1\0" (object_text (unsigned_entries e)))
