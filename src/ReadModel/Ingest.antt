-- ===== src/ReadModel/Ingest.antt =====
-- `ingest`, `registerOwner` and `rebuild` of
-- packages/kogg-operations/src/node/operations-read-model.ts, on a store that is open. The digest of
-- 64 zeros is `zero_digest`.
use kogg.Prelude.{
  ℕ, ◌+◌, String, String-Eq, ℕ-Eq, Bool, true, false, not, ◌&&◌, ◌||◌, Option, none, some, List, [],
  ◌∷◌, ◌++◌, ◌==◌, map, filter, find?, any, all, length, ltb, includes, if◌then◌else◌,
}
use kogg.Text.{is_safe_id}
use kogg.ReadModel.Owners.{OwnerKind, OwnerKind-Eq}
use kogg.ReadModel.Lifecycles.{ProjectionLifecycle}
use kogg.ReadModel.Events.{CausalRef, OwnerEvent, Platform}
use kogg.ReadModel.Validate.{FaultCode, is_sequence, validate_event}
use kogg.ReadModel.Tables.{
  OwnerCursor, ConfiguredOwner, Derived, ChangeKind, ProjectionFault, MetricValue, ReadModel,
}
use kogg.ReadModel.Project.{project_event}
use kogg.ReadModel.Metrics.{project_metrics}
use kogg.ReadModel.Changes.{append_change, is_protected_event}

-- `ZERO_DIGEST`.
abbrev pub zero_digest : String
zero_digest = "0000000000000000000000000000000000000000000000000000000000000000"

-- How `ingest` ends; it throws a fault, or an error of the store, whose constraints then have kept
-- everything as it was.
pub data IngestResult : Type 0 where
  accepted_event duplicate_event : IngestResult
  faulted : FaultCode → IngestResult
  store_error : IngestResult

abbrev pub is_key : String → String → ℕ → OwnerEvent → Bool
is_key instance_id epoch_id sequence e =
    e.owner_instance_id == instance_id && (e.epoch_id == epoch_id && e.sequence == sequence)

unfoldable pub find_event : String → String → ℕ → List OwnerEvent → Option OwnerEvent
find_event instance_id epoch_id sequence events =
    find? (is_key instance_id epoch_id sequence) events

unfoldable pub find_cursor : String → List OwnerCursor → Option OwnerCursor
find_cursor instance_id cursors =
    find? (λ (c : OwnerCursor). c.owner_instance_id == instance_id) cursors

-- What the cursor of an owner's instance makes of an event: the fault, or whether the event opens a
-- new epoch.
pub data Verdict : Type 0 where
  refused_by : FaultCode → Verdict
  follows : Verdict
  reopens : Verdict

abbrev is_first : OwnerEvent → Bool
is_first e = e.sequence == 1 && e.previous_event_digest == zero_digest

unfoldable pub judge : OwnerEvent → Option OwnerCursor → Verdict
judge e none = if is_first e then follows else refused_by FaultCode.owner_cursor_gap
judge e (some c) =
    if not (c.epoch_id == e.epoch_id)
    then if is_first e then reopens else refused_by FaultCode.owner_epoch_unknown
    else if ltb e.sequence (c.sequence + 1)
    then refused_by FaultCode.owner_cursor_rewind
    else if ltb (c.sequence + 1) e.sequence
    then refused_by FaultCode.owner_cursor_gap
    else if c.event_digest == e.previous_event_digest
    then follows
    else refused_by FaultCode.owner_previous_digest_mismatch

unfoldable pub has_parent : List OwnerEvent → CausalRef → Bool
has_parent events r =
    any
      (λ (e : OwnerEvent).
        is_key r.owner_instance_id r.epoch_id r.sequence e && e.event_digest == r.event_digest)
      events

-- `safeId` and `safeSequence`.
abbrev safe_id : String → String
safe_id s = if is_safe_id s then s else "unknown"

abbrev safe_sequence : ℕ → ℕ
safe_sequence n = if is_sequence n then n else 0

-- `persistFault`.
unfoldable pub persist_fault : OwnerEvent → FaultCode → ReadModel → ReadModel
persist_fault e code m = record m {
  faults =
      m.faults
      ++ record {
        owner_kind = e.owner_kind;
        owner_instance_id = safe_id e.owner_instance_id;
        epoch_id = safe_id e.epoch_id;
        owner_sequence = safe_sequence e.sequence;
        safe_code = code;
      }
        ∷ [];
  lifecycle = ProjectionLifecycle.degraded_projection;
}

-- `reject`, and the throw after a failed validation.
unfoldable pub reject : OwnerEvent → FaultCode → ReadModel → IngestResult × ReadModel
reject e code m = (faulted code, persist_fault e code m)

abbrev has_repeat : List String → Bool
has_repeat [] = false
has_repeat (x ∷ xs) = includes xs x || has_repeat xs

-- The unique columns of `accepted_events`, less the key that was looked up, and of `causal_edges`.
unfoldable pub violates : OwnerEvent → ReadModel → Bool
violates e m =
    any (λ (a : OwnerEvent). a.event_id == e.event_id || a.event_digest == e.event_digest)
      m.accepted
    || has_repeat (map (λ (r : CausalRef). r.event_digest) e.causal_parents)

unfoldable pub cursor_of : OwnerEvent → OwnerCursor
cursor_of e = record {
  owner_kind = e.owner_kind;
  owner_instance_id = e.owner_instance_id;
  epoch_id = e.epoch_id;
  sequence = e.sequence;
  event_digest = e.event_digest;
}

-- `INSERT INTO owner_cursors ... ON CONFLICT(owner_instance_id) DO UPDATE`, which keeps the kind.
unfoldable pub advance_cursor : OwnerEvent → List OwnerCursor → List OwnerCursor
advance_cursor e [] = cursor_of e ∷ []
advance_cursor e (c ∷ cs) =
    let later = advance_cursor e cs in
    if c.owner_instance_id == e.owner_instance_id
    then record (cursor_of e) { owner_kind = c.owner_kind } ∷ cs
    else c ∷ later

-- `INSERT INTO configured_owners ... ON CONFLICT DO UPDATE`.
unfoldable pub make_available : OwnerKind → List ConfiguredOwner → List ConfiguredOwner
make_available kind [] = record { owner_kind = kind; available = true } ∷ []
make_available kind (o ∷ os) =
    let later = make_available kind os in
    if o.owner_kind == kind then record o { available = true } ∷ os else o ∷ later

-- The faults that a reopened epoch resolves.
unfoldable pub resolve_faults : OwnerEvent → Bool → List ProjectionFault → List ProjectionFault
resolve_faults e false faults = faults
resolve_faults e true faults =
    filter
      (λ (f : ProjectionFault). not (
        f.owner_kind == e.owner_kind
        && (f.owner_instance_id == e.owner_instance_id && not (f.epoch_id == e.epoch_id))))
      faults

-- `reevaluateLifecycle`.
unfoldable pub reevaluate_lifecycle : ReadModel → ReadModel
reevaluate_lifecycle m =
    let unavailable = any (λ (o : ConfiguredOwner). not o.available) m.owners in
    record m {
      lifecycle =
          if ltb 0 (length m.faults) || unavailable
          then ProjectionLifecycle.degraded_projection
          else ProjectionLifecycle.current_projection;
    }

-- The transaction of an accepted event.
unfoldable pub record_event : Platform → OwnerEvent → Bool → ReadModel → ReadModel
record_event p e reopened m =
    let derived = project_event p e m.derived in
    let (sequence, changes) =
      append_change ChangeKind.owner_event_change e.correlations.run_id
        (is_protected_event e.event_kind) m.change_sequence m.changes in
    record m {
      accepted = m.accepted ++ e ∷ [];
      edges = m.edges ++ map (λ (r : CausalRef). (e.event_digest, r.event_digest)) e.causal_parents;
      cursors = advance_cursor e m.cursors;
      faults = resolve_faults e reopened m.faults;
      owners = make_available e.owner_kind m.owners;
      derived = derived;
      metrics = project_metrics m.projection_epoch e derived m.metrics;
      change_sequence = sequence;
      changes = changes;
    }

-- From the look-up of the causal parents on.
unfoldable pub accept : Platform → OwnerEvent → Bool → ReadModel → IngestResult × ReadModel
accept p e reopened m =
    if not (all (has_parent m.accepted) e.causal_parents)
    then reject e FaultCode.causal_parent_missing m
    else if violates e m
    then (store_error, m)
    else (accepted_event, reevaluate_lifecycle (record_event p e reopened m))

-- Of an event that is new.
unfoldable pub ingest_new : Platform → OwnerEvent → Verdict → ReadModel → IngestResult × ReadModel
ingest_new p e (refused_by code) m = reject e code m
ingest_new p e follows m = accept p e false m
ingest_new p e reopens m = accept p e true m

-- Of an event that is valid.
unfoldable pub ingest_valid :
    Platform → OwnerEvent → Option OwnerEvent → ReadModel → IngestResult × ReadModel
ingest_valid p e none m = ingest_new p e (judge e (find_cursor e.owner_instance_id m.cursors)) m
ingest_valid p e (some existing) m =
    if existing.event_digest == e.event_digest
    then (duplicate_event, m)
    else reject e FaultCode.owner_sequence_conflict m

unfoldable pub ingest_checked :
    Platform → OwnerEvent → Option FaultCode → ReadModel → IngestResult × ReadModel
ingest_checked p e (some code) m = reject e code m
ingest_checked p e none m =
    ingest_valid p e (find_event e.owner_instance_id e.epoch_id e.sequence m.accepted) m

-- `ingest`.
unfoldable pub ingest : Platform → OwnerEvent → ReadModel → IngestResult × ReadModel
ingest p e m = ingest_checked p e (validate_event p e) m

-- `registerOwner`.
unfoldable pub register_owner : OwnerKind → ReadModel → ReadModel
register_owner kind m = reevaluate_lifecycle (record m { owners = make_available kind m.owners })

abbrev pub no_derived : Derived
no_derived = record { runs = []; processes = []; timeline = []; aggregates = []; holds = [] }

-- The loop of `rebuildDerived` over the accepted events, each of which `rowToEvent` reads back as it was
-- written.
unfoldable pub project_all :
    Platform → String → List OwnerEvent → Derived → List MetricValue → Derived × List MetricValue
project_all p epoch [] d ms = (d, ms)
project_all p epoch (e ∷ es) d ms =
    let derived = project_event p e d in
    project_all p epoch es derived (project_metrics epoch e derived ms)

-- `rebuildDerived(true)`, with the epoch that `randomUUID` makes.
unfoldable pub rebuild_derived : Platform → String → ReadModel → ReadModel
rebuild_derived p random_uuid m =
    let (derived, metrics) = project_all p random_uuid m.accepted no_derived m.metrics in
    record m {
      projection_epoch = random_uuid;
      change_sequence = 0;
      changes = [];
      derived = derived;
      metrics = metrics;
    }
