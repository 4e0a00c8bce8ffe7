-- ===== src/ReadModel/Startup.antt =====
-- `start`, `stop`, `rebuildDerived(false)` and the clients of
-- packages/kogg-operations/src/node/operations-read-model.ts, on a store whose tables are there. What
-- SQLite's checks and the file's permissions say is given, and whether a client takes a change.
use kogg.Prelude.{
  ℕ, String, String-Eq, Bool, true, false, not, List, [], ◌∷◌, ◌++◌, ◌==◌, map, filter, includes,
  if◌then◌else◌, Option, none, some, ℕ-Eq,
}
use kogg.ReadModel.Lifecycles.{ProjectionLifecycle}
use kogg.ReadModel.Events.{Platform}
use kogg.ReadModel.Tables.{ConfiguredOwner, ProjectionChange, MetricValue, ReadModel}
use kogg.ReadModel.Actions.{ActionStatus, ActionRow}
use kogg.ReadModel.Ingest.{no_derived, project_all, reevaluate_lifecycle}
use kogg.ReadModel.Retention.{apply_retention}

-- `rebuildDerived(false)`: the epoch stays, and what it has counted is counted anew.
unfoldable pub rebuild_in_place : Platform → ReadModel → ReadModel
rebuild_in_place p m =
    let others =
      filter (λ (v : MetricValue). not (v.projection_epoch == m.projection_epoch)) m.metrics in
    let (derived, metrics) = project_all p m.projection_epoch m.accepted no_derived others in
    record m { change_sequence = 0; changes = []; derived = derived; metrics = metrics }

abbrev is_forwarding : ActionRow → Bool
is_forwarding r = elim r.status [
  | ActionStatus.unknown_action ↦ r.safe_code == "ACTION_FORWARDING"
  | _ ↦ false
]

-- The actions that were being forwarded when the application ended.
unfoldable pub recover_actions : List ActionRow → List ActionRow
recover_actions rows =
    map
      (λ (r : ActionRow).
        if is_forwarding r then record r { safe_code = "ACTION_OUTCOME_UNKNOWN" } else r)
      rows

unfoldable pub set_lifecycle : ProjectionLifecycle → ReadModel → ReadModel
set_lifecycle lifecycle m = record m { lifecycle = lifecycle }

-- `UPDATE configured_owners SET status='unavailable'`.
unfoldable pub withdraw_owners : ReadModel → ReadModel
withdraw_owners m = record m {
  owners = map (λ (o : ConfiguredOwner). record o { available = false }) m.owners;
}

-- `start` from the migration on, with what `assertIntegrity` finds: false where it throws.
unfoldable pub start_store :
    Platform
    → (MetricValue → String)
    → String
    → String
    → Bool
    → List ActionRow
    → ReadModel
    → Bool × List ActionRow × ReadModel
start_store p updated_at detail_cutoff activity_cutoff false actions m = (
  false,
  recover_actions actions,
  set_lifecycle ProjectionLifecycle.failed_projection (withdraw_owners m),
)
start_store p updated_at detail_cutoff activity_cutoff true actions m =
    let verified = set_lifecycle ProjectionLifecycle.replaying_projection (withdraw_owners m) in
    (
      true,
      recover_actions actions,
      reevaluate_lifecycle
          (apply_retention p updated_at detail_cutoff activity_cutoff
            (rebuild_in_place p verified)).1,
    )

-- The set of clients, each by its identity, in the order of insertion.
unfoldable pub add_client : ℕ → List ℕ → List ℕ
add_client client clients = if includes clients client then clients else clients ++ client ∷ []

-- `dropClient`, and the function that `addClient` returns.
unfoldable pub drop_client : ℕ → List ℕ → List ℕ
drop_client client clients = filter (λ c. not (c == client)) clients

-- `setClient`.
unfoldable pub set_client : Option ℕ → List ℕ
set_client none = []
set_client (some client) = add_client client []

abbrev latest : List ProjectionChange → Option ProjectionChange
latest [] = none
latest (c ∷ []) = some c
latest (c ∷ d ∷ cs) = latest (d ∷ cs)

-- The loop of `notifyLatestChange` over a copy of the clients: one that throws, or whose promise fails,
-- is dropped, and the others are told all the same.
unfoldable pub tell_clients :
    (ℕ → ProjectionChange → Bool) → ProjectionChange → List ℕ → List ℕ → List ℕ
tell_clients takes change [] clients = clients
tell_clients takes change (client ∷ rest) clients =
    tell_clients takes change rest
      (if takes client change then clients else drop_client client clients)

-- `notifyLatestChange`.
unfoldable pub notify_latest_change : (ℕ → ProjectionChange → Bool) → ReadModel → List ℕ → List ℕ
notify_latest_change takes m clients = elim (latest m.changes) [
  | none ↦ clients
  | some change ↦ tell_clients takes change clients clients
]

-- `stop`.
unfoldable pub stop_store : ReadModel → List ℕ × ReadModel
stop_store m = ([], set_lifecycle ProjectionLifecycle.stopped_projection m)
