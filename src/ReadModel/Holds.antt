-- ===== src/ReadModel/Holds.antt =====
-- `projectRetentionHold` of packages/kogg-operations/src/node/operations-read-model.ts.
use kogg.Prelude.{
  String, String-Eq, ℕ-Eq, true, false, ◌&&◌, Option, none, some, List, [], ◌∷◌, ◌==◌, map,
  if◌then◌else◌,
}
use kogg.ReadModel.Owners.{OwnerKind-Eq}
use kogg.ReadModel.Lifecycles.{RunLifecycle-Eq}
use kogg.ReadModel.Events.{OwnerEvent}
use kogg.ReadModel.Tables.{RetentionHold, Derived}
use kogg.ReadModel.Runs.{look_up}

-- `HOLD_ACQUIRE` and `HOLD_RELEASE`.
unfoldable pub hold_acquire : String → Option String
hold_acquire kind = look_up kind (
    ("task.retention-held", "task")
    ∷ ("evidence.requested", "evidence")
    ∷ ("evidence.admitted", "evidence")
    ∷ ("verdict.requested", "verdict")
    ∷ ("verdict.accepted", "verdict")
    ∷ ("verdict.rejected", "verdict")
    ∷ ("merge.requested", "merge")
    ∷ ("merge.quarantined", "quarantine")
    ∷ ("execution.quarantined", "quarantine")
    ∷ ("process.quarantined", "quarantine")
    ∷ ("process.residual", "incident")
    ∷ ("process.lost", "incident")
    ∷ ("process.inventory-unknown", "incident")
    ∷ [])

unfoldable pub hold_release : String → Option String
hold_release kind = look_up kind (
    ("task.retention-released", "task")
    ∷ ("evidence.retention-released", "evidence")
    ∷ ("verdict.retention-released", "verdict")
    ∷ ("merge.retention-released", "merge")
    ∷ ("quarantine.retention-released", "quarantine")
    ∷ ("incident.retention-released", "incident")
    ∷ [])

unfoldable pub acquire_hold :
    String → OwnerEvent → Option String → List RetentionHold → List RetentionHold
acquire_hold run_id e none holds = holds
acquire_hold run_id e (some kind) [] =
    record {
      run_id = run_id;
      hold_kind = kind;
      owner_kind = e.owner_kind;
      owner_instance_id = e.owner_instance_id;
      fact_digest = e.fact_digest;
      is_active = true;
      updated_at = e.observed_at;
    }
    ∷ []
acquire_hold run_id e (some kind) (h ∷ holds) =
    let later = acquire_hold run_id e (some kind) holds in
    if h.run_id == run_id && h.hold_kind == kind
    then record h {
      owner_kind = e.owner_kind;
      owner_instance_id = e.owner_instance_id;
      fact_digest = e.fact_digest;
      is_active = true;
      updated_at = e.observed_at;
    }
      ∷ holds
    else h ∷ later

unfoldable pub release_hold :
    String → OwnerEvent → Option String → List RetentionHold → List RetentionHold
release_hold run_id e none holds = holds
release_hold run_id e (some kind) holds =
    map
      (λ (h : RetentionHold).
        if (h.run_id == run_id && h.hold_kind == kind)
          && (h.owner_kind == e.owner_kind && h.owner_instance_id == e.owner_instance_id)
        then record h { is_active = false; fact_digest = e.fact_digest; updated_at = e.observed_at }
        else h)
      holds

-- `projectRetentionHold`.
unfoldable pub project_retention_hold : String → OwnerEvent → Derived → Derived
project_retention_hold run_id e d = record d {
  holds =
      release_hold run_id e (hold_release e.event_kind)
        (acquire_hold run_id e (hold_acquire e.event_kind) d.holds);
}
