-- ===== src/ReadModel/Retention.antt =====
-- `applyRetention` and `rebuild` of packages/kogg-operations/src/node/operations-read-model.ts.
use kogg.Prelude.{
  ℕ, ℕ-Eq, String, String-Eq, Bool, true, not, ◌==◌, ◌&&◌, none, some, List, [], ◌∷◌, ◌++◌, map,
  filter, any, length, if◌then◌else◌,
}
use kogg.ReadModel.Events.{Platform}
use kogg.ReadModel.Canonical.{sort_entries}
use kogg.ReadModel.Tables.{
  RunProjection, ProcessProjection, TimelineRow, ActivityAggregate, RetentionHold, Derived,
  MetricValue, ChangeKind, ReadModel,
}
use kogg.ReadModel.Runs.{is_ended}
use kogg.ReadModel.Metrics.{refresh_gauges}
use kogg.ReadModel.Lifecycles.{ProjectionLifecycle}
use kogg.ReadModel.Ingest.{rebuild_derived, reevaluate_lifecycle}
use kogg.ReadModel.Changes.{append_change}

-- SQLite's `a <= b` of two texts.
abbrev at_most : Platform → String → String → Bool
at_most p a b = p.text_max a b == b

-- `EXISTS(SELECT 1 FROM retention_holds h WHERE h.run_id=? AND h.active=1)`.
unfoldable pub is_held : String → List RetentionHold → Bool
is_held id holds = any (λ (h : RetentionHold). h.run_id == id && h.is_active) holds

-- `max` over the texts, and the text that `COALESCE` puts in place of none.
unfoldable pub latest_of : Platform → String → List String → String
latest_of p otherwise [] = otherwise
latest_of p otherwise (t ∷ []) = t
latest_of p otherwise (t ∷ u ∷ ts) = p.text_max t (latest_of p otherwise (u ∷ ts))

unfoldable pub display_times : String → Derived → List String
display_times id d =
    map (λ (t : TimelineRow). t.display_time)
      (filter (λ (t : TimelineRow). t.run_id == id) d.timeline)
    ++ map (λ (a : ActivityAggregate). a.last_display_time)
        (filter (λ (a : ActivityAggregate). a.key.run_id == id) d.aggregates)

unfoldable pub is_expired_run : Platform → String → Derived → RunProjection → Bool
is_expired_run p cutoff d r =
    not (is_held r.run_id d.holds)
    && (is_ended r.lifecycle
        && (r.live_process_count == 0
            && (r.abnormal_process_count == 0
                && at_most p (latest_of p "9999-12-31T23:59:59.999Z" (display_times r.run_id d))
                    cutoff)))

-- `ORDER BY r.run_id`.
unfoldable pub expired_runs : Platform → String → Derived → List String
expired_runs p cutoff d =
    map (λ (e : String × String). e.0)
      (sort_entries
        (map (λ (r : RunProjection). (r.run_id, "")) (filter (is_expired_run p cutoff d) d.runs)))

unfoldable pub is_expired_aggregate :
    Platform → String → List RetentionHold → ActivityAggregate → Bool
is_expired_aggregate p cutoff holds a =
    not (is_held a.key.run_id holds) && at_most p a.last_display_time cutoff

-- The rows of an epoch that is over, whose last update is before the cutoff, while nothing is held.
unfoldable pub is_expired_metric :
    Platform
    → (MetricValue → String)
    → String
    → String
    → List RetentionHold
    → List MetricValue
    → MetricValue
    → Bool
is_expired_metric p updated_at cutoff epoch holds metrics v =
    not (any (λ (h : RetentionHold). h.is_active) holds)
    && (not (v.projection_epoch == epoch)
        && at_most p
            (latest_of p "" (
              map updated_at
                (filter (λ (w : MetricValue). w.projection_epoch == v.projection_epoch) metrics)))
            cutoff)

-- The deletions of one run. Its aggregates stay, as in the source.
unfoldable pub delete_run : String → Derived → Derived
delete_run id d = record d {
  timeline = filter (λ (t : TimelineRow). not (t.run_id == id)) d.timeline;
  processes = filter (λ (r : ProcessProjection). not (r.run_id == id)) d.processes;
  holds = filter (λ (h : RetentionHold). not (h.run_id == id)) d.holds;
  runs = filter (λ (r : RunProjection). not (r.run_id == id)) d.runs;
}

unfoldable pub expire_run : String → ReadModel → ReadModel
expire_run id m =
    let (sequence, changes) =
      append_change ChangeKind.retention_change (some id) true m.change_sequence m.changes in
    record m { derived = delete_run id m.derived; change_sequence = sequence; changes = changes }

unfoldable pub expire_runs : List String → ReadModel → ReadModel
expire_runs [] m = m
expire_runs (id ∷ ids) m = expire_runs ids (expire_run id m)

-- The rest of the transaction: `aggregates` and `metrics` are those that are left.
unfoldable pub expire_rest : List ActivityAggregate → List MetricValue → ReadModel → ReadModel
expire_rest aggregates metrics m =
    let derived = record m.derived { aggregates = aggregates } in
    record m { derived = derived; metrics = refresh_gauges m.projection_epoch derived metrics }

-- The transaction, which is left out where nothing expires, and the number of runs that expired.
unfoldable pub conclude_retention :
    List String → List ActivityAggregate → List MetricValue → ReadModel → ℕ × ReadModel
conclude_retention ids aggregates metrics m =
    if length ids == 0
      && (length aggregates == length m.derived.aggregates && length metrics == length m.metrics)
    then (0, m)
    else (length ids, expire_rest aggregates metrics (expire_runs ids m))

-- With the time of update of a metric's row and the two cutoffs, the one for details and the one for
-- activity and metrics, which have the same retention.
unfoldable pub apply_retention :
    Platform → (MetricValue → String) → String → String → ReadModel → ℕ × ReadModel
apply_retention p updated_at detail_cutoff activity_cutoff m =
    let ids = expired_runs p detail_cutoff m.derived in
    let aggregates =
      filter
        (λ (a : ActivityAggregate). not (is_expired_aggregate p activity_cutoff m.derived.holds a))
        m.derived.aggregates in
    let metrics =
      filter
        (λ (v : MetricValue). not (
          is_expired_metric p updated_at activity_cutoff m.projection_epoch m.derived.holds
            m.metrics v))
        m.metrics in
    conclude_retention ids aggregates metrics m

-- `rebuild`, with the epoch that `randomUUID` makes.
unfoldable pub rebuild :
    Platform → String → (MetricValue → String) → String → String → ReadModel → ReadModel
rebuild p random_uuid updated_at detail_cutoff activity_cutoff m =
    let rebuilt =
      rebuild_derived p random_uuid
        (record m { lifecycle = ProjectionLifecycle.rebuilding_projection }) in
    let retained = (apply_retention p updated_at detail_cutoff activity_cutoff rebuilt).1 in
    let (sequence, changes) =
      append_change ChangeKind.rebuild_change none true retained.change_sequence retained.changes in
    reevaluate_lifecycle (record retained { change_sequence = sequence; changes = changes })
