-- ===== src/ReadModel/Rebuilt.antt =====
-- `rebuildDerived` of packages/kogg-operations/src/node/operations-read-model.ts and what `ingest` has
-- projected.
use kogg.Prelude.{String, Bool, List, [], ◌∷◌, ◌++◌, ◌≡◌, refl, sym, ap, ◌∙◌}
use kogg.ReadModel.Events.{OwnerEvent, Platform}
use kogg.ReadModel.Validate.{FaultCode}
use kogg.ReadModel.Tables.{Derived, MetricValue, ReadModel}
use kogg.ReadModel.Project.{project_event}
use kogg.ReadModel.Metrics.{project_metrics}
use kogg.ReadModel.Ingest.{
  IngestResult, accepted_event, duplicate_event, faulted, store_error, persist_fault,
  reevaluate_lifecycle, record_event, ingest, no_derived, project_all, rebuild_derived,
}
use kogg.ReadModel.Startup.{rebuild_in_place}
use kogg.ReadModel.Effects.{Leaves, ingest-Leaves}

-- Events that arrive one after the other.
abbrev pub ingest_all : Platform → List OwnerEvent → ReadModel → ReadModel
ingest_all p [] m = m
ingest_all p (e ∷ es) m = ingest_all p es (ingest p e m).1

-- What the events project, without the metrics.
abbrev derive_all : Platform → List OwnerEvent → Derived → Derived
derive_all p [] d = d
derive_all p (e ∷ es) d = derive_all p es (project_event p e d)

project_all-derive_all :
    (p : Platform) (epoch : String) (es : List OwnerEvent) (d : Derived) (ms : List MetricValue)
    → (project_all p epoch es d ms).0 ≡ derive_all p es d
unfolding project_all
project_all-derive_all p epoch [] d ms = refl
project_all-derive_all p epoch (e ∷ es) d ms =
    project_all-derive_all p epoch es (project_event p e d)
      (project_metrics epoch e (project_event p e d) ms)

derive_all-snoc :
    (p : Platform) (es : List OwnerEvent) (e : OwnerEvent) (d : Derived)
    → derive_all p (es ++ e ∷ []) d ≡ project_event p e (derive_all p es d)
derive_all-snoc p [] e d = refl
derive_all-snoc p (x ∷ es) e d = derive_all-snoc p es e (project_event p x d)

-- The projections are those of the accepted events.
abbrev IsProjected : Platform → ReadModel → Type 0
IsProjected p m = m.derived ≡ derive_all p m.accepted no_derived

recorded-IsProjected :
    (p : Platform) (e : OwnerEvent) (reopened : Bool) (m : ReadModel)
    → IsProjected p m
    → IsProjected p (reevaluate_lifecycle (record_event p e reopened m))
unfolding record_event reevaluate_lifecycle
recorded-IsProjected p e reopened m h =
    ap (project_event p e) h ∙ sym (derive_all-snoc p m.accepted e no_derived)

faulted-IsProjected :
    (p : Platform) (e : OwnerEvent) (code : FaultCode) (m : ReadModel)
    → IsProjected p m
    → IsProjected p (persist_fault e code m)
unfolding persist_fault
faulted-IsProjected p e code m h = h

Leaves-IsProjected :
    (p : Platform) (e : OwnerEvent) (m : ReadModel) (result : IngestResult) (m' : ReadModel)
    → IsProjected p m
    → Leaves p e m (result, m')
    → IsProjected p m'
Leaves-IsProjected p e m accepted_event m' h (_, _, _, (reopened, left)) =
    rw left (recorded-IsProjected p e reopened m h)
Leaves-IsProjected p e m duplicate_event m' h (left, _) = rw left h
Leaves-IsProjected p e m (faulted code) m' h left = rw left (faulted-IsProjected p e code m h)
Leaves-IsProjected p e m store_error m' h left = rw left h

ingest_all-IsProjected :
    (p : Platform) (es : List OwnerEvent) (m : ReadModel)
    → IsProjected p m
    → IsProjected p (ingest_all p es m)
ingest_all-IsProjected p [] m h = h
ingest_all-IsProjected p (e ∷ es) m h =
    ingest_all-IsProjected p es (ingest p e m).1
      (Leaves-IsProjected p e m (ingest p e m).0 (ingest p e m).1 h (ingest-Leaves p e m))

projected_again :
    (p : Platform) (epoch : String) (es : List OwnerEvent) (m : ReadModel) (ms : List MetricValue)
    → m.accepted ≡ []
    → m.derived ≡ no_derived
    → (project_all p epoch (ingest_all p es m).accepted no_derived ms).0
      ≡ (ingest_all p es m).derived
projected_again p epoch es m ms none_accepted empty =
    project_all-derive_all p epoch (ingest_all p es m).accepted no_derived ms
    ∙ sym (ingest_all-IsProjected p es m (rw none_accepted empty))

-- Whatever events arrive at an empty store, in whatever order, and whichever of them are accepted:
-- rebuilding the runs, processes, timeline, activity and holds from the accepted events leaves them as
-- they are, under a new epoch and, as at the start, under the same one.
pub rebuild_derived-same :
    (p : Platform) (random_uuid : String) (es : List OwnerEvent) (m : ReadModel)
    → m.accepted ≡ []
    → m.derived ≡ no_derived
    → ((rebuild_derived p random_uuid (ingest_all p es m)).derived ≡ (ingest_all p es m).derived)
      × ((rebuild_in_place p (ingest_all p es m)).derived ≡ (ingest_all p es m).derived)
unfolding rebuild_derived rebuild_in_place
rebuild_derived-same p random_uuid es m none_accepted empty = (
  projected_again p random_uuid es m _ none_accepted empty,
  projected_again p (ingest_all p es m).projection_epoch es m _ none_accepted empty,
)
