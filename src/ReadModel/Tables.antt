-- ===== src/ReadModel/Tables.antt =====
-- The tables of the read model: packages/kogg-operations/src/node/operations-read-model.ts, in rowid
-- order.
use kogg.Prelude.{ℕ, String, String-Eq, ℕ-Eq, Bool, Option, List}
use kogg.ReadModel.Owners.{OwnerKind}
use kogg.ReadModel.Lifecycles.{RunLifecycle, ProjectionLifecycle}
use kogg.ReadModel.Events.{OwnerEvent}
use kogg.ReadModel.Validate.{FaultCode}

pub record OwnerCursor : Type 0 where
  pub owner_kind : OwnerKind
  pub owner_instance_id : String
  pub epoch_id : String
  pub sequence : ℕ
  pub event_digest : String

pub record ConfiguredOwner : Type 0 where
  pub owner_kind : OwnerKind
  pub available : Bool

pub record RunProjection : Type 0 where
  pub run_id : String
  pub task_id : Option String
  pub project_id : Option String
  pub lifecycle : RunLifecycle
  pub owner_lifecycle : RunLifecycle
  pub lifecycle_code : Option String
  pub attempt_count : ℕ
  pub retry_count : ℕ
  pub live_process_count : ℕ
  pub abnormal_process_count : ℕ
  pub check_summary : String
  pub evidence_summary : String
  pub verdict_summary : String
  pub merge_summary : String

pub record ProcessProjection : Type 0 where
  pub process_id : String
  pub run_id : String
  pub operation_id : Option String
  pub attempt_id : Option String
  pub process_kind : String
  pub state : String
  pub cleanup_state : String
  pub abnormal : Bool
  pub live : Bool
  pub safe_code : Option String

pub record TimelineRow : Type 0 where
  pub entry_id : String
  pub run_id : String
  pub owner_kind : OwnerKind
  pub owner_sequence : ℕ
  pub event_kind : String
  pub safe_code : Option String
  pub attempt_id : Option String
  pub process_id : Option String
  pub display_time : String
  pub event_digest : String

-- The key of a row of `activity_aggregates`, on which its identifier is a digest too.
pub record ActivityKey : Type 0 where
  pub run_id : String
  pub owner_instance_id : String
  pub event_kind : String
  pub safe_code : String
  pub attempt_id : String
  pub bucket_start : String

pub record ActivityAggregate : Type 0 where
  pub key : ActivityKey
  pub owner_kind : OwnerKind
  pub event_count : ℕ
  pub first_display_time : String
  pub last_display_time : String
  pub first_owner_sequence : ℕ
  pub last_owner_sequence : ℕ
  pub first_event_digest : String
  pub last_event_digest : String

pub record RetentionHold : Type 0 where
  pub run_id : String
  pub hold_kind : String
  pub owner_kind : OwnerKind
  pub owner_instance_id : String
  pub fact_digest : String
  pub is_active : Bool
  pub updated_at : String

-- What is rebuilt from the accepted events.
pub record Derived : Type 0 where
  pub runs : List RunProjection
  pub processes : List ProcessProjection
  pub timeline : List TimelineRow
  pub aggregates : List ActivityAggregate
  pub holds : List RetentionHold

pub data ChangeKind : Type 0 where
  owner_event_change rebuild_change retention_change : ChangeKind

pub record ProjectionChange : Type 0 where
  pub sequence : ℕ
  pub kind : ChangeKind
  pub run_id : Option String
  pub is_protected : Bool
  pub approximate_bytes : ℕ

pub record ProjectionFault : Type 0 where
  pub owner_kind : OwnerKind
  pub owner_instance_id : String
  pub epoch_id : String
  pub owner_sequence : ℕ
  pub safe_code : FaultCode

pub data MetricKind : Type 0 where
  counter gauge histogram : MetricKind

-- A row of `metric_values`; its time of update is left out. The bound is none where it is -1.
pub record MetricValue : Type 0 where
  pub projection_epoch : String
  pub name : String
  pub metric_kind : MetricKind
  pub labels : List (String × String)
  pub bucket_upper_bound : Option ℕ
  pub value : ℕ

pub record ReadModel : Type 0 where
  pub projection_epoch : String
  pub lifecycle : ProjectionLifecycle
  pub change_sequence : ℕ
  pub cursors : List OwnerCursor
  pub owners : List ConfiguredOwner
  pub accepted : List OwnerEvent
  pub edges : List (String × String)
  pub derived : Derived
  pub changes : List ProjectionChange
  pub faults : List ProjectionFault
  pub metrics : List MetricValue
