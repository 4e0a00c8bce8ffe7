-- ===== src/Workflow/Graph.antt =====
-- The workflow graph, its plan and the codes that its checks end with:
-- packages/kogg-workflow/src/common/workflow-protocol.ts. Fields that have one value only are left out.
use kogg.Prelude.{ℕ, String, Option, List}
use kogg.Workflow.Kinds.{EditableNodeKind}
use kogg.Workflow.Effects.{WorkflowAuthorityEffect, EdgeOutcome}

pub data WorkflowSafeCode : Type 0 where
  workflow_ok workflow_schema_invalid workflow_version_conflict : WorkflowSafeCode
  workflow_catalog_mismatch workflow_graph_invalid workflow_cycle : WorkflowSafeCode
  workflow_port_invalid workflow_unreachable workflow_join_ambiguous : WorkflowSafeCode
  workflow_bound_exceeded workflow_condition_invalid workflow_anchor_bypass : WorkflowSafeCode
  workflow_authority_expansion workflow_role_separation workflow_target_mismatch : WorkflowSafeCode
  workflow_executor_incompatible workflow_approval_required : WorkflowSafeCode
  workflow_approval_invalid workflow_deadline workflow_retry_refused : WorkflowSafeCode
  workflow_outcome_unknown workflow_external_failure workflow_process_failed : WorkflowSafeCode
  workflow_cleanup_failed workflow_residual_process workflow_recovery_failed : WorkflowSafeCode
  workflow_stale_evidence workflow_stale_verdict workflow_merge_refused : WorkflowSafeCode
  workflow_store_integrity workflow_cancelled workflow_internal : WorkflowSafeCode

pub data SideEffectPolicy : Type 0 where
  no_side_effect idempotent_exact_key fresh_authority : SideEffectPolicy

pub record WorkflowRetryPolicy : Type 0 where
  pub max_attempts : ℕ
  pub backoff_ms : ℕ
  pub side_effect_policy : SideEffectPolicy

pub data Target : Type 0 where
  project_read_only private_worktree : Target

pub data Condition : Type 0 where
  always prior_success prior_failure : Condition

pub record WorkflowNodeConfiguration : Type 0 where
  pub role_revision_id : Option String
  pub provider_id : Option String
  pub model_id : Option String
  pub adapter_key : Option String
  pub adapter_version : Option String
  pub deadline_policy_id : Option String
  pub operation_id : Option String
  pub check_id : Option String
  pub external_configuration_digest : Option String
  pub absolute_deadline_ms : ℕ
  pub target : Target
  pub condition : Condition

pub record EditableWorkflowNode : Type 0 where
  pub node_id : String
  pub kind : EditableNodeKind
  pub configuration_digest : String
  pub configuration : Option WorkflowNodeConfiguration
  pub requested_effects : List WorkflowAuthorityEffect
  pub retry : WorkflowRetryPolicy

pub record EditableWorkflowEdge : Type 0 where
  pub edge_id : String
  pub source_node_id : String
  pub source_port : EdgeOutcome
  pub target_node_id : String

pub record WorkflowGroup : Type 0 where
  pub group_id : String
  pub member_node_ids : List String
  pub display_order : List String

pub record EditableWorkflowGraph : Type 0 where
  pub project_id : String
  pub nodes : List EditableWorkflowNode
  pub edges : List EditableWorkflowEdge
  pub groups : Option (List WorkflowGroup)

pub record WorkflowCompiledPlan : Type 0 where
  pub plan_id : String
  pub version_id : String
  pub plan_digest : String
  pub graph_digest : String
  pub trust_spine_digest : String
  pub catalog_digest : String
  pub editable_node_count : ℕ
  pub injected_anchor_count : ℕ
