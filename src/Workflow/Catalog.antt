-- ===== src/Workflow/Catalog.antt =====
-- `WorkflowNodeCatalog` of packages/kogg-workflow/src/node/workflow-node-catalog.ts. The executor
-- registry's `binding` and `externalConfigurationAvailable` are parameters.

use Prim.Native.String.{compare}
use Prim.Native.Nat.{Ordering}
use kogg.Prelude.{
  ℕ, String, Bool, Option, List, [], ◌∷◌, ◌==◌, map, find?, filter, length, if◌then◌else◌, leb, not,
  is_some,
}
use kogg.Workflow.Kinds.{EditableNodeKind, EditableNodeKind-Eq}
use kogg.Workflow.Effects.{WorkflowAuthorityEffect, EdgeOutcome, workflow_authority_effect_ordinal}
use kogg.Workflow.Graph.{EditableWorkflowNode}

pub data RetryClass : Type 0 where
  no_retry read_only idempotent_exact_key fresh_authority : RetryClass

pub data SideEffectClass : Type 0 where
  no_side_effect private_mutation external_call approval verification : SideEffectClass

pub record WorkflowExecutorBinding : Type 0 where
  pub executor_id : String
  pub executor_version : String
  pub artifact_digest : String

pub record Executors : Type 0 where
  pub binding : EditableNodeKind → Option WorkflowExecutorBinding
  pub external_configuration_available : EditableWorkflowNode → Bool

-- A value of `DEFINITIONS`.
pub record Definition : Type 0 where
  pub output_ports : List EdgeOutcome
  pub grant_ceiling : List WorkflowAuthorityEffect
  pub retry_class : RetryClass
  pub side_effect_class : SideEffectClass
  pub absolute_deadline_ms : ℕ

-- `executor` is none where its status is `unavailable`.
pub record WorkflowCatalogEntry : Type 0 where
  pub kind : EditableNodeKind
  pub definition : Definition
  pub executor : Option WorkflowExecutorBinding

unfoldable pub insert_effect :
    WorkflowAuthorityEffect → List WorkflowAuthorityEffect → List WorkflowAuthorityEffect
insert_effect e [] = e ∷ []
insert_effect e (x ∷ xs) =
    if leb (workflow_authority_effect_ordinal e) (workflow_authority_effect_ordinal x)
    then e ∷ x ∷ xs
    else x ∷ insert_effect e xs

-- `[...effects].sort()`.
unfoldable pub sort_effects : List WorkflowAuthorityEffect → List WorkflowAuthorityEffect
sort_effects [] = []
sort_effects (x ∷ xs) = insert_effect x (sort_effects xs)

unfoldable pub default_ports : List EdgeOutcome
default_ports = EdgeOutcome.success ∷ EdgeOutcome.failure ∷ EdgeOutcome.finally ∷ []

-- The function `definition`.
unfoldable pub make_definition :
    List WorkflowAuthorityEffect → RetryClass → SideEffectClass → ℕ → List EdgeOutcome → Definition
make_definition effects retry side_effect deadline ports = record {
  output_ports = ports;
  grant_ceiling = sort_effects effects;
  retry_class = retry;
  side_effect_class = side_effect;
  absolute_deadline_ms = deadline;
}

-- The effects that most kinds may have.
abbrev pub read_effect : WorkflowAuthorityEffect
read_effect = WorkflowAuthorityEffect.read_repository

abbrev pub mutate_effect : WorkflowAuthorityEffect
mutate_effect = WorkflowAuthorityEffect.mutate_private_repository

abbrev pub tool_effect : WorkflowAuthorityEffect
tool_effect = WorkflowAuthorityEffect.run_tool

abbrev pub provider_effect : WorkflowAuthorityEffect
provider_effect = WorkflowAuthorityEffect.invoke_provider

-- `DEFINITIONS`.
unfoldable pub definition_of : EditableNodeKind → Definition
definition_of EditableNodeKind.research_agent =
    make_definition (read_effect ∷ provider_effect ∷ []) RetryClass.fresh_authority
      SideEffectClass.external_call 900000 default_ports
definition_of EditableNodeKind.pseudocode_agent =
    make_definition (read_effect ∷ mutate_effect ∷ provider_effect ∷ []) RetryClass.fresh_authority
      SideEffectClass.private_mutation 900000 default_ports
definition_of EditableNodeKind.probe_agent =
    make_definition (read_effect ∷ mutate_effect ∷ provider_effect ∷ tool_effect ∷ [])
      RetryClass.fresh_authority SideEffectClass.private_mutation 900000 default_ports
definition_of EditableNodeKind.implementation_agent =
    make_definition (read_effect ∷ mutate_effect ∷ provider_effect ∷ tool_effect ∷ [])
      RetryClass.fresh_authority SideEffectClass.private_mutation 1800000 default_ports
definition_of EditableNodeKind.tool_git =
    make_definition (read_effect ∷ mutate_effect ∷ tool_effect ∷ []) RetryClass.idempotent_exact_key
      SideEffectClass.private_mutation 120000 default_ports
definition_of EditableNodeKind.tool_build =
    make_definition (read_effect ∷ tool_effect ∷ []) RetryClass.read_only
      SideEffectClass.external_call 900000 default_ports
definition_of EditableNodeKind.check_deterministic =
    make_definition (read_effect ∷ tool_effect ∷ WorkflowAuthorityEffect.record_check ∷ [])
      RetryClass.read_only SideEffectClass.verification 900000 default_ports
definition_of EditableNodeKind.approval_specification =
    make_definition (WorkflowAuthorityEffect.record_approval ∷ []) RetryClass.no_retry
      SideEffectClass.approval 86400000 default_ports
definition_of EditableNodeKind.approval_continue =
    make_definition (WorkflowAuthorityEffect.record_approval ∷ []) RetryClass.no_retry
      SideEffectClass.approval 86400000 default_ports
definition_of EditableNodeKind.control_condition =
    make_definition [] RetryClass.no_retry SideEffectClass.no_side_effect 1000
      (EdgeOutcome.on_true ∷ EdgeOutcome.on_false ∷ EdgeOutcome.failure ∷ EdgeOutcome.finally ∷ [])
definition_of EditableNodeKind.control_parallel =
    make_definition [] RetryClass.no_retry SideEffectClass.no_side_effect 1000 default_ports
definition_of EditableNodeKind.control_join =
    make_definition [] RetryClass.no_retry SideEffectClass.no_side_effect 1000 default_ports
definition_of EditableNodeKind.control_group =
    make_definition [] RetryClass.no_retry SideEffectClass.no_side_effect 1000 default_ports
definition_of EditableNodeKind.control_finally =
    make_definition [] RetryClass.no_retry SideEffectClass.no_side_effect 1000 default_ports

-- The keys of `DEFINITIONS`, in their order.
unfoldable pub definition_kinds : List EditableNodeKind
definition_kinds =
    EditableNodeKind.research_agent ∷ EditableNodeKind.pseudocode_agent
    ∷ EditableNodeKind.probe_agent ∷ EditableNodeKind.implementation_agent
    ∷ EditableNodeKind.tool_git ∷ EditableNodeKind.tool_build ∷ EditableNodeKind.check_deterministic
    ∷ EditableNodeKind.approval_specification ∷ EditableNodeKind.approval_continue
    ∷ EditableNodeKind.control_condition ∷ EditableNodeKind.control_parallel
    ∷ EditableNodeKind.control_join ∷ EditableNodeKind.control_group
    ∷ EditableNodeKind.control_finally ∷ []

-- The text of a kind.
unfoldable pub kind_text : EditableNodeKind → String
kind_text EditableNodeKind.research_agent = "research.agent"
kind_text EditableNodeKind.pseudocode_agent = "pseudocode.agent"
kind_text EditableNodeKind.probe_agent = "probe.agent"
kind_text EditableNodeKind.implementation_agent = "implementation.agent"
kind_text EditableNodeKind.tool_git = "tool.git"
kind_text EditableNodeKind.tool_build = "tool.build"
kind_text EditableNodeKind.check_deterministic = "check.deterministic"
kind_text EditableNodeKind.approval_specification = "approval.specification"
kind_text EditableNodeKind.approval_continue = "approval.continue"
kind_text EditableNodeKind.control_condition = "control.condition"
kind_text EditableNodeKind.control_parallel = "control.parallel"
kind_text EditableNodeKind.control_join = "control.join"
kind_text EditableNodeKind.control_group = "control.group"
kind_text EditableNodeKind.control_finally = "control.finally"

unfoldable pub insert_kind : EditableNodeKind → List EditableNodeKind → List EditableNodeKind
unfolding kind_text
insert_kind k [] = k ∷ []
insert_kind k (x ∷ xs) = elim (compare (kind_text k) (kind_text x)) [
  | Ordering.gt ↦ x ∷ insert_kind k xs
  | _ ↦ k ∷ x ∷ xs
]

unfoldable pub sort_kinds : List EditableNodeKind → List EditableNodeKind
unfolding insert_kind
sort_kinds [] = []
sort_kinds (k ∷ ks) = insert_kind k (sort_kinds ks)

-- `Object.keys(DEFINITIONS).sort()`.
unfoldable pub catalog_kinds : List EditableNodeKind
unfolding definition_kinds sort_kinds
catalog_kinds = sort_kinds definition_kinds

unfoldable pub catalog_entry : Executors → EditableNodeKind → WorkflowCatalogEntry
catalog_entry executors kind = record {
  kind = kind;
  definition = definition_of kind;
  executor = executors.binding kind;
}

-- `entries`.
unfoldable pub entries : Executors → List WorkflowCatalogEntry
entries executors = map (catalog_entry executors) catalog_kinds

-- `entry(kind)`: none where it throws.
unfoldable pub entry : Executors → EditableNodeKind → Option WorkflowCatalogEntry
entry executors kind = find? (λ (e : WorkflowCatalogEntry). e.kind == kind) (entries executors)

-- What `diagnostics()` counts.
unfoldable pub available_executor_count : Executors → ℕ
available_executor_count executors =
    length (filter (λ (e : WorkflowCatalogEntry). is_some e.executor) (entries executors))

unfoldable pub unavailable_executor_count : Executors → ℕ
unavailable_executor_count executors =
    length (filter (λ (e : WorkflowCatalogEntry). not (is_some e.executor)) (entries executors))
