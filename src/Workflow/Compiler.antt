-- ===== src/Workflow/Compiler.antt =====
-- The checks of `WorkflowCompiler` on nodes and edges: packages/kogg-workflow/src/node/workflow-compiler.ts.
use kogg.Prelude.{
  ℕ, String, String-Eq, ℕ-Eq, Bool, true, false, Option, none, some, List, [], ◌∷◌, ◌==◌, includes,
  not, ◌&&◌, ◌||◌, any, all, filter, is_some, ltb, leb,
}
use kogg.Workflow.Kinds.{EditableNodeKind, EditableNodeKind-Eq}
use kogg.Workflow.Effects.{WorkflowAuthorityEffect, WorkflowAuthorityEffect-Eq, EdgeOutcome-Eq}
use kogg.Workflow.Graph.{
  EditableWorkflowNode, EditableWorkflowEdge, WorkflowNodeConfiguration, WorkflowRetryPolicy,
  WorkflowSafeCode, Target, SideEffectPolicy,
}
use kogg.Workflow.Catalog.{Executors, entry}
use kogg.Workflow.Maps.{get, set, add}
use kogg.Workflow.Search.{Outgoing}
use kogg.Workflow.Cycle.{Degrees, link, increment, degree_of}
use kogg.Workflow.Checked.{Checked, passed, ◌>>=◌, ◌>>◌, reject_if, require, present}

unfoldable pub is_external_kind : EditableNodeKind → Bool
is_external_kind kind =
    includes
      (EditableNodeKind.tool_git ∷ EditableNodeKind.tool_build
        ∷ EditableNodeKind.check_deterministic ∷ [])
      kind

unfoldable pub exceeds_deadline : ℕ → Option WorkflowNodeConfiguration → Bool
exceeds_deadline deadline none = false
exceeds_deadline deadline (some c) = ltb deadline c.absolute_deadline_ms

unfoldable pub is_read_only_target : Option WorkflowNodeConfiguration → Bool
is_read_only_target none = false
is_read_only_target (some c) = elim c.target [
  | Target.project_read_only ↦ true
  | Target.private_worktree ↦ false
]

unfoldable pub retries_without_policy : WorkflowRetryPolicy → Bool
retries_without_policy r = ltb 1 r.max_attempts && elim r.side_effect_policy [
  | SideEffectPolicy.no_side_effect ↦ true
  | SideEffectPolicy.idempotent_exact_key ↦ false
  | SideEffectPolicy.fresh_authority ↦ false
]

-- The checks on one node. A kind without an entry throws an error that is no validation error.
unfoldable pub check_node : Executors → EditableWorkflowNode → Checked (Unit {0})
check_node executors node = do
  found ← present WorkflowSafeCode.workflow_internal (entry executors node.kind)
  require (all (includes found.definition.grant_ceiling) node.requested_effects)
      WorkflowSafeCode.workflow_authority_expansion
  reject_if
      (is_some found.executor
        && (is_external_kind node.kind && not (executors.external_configuration_available node)))
      WorkflowSafeCode.workflow_executor_incompatible
  reject_if (exceeds_deadline found.definition.absolute_deadline_ms node.configuration)
      WorkflowSafeCode.workflow_deadline
  reject_if
      (is_read_only_target node.configuration
        && includes node.requested_effects WorkflowAuthorityEffect.mutate_private_repository)
      WorkflowSafeCode.workflow_target_mismatch
  reject_if
      (retries_without_policy node.retry
        && any (λ effect. not (effect == WorkflowAuthorityEffect.read_repository))
            node.requested_effects)
      WorkflowSafeCode.workflow_authority_expansion

-- `edgeIds`, `incoming` and `outgoing`.
pub record Wiring : Type 0 where
  pub edge_ids : List String
  pub incoming : Degrees
  pub outgoing : Outgoing

-- The loop over the nodes.
unfoldable pub check_nodes : Executors → List EditableWorkflowNode → Wiring → Checked Wiring
check_nodes executors [] w = passed w
check_nodes executors (node ∷ nodes) w =
    check_node executors node
    >> check_nodes executors nodes (record w {
      incoming = set node.node_id 0 w.incoming;
      outgoing = set node.node_id [] w.outgoing;
    })

abbrev pub Nodes : Type 0
Nodes = List (String × EditableWorkflowNode)

-- `new Map(graph.nodes.map(node => [node.nodeId, node]))`.
unfoldable pub node_map : List EditableWorkflowNode → Nodes → Nodes
node_map [] m = m
node_map (n ∷ ns) m = node_map ns (set n.node_id n m)

unfoldable pub is_known_edge : Nodes → EditableWorkflowEdge → Bool
is_known_edge nodes e =
    not (e.source_node_id == e.target_node_id)
    && (is_some (get e.source_node_id nodes) && is_some (get e.target_node_id nodes))

unfoldable pub wire : EditableWorkflowEdge → Wiring → Wiring
wire e w = record {
  edge_ids = add e.edge_id w.edge_ids;
  incoming = increment e.target_node_id w.incoming;
  outgoing = link e.source_node_id e.target_node_id w.outgoing;
}

-- The port of an edge, once its source is known.
unfoldable pub check_port :
    Executors → EditableWorkflowEdge → Wiring → EditableWorkflowNode → Checked Wiring
check_port executors e w source = do
  found ← present WorkflowSafeCode.workflow_internal (entry executors source.kind)
  require (includes found.definition.output_ports e.source_port)
      WorkflowSafeCode.workflow_port_invalid
  passed (wire e w)

unfoldable pub check_edge : Executors → Nodes → EditableWorkflowEdge → Wiring → Checked Wiring
check_edge executors nodes e w = do
  require (not (includes w.edge_ids e.edge_id) && is_known_edge nodes e)
      WorkflowSafeCode.workflow_port_invalid
  source ← present WorkflowSafeCode.workflow_internal (get e.source_node_id nodes)
  check_port executors e w source

-- The loop over the edges.
unfoldable pub check_edges : Executors → Nodes → List EditableWorkflowEdge → Wiring → Checked Wiring
check_edges executors nodes [] w = passed w
check_edges executors nodes (e ∷ es) w =
    check_edge executors nodes e w >>= check_edges executors nodes es

-- How many edges may lead to a node.
unfoldable pub is_joined : Degrees → EditableWorkflowNode → Bool
is_joined incoming node =
    let count = degree_of incoming node.node_id in
    (leb count 1
      || (node.kind == EditableNodeKind.control_join
          || node.kind == EditableNodeKind.control_finally))
    && (not (node.kind == EditableNodeKind.control_join) || leb 2 count)

unfoldable pub roots : Degrees → List EditableWorkflowNode → List EditableWorkflowNode
roots incoming nodes =
    filter (λ (n : EditableWorkflowNode). degree_of incoming n.node_id == 0) nodes
