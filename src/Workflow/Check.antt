-- ===== src/Workflow/Check.antt =====
-- `validateForkJoins` and `check` of packages/kogg-workflow/src/node/workflow-compiler.ts.
use kogg.Prelude.{
  ℕ, suc, String, String-Eq, ℕ-Eq, Bool, Option, none, some, List, [], ◌∷◌, ◌==◌, if◌then◌else◌,
  includes, length, not, ◌&&◌, ◌||◌, any, all, filter, ltb,
}
use kogg.Workflow.Kinds.{EditableNodeKind, EditableNodeKind-Eq}
use kogg.Workflow.Effects.{EdgeOutcome, EdgeOutcome-Eq}
use kogg.Workflow.Graph.{
  EditableWorkflowNode, EditableWorkflowEdge, EditableWorkflowGraph, WorkflowSafeCode,
}
use kogg.Workflow.Catalog.{Executors}
use kogg.Workflow.Maps.{add}
use kogg.Workflow.Search.{Outgoing, reachable, visit, search_fuel}
use kogg.Workflow.Cycle.{cycle}
use kogg.Workflow.Compiler.{Wiring, check_nodes, check_edges, node_map, is_joined, roots}
use kogg.Workflow.Checked.{Checked, passed, ◌>>=◌, ◌>>◌, reject_if, require, present}

unfoldable pub is_choice : EdgeOutcome → Bool
is_choice port = port == EdgeOutcome.on_true || port == EdgeOutcome.on_false

unfoldable pub edges_from : EditableWorkflowGraph → String → List EditableWorkflowEdge
edges_from graph id = filter (λ (e : EditableWorkflowEdge). e.source_node_id == id) graph.edges

unfoldable pub is_fork : EditableWorkflowGraph → EditableWorkflowNode → Bool
is_fork graph node =
    node.kind == EditableNodeKind.control_parallel
    || (node.kind == EditableNodeKind.control_condition
        && any (λ (e : EditableWorkflowEdge). is_choice e.source_port)
            (edges_from graph node.node_id))

unfoldable pub branch_edges :
    EditableWorkflowGraph → EditableWorkflowNode → List EditableWorkflowEdge
branch_edges graph fork =
    filter
      (λ (e : EditableWorkflowEdge).
        if fork.kind == EditableNodeKind.control_parallel
        then e.source_port == EdgeOutcome.success
        else is_choice e.source_port)
      (edges_from graph fork.node_id)

-- `portCounts`.
unfoldable pub count_port : EdgeOutcome → List (EdgeOutcome × ℕ) → List (EdgeOutcome × ℕ)
count_port port [] = (port, 1) ∷ []
count_port port ((p, n) ∷ counts) =
    if p == port then (p, suc n) ∷ counts else (p, n) ∷ count_port port counts

unfoldable pub port_counts :
    List EditableWorkflowEdge → List (EdgeOutcome × ℕ) → List (EdgeOutcome × ℕ)
port_counts [] counts = counts
port_counts (e ∷ es) counts = port_counts es (count_port e.source_port counts)

-- `invalidCondition`.
unfoldable pub is_invalid_condition : EditableWorkflowGraph → EditableWorkflowNode → Bool
is_invalid_condition graph fork =
    let branches = branch_edges graph fork in
    fork.kind == EditableNodeKind.control_condition
    && (not (length branches == 2)
        || (not (any (λ (e : EditableWorkflowEdge). e.source_port == EdgeOutcome.on_true) branches)
            || not (
                any (λ (e : EditableWorkflowEdge). e.source_port == EdgeOutcome.on_false)
                  branches)))

unfoldable pub is_invalid_parallel : EditableWorkflowGraph → EditableWorkflowNode → Bool
is_invalid_parallel graph fork =
    let count = length (branch_edges graph fork) in
    fork.kind == EditableNodeKind.control_parallel && (ltb count 2 || ltb 8 count)

-- A port with two edges, unless they are the branches of a parallel node.
unfoldable pub repeats_port : EditableWorkflowGraph → EditableWorkflowNode → Bool
repeats_port graph fork =
    any
      (λ (pv : EdgeOutcome × ℕ).
        not (fork.kind == EditableNodeKind.control_parallel && pv.0 == EdgeOutcome.success)
        && ltb 1 pv.1)
      (port_counts (edges_from graph fork.node_id) [])

-- The condition on a fork itself.
unfoldable pub is_invalid_fork : EditableWorkflowGraph → EditableWorkflowNode → Bool
is_invalid_fork graph fork =
    is_invalid_condition graph fork || (is_invalid_parallel graph fork || repeats_port graph fork)

unfoldable pub joins : EditableWorkflowGraph → List EditableWorkflowNode
joins graph =
    filter (λ (n : EditableWorkflowNode). n.kind == EditableNodeKind.control_join) graph.nodes

-- `candidates`: the joins that every branch reaches.
unfoldable pub candidates :
    EditableWorkflowGraph → Outgoing → EditableWorkflowNode → List EditableWorkflowNode
candidates graph out fork =
    filter
      (λ (j : EditableWorkflowNode).
        all (λ (e : EditableWorkflowEdge). reachable e.target_node_id j.node_id out)
          (branch_edges graph fork))
      (joins graph)

-- `nearest`: the candidates that no other candidate reaches.
unfoldable pub nearest : Outgoing → List EditableWorkflowNode → List EditableWorkflowNode
nearest out found =
    filter
      (λ (j : EditableWorkflowNode). not (
        any
          (λ (other : EditableWorkflowNode).
            not (other.node_id == j.node_id) && reachable other.node_id j.node_id out)
          found))
      found

-- `nearest[0]`, where it is the only one.
unfoldable pub only : List EditableWorkflowNode → Option EditableWorkflowNode
only [] = none
only (n ∷ []) = some n
only (n ∷ m ∷ ns) = none

unfoldable pub match_fork :
    EditableWorkflowGraph → Outgoing → EditableWorkflowNode → List String → Checked (List String)
match_fork graph out fork matched = do
  reject_if (is_invalid_fork graph fork) WorkflowSafeCode.workflow_join_ambiguous
  join ←
      present WorkflowSafeCode.workflow_join_ambiguous
        (only (nearest out (candidates graph out fork)))
  reject_if (includes matched join.node_id) WorkflowSafeCode.workflow_join_ambiguous
  passed (add join.node_id matched)

unfoldable pub match_forks :
    EditableWorkflowGraph
    → Outgoing
    → List EditableWorkflowNode
    → List String
    → Checked (List String)
match_forks graph out [] matched = passed matched
match_forks graph out (fork ∷ forks) matched =
    match_fork graph out fork matched >>= match_forks graph out forks

-- `validateForkJoins`.
unfoldable pub validate_fork_joins : EditableWorkflowGraph → Outgoing → Checked (Unit {0})
validate_fork_joins graph out = do
  matched ← match_forks graph out (filter (is_fork graph) graph.nodes) []
  require (length matched == length (joins graph)) WorkflowSafeCode.workflow_join_ambiguous

pub record Counts : Type 0 where
  pub node_count : ℕ
  pub edge_count : ℕ
  pub root_count : ℕ

-- The end of `check`: one root, from which every node is reached.
unfoldable pub check_root :
    EditableWorkflowGraph → Wiring → List EditableWorkflowNode → Checked Counts
check_root graph w found = do
  root ← present WorkflowSafeCode.workflow_unreachable (only found)
  visited ←
      present WorkflowSafeCode.workflow_internal
        (visit (search_fuel w.outgoing) w.outgoing (root.node_id ∷ []) [])
  require (length visited == length graph.nodes) WorkflowSafeCode.workflow_unreachable
  passed (record {
    node_count = length graph.nodes;
    edge_count = length graph.edges;
    root_count = length found;
  })

-- `check`.
unfoldable pub check : Executors → EditableWorkflowGraph → Checked Counts
check executors graph = do
  let nodes = node_map graph.nodes []
  require (length nodes == length graph.nodes) WorkflowSafeCode.workflow_graph_invalid
  started ←
      check_nodes executors graph.nodes (record { edge_ids = []; incoming = []; outgoing = [] })
  w ← check_edges executors nodes graph.edges started
  require (all (is_joined w.incoming) graph.nodes) WorkflowSafeCode.workflow_join_ambiguous
  reject_if (cycle graph) WorkflowSafeCode.workflow_cycle
  validate_fork_joins graph w.outgoing
  check_root graph w (roots w.incoming graph.nodes)
