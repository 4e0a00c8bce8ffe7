-- ===== src/Workflow/Scenarios.antt =====
-- A workflow of five nodes that forks and joins: packages/kogg-workflow/src/node/workflow-compiler.ts.
use kogg.Prelude.{
  true-ne-false, String-Eq, ◌↔◌, String, String-Eq, true, false, none, List, [], ◌∷◌, ◌≡◌, refl,
}
use kogg.Workflow.Kinds.{EditableNodeKind}
use kogg.Workflow.Effects.{EdgeOutcome, WorkflowAuthorityEffect}
use kogg.Workflow.Graph.{
  EditableWorkflowNode, EditableWorkflowEdge, EditableWorkflowGraph, SideEffectPolicy,
  WorkflowCompiledPlan, WorkflowSafeCode,
}
use kogg.Workflow.Catalog.{
  Executors, catalog_entry, entry, insert_effect, sort_effects, default_ports, make_definition,
  definition_of, catalog_kinds, definition_kinds, sort_kinds, insert_kind, kind_text, entries,
}
use kogg.Workflow.Compiler.{
  is_external_kind, exceeds_deadline, is_read_only_target, retries_without_policy, check_node,
  check_nodes, node_map, is_known_edge, wire, check_port, check_edge, check_edges, is_joined, roots,
}
use kogg.Workflow.Cycle.{
  link, increment, release, peel, sources, total, count_edges, each_node, cycle,
}
use kogg.Workflow.Search.{Outgoing, reachable, expand, visit, search, unvisited_edges, search_fuel}
use kogg.Workflow.Check.{
  Counts, check, is_choice, edges_from, is_fork, branch_edges, count_port, port_counts,
  is_invalid_condition, is_invalid_parallel, repeats_port, is_invalid_fork, joins, candidates,
  nearest, only, match_fork, match_forks, validate_fork_joins, check_root,
}
use kogg.Workflow.Checked.{passed, failed, ◌>>=◌}
use kogg.Workflow.Plan.{Digests, compile, assert_plan_integrity, anchors, plan_body, is_intact_plan}
use kogg.Workflow.EdgeChecks.{leads}
use kogg.Workflow.Reaches.{Reaches, reachable-Reaches}
use kogg.Workflow.Sound.{IsExecutable, stay, follow, check-IsExecutable}
use kogg.Workflow.Acyclic.{check-acyclic}
use kogg.Workflow.Forks.{IsForked, check-IsForked}
use kogg.Workflow.Integrity.{compile-integrity}

abbrev node : String → EditableNodeKind → List WorkflowAuthorityEffect → EditableWorkflowNode
node id kind effects = record {
  node_id = id;
  kind = kind;
  configuration_digest = "";
  configuration = none;
  requested_effects = effects;
  retry = record {
    max_attempts = 1;
    backoff_ms = 0;
    side_effect_policy = SideEffectPolicy.no_side_effect;
  };
}

abbrev edge : String → String → String → EditableWorkflowEdge
edge id source target = record {
  edge_id = id;
  source_node_id = source;
  source_port = EdgeOutcome.success;
  target_node_id = target;
}

abbrev sample : EditableWorkflowGraph
sample = record {
  project_id = "project";
  nodes =
      node "research" EditableNodeKind.research_agent (WorkflowAuthorityEffect.read_repository ∷ [])
      ∷ node "fork" EditableNodeKind.control_parallel []
      ∷ node "build" EditableNodeKind.tool_build (WorkflowAuthorityEffect.run_tool ∷ [])
      ∷ node "ask" EditableNodeKind.approval_continue []
      ∷ node "join" EditableNodeKind.control_join []
      ∷ [];
  edges =
      edge "1" "research" "fork"
      ∷ edge "2" "fork" "build"
      ∷ edge "3" "fork" "ask"
      ∷ edge "4" "build" "join"
      ∷ edge "5" "ask" "join"
      ∷ [];
  groups = none;
}

abbrev looped : EditableWorkflowGraph
looped = record sample { edges = edge "6" "join" "research" ∷ sample.edges; project_id = "other" }

abbrev executors : Executors
executors = record { binding = λ kind. none; external_configuration_available = λ n. false }

abbrev counts : Counts
counts = record { node_count = 5; edge_count = 5; root_count = 1 }

check-sample : check executors sample ≡ passed counts
unfolding ◌>>=◌ is_choice edges_from is_fork branch_edges count_port port_counts
    is_invalid_condition is_invalid_parallel repeats_port is_invalid_fork joins candidates nearest
    only match_fork match_forks validate_fork_joins check_root check is_external_kind
    exceeds_deadline is_read_only_target retries_without_policy check_node check_nodes node_map
    is_known_edge wire check_port check_edge check_edges is_joined roots insert_effect sort_effects
    default_ports make_definition definition_of catalog_kinds definition_kinds sort_kinds
    insert_kind kind_text catalog_entry entries entry link increment release peel sources total
    count_edges each_node cycle expand visit search unvisited_edges search_fuel reachable
check-sample = refl

check-looped : check executors looped ≡ failed WorkflowSafeCode.workflow_cycle
unfolding ◌>>=◌ is_choice edges_from is_fork branch_edges count_port port_counts
    is_invalid_condition is_invalid_parallel repeats_port is_invalid_fork joins candidates nearest
    only match_fork match_forks validate_fork_joins check is_external_kind exceeds_deadline
    is_read_only_target retries_without_policy check_node check_nodes node_map is_known_edge wire
    check_port check_edge check_edges is_joined roots insert_effect sort_effects default_ports
    make_definition definition_of catalog_kinds definition_kinds sort_kinds insert_kind kind_text
    catalog_entry entries entry link increment release peel sources total count_edges each_node
    cycle expand visit search unvisited_edges search_fuel reachable
check-looped = refl

check-IsExecutable_example : IsExecutable sample
check-IsExecutable_example = check-IsExecutable executors sample counts check-sample

check-acyclic_example : leads sample.edges "join" "research" ≡ false
check-acyclic_example =
    check-acyclic executors sample counts "research" "join" check-sample
      (follow {u = "build"} (follow {u = "fork"} (follow {u = "research"} stay refl) refl) refl)

check-IsForked_example : IsForked sample
check-IsForked_example = check-IsForked executors sample counts check-sample

abbrev outgoing : Outgoing
outgoing = ("a", "b" ∷ "c" ∷ []) ∷ ("b", "a" ∷ []) ∷ ("c", []) ∷ []

reachable-Reaches_example : (reachable "b" "c" outgoing ≡ true) ↔ Reaches outgoing "b" "c"
reachable-Reaches_example = reachable-Reaches outgoing "b" "c"

abbrev digests : Digests
digests = record {
  of_template = λ g. g.project_id;
  of_trust_spine = λ anchors. "spine";
  of_catalog = λ entries. "catalog";
  of_compiled_plan = λ body. body.graph_digest;
}

abbrev plan : WorkflowCompiledPlan
plan = record {
  plan_id = "plan";
  version_id = "version";
  plan_digest = "project";
  graph_digest = "project";
  trust_spine_digest = "spine";
  catalog_digest = "catalog";
  editable_node_count = 5;
  injected_anchor_count = 9;
}

compile-sample : compile digests executors "plan" "version" sample ≡ passed plan
unfolding anchors plan_body compile is_intact_plan assert_plan_integrity ◌>>=◌ is_choice edges_from
    is_fork branch_edges count_port port_counts is_invalid_condition is_invalid_parallel
    repeats_port is_invalid_fork joins candidates nearest only match_fork match_forks
    validate_fork_joins check_root check is_external_kind exceeds_deadline is_read_only_target
    retries_without_policy check_node check_nodes node_map is_known_edge wire check_port check_edge
    check_edges is_joined roots insert_effect sort_effects default_ports make_definition
    definition_of catalog_kinds definition_kinds sort_kinds insert_kind kind_text catalog_entry
    entries entry link increment release peel sources total count_edges each_node cycle expand visit
    search unvisited_edges search_fuel reachable
compile-sample = refl

-- A stored plan whose count of nodes was changed.
abbrev damaged : WorkflowCompiledPlan
damaged = record plan { editable_node_count = 6 }

compile-integrity_example :
    (assert_plan_integrity digests executors plan sample ≡ passed tt)
    × ((assert_plan_integrity digests executors damaged sample ≡ passed tt) ↔ (damaged ≡ plan))
    × (assert_plan_integrity digests executors plan looped
        ≡ failed WorkflowSafeCode.workflow_store_integrity)
compile-integrity_example =
    compile-integrity digests executors "plan" "version" sample looped plan damaged compile-sample
      refl refl (λ e. true-ne-false ((String-Eq.beq_iff "project" "other").1 e) refl)
