-- ===== src/Workflow/Plan.antt =====
-- `compile`, `assertPlanIntegrity` and `planBody` of
-- packages/kogg-workflow/src/node/workflow-compiler.ts. The digests are made by parameter functions,
-- one for each domain that `workflowDigest` is called with here.
use kogg.Prelude.{ℕ-Eq, String, String-Eq, Bool, List, [], ◌∷◌, ◌==◌, ◌&&◌, length, map}
use kogg.Workflow.Graph.{
  EditableWorkflowNode, EditableWorkflowGraph, WorkflowCompiledPlan, WorkflowSafeCode,
}
use kogg.Workflow.Catalog.{Executors, WorkflowCatalogEntry, entries}
use kogg.Workflow.Check.{check}
use kogg.Workflow.Checked.{Checked, passed, ◌>>=◌, require}

-- `ANCHORS`.
unfoldable pub anchors : List String
anchors =
    "anchor.spec-frozen" ∷ "anchor.spec-approved" ∷ "anchor.producer-separated"
    ∷ "anchor.checks-complete" ∷ "anchor.evidence-admitted" ∷ "anchor.ranex-pass-current"
    ∷ "anchor.merge-preflight" ∷ "anchor.controlled-merge" ∷ "anchor.cleanup-complete" ∷ []

-- What `planBody` returns, less its schema version.
pub record PlanBody : Type 0 where
  pub version_id : String
  pub graph_digest : String
  pub catalog_digest : String
  pub trust_spine_digest : String
  pub editable_node_ids : List String
  pub anchor_ids : List String

pub record Digests : Type 0 where
  pub of_template : EditableWorkflowGraph → String
  pub of_trust_spine : List String → String
  pub of_catalog : List WorkflowCatalogEntry → String
  pub of_compiled_plan : PlanBody → String

unfoldable pub plan_body : String → String → String → String → EditableWorkflowGraph → PlanBody
plan_body version_id graph_digest catalog_digest trust_spine_digest graph = record {
  version_id = version_id;
  graph_digest = graph_digest;
  catalog_digest = catalog_digest;
  trust_spine_digest = trust_spine_digest;
  editable_node_ids = map (λ (n : EditableWorkflowNode). n.node_id) graph.nodes;
  anchor_ids = anchors;
}

-- `compile`, with the identifier that `randomUUID` makes.
unfoldable pub compile :
    Digests → Executors → String → String → EditableWorkflowGraph → Checked WorkflowCompiledPlan
compile d executors random_uuid version_id graph = do
  counts ← check executors graph
  passed (
      let graph_digest = d.of_template graph in
      let trust_spine_digest = d.of_trust_spine anchors in
      let catalog_digest = d.of_catalog (entries executors) in
      record {
        plan_id = random_uuid;
        version_id = version_id;
        plan_digest =
            d.of_compiled_plan
              (plan_body version_id graph_digest catalog_digest trust_spine_digest graph);
        graph_digest = graph_digest;
        catalog_digest = catalog_digest;
        trust_spine_digest = trust_spine_digest;
        editable_node_count = length graph.nodes;
        injected_anchor_count = length anchors;
      })

-- The comparisons of `assertPlanIntegrity`, with the digests that it computes.
unfoldable pub is_intact_plan :
    Digests → Executors → WorkflowCompiledPlan → EditableWorkflowGraph → Bool
is_intact_plan d executors plan graph =
    let graph_digest = d.of_template graph in
    let catalog_digest = d.of_catalog (entries executors) in
    let trust_spine_digest = d.of_trust_spine anchors in
    let plan_digest =
      d.of_compiled_plan
        (plan_body plan.version_id graph_digest catalog_digest trust_spine_digest graph) in
    plan.graph_digest == graph_digest
    && (plan.catalog_digest == catalog_digest
        && (plan.trust_spine_digest == trust_spine_digest
            && (plan.plan_digest == plan_digest
                && (plan.editable_node_count == length graph.nodes
                    && plan.injected_anchor_count == length anchors))))

-- `assertPlanIntegrity`.
unfoldable pub assert_plan_integrity :
    Digests → Executors → WorkflowCompiledPlan → EditableWorkflowGraph → Checked (Unit {0})
assert_plan_integrity d executors plan graph =
    require (is_intact_plan d executors plan graph) WorkflowSafeCode.workflow_store_integrity
