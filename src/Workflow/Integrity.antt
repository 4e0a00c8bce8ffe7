-- ===== src/Workflow/Integrity.antt =====
-- A compiled plan and the graph it was compiled from:
-- packages/kogg-workflow/src/node/workflow-compiler.ts.
use kogg.Prelude.{
  ap, ℕ, ℕ-Eq, String, String-Eq, Bool, true, false, ◌≡◌, ◌↔◌, ◌∙◌, refl, inl, inr, ◌==◌, ◌≢◌,
  ==_refl, Bool-cases, ==_sound, &&-eq-true, length,
}
use kogg.Workflow.Graph.{EditableWorkflowGraph, WorkflowCompiledPlan, WorkflowSafeCode}
use kogg.Workflow.Catalog.{Executors, entries}
use kogg.Workflow.Check.{check}
use kogg.Workflow.Checked.{require, passed, failed, >>=-passed, passed-injective}
use kogg.Workflow.Plan.{Digests, anchors, plan_body, compile, is_intact_plan, assert_plan_integrity}

-- A plan by its fields.
abbrev plan_with :
    String → String → String → String → String → String → ℕ → ℕ → WorkflowCompiledPlan
plan_with plan_id version_id plan_digest graph_digest spine catalog nodes injected = record {
  plan_id = plan_id;
  version_id = version_id;
  plan_digest = plan_digest;
  graph_digest = graph_digest;
  trust_spine_digest = spine;
  catalog_digest = catalog;
  editable_node_count = nodes;
  injected_anchor_count = injected;
}

require-passed : (b : Bool) (code : WorkflowSafeCode) → require b code ≡ passed tt → b ≡ true
require-passed true code h = refl
require-passed false code h = cc

require-both :
    (b : Bool) (code : WorkflowSafeCode)
    → ((b ≡ true) → require b code ≡ passed tt) × ((b ≡ false) → require b code ≡ failed code)
require-both b code = ((λ h. rw h refl), (λ h. rw h refl))

module _ (d : Digests) (executors : Executors) (graph : EditableWorkflowGraph) where
  -- The plan of an identifier and a version that the graph determines.
  abbrev expected : String → String → WorkflowCompiledPlan
  expected plan_id version_id =
      plan_with plan_id version_id
        (d.of_compiled_plan (
          plan_body version_id (d.of_template graph) (d.of_catalog (entries executors))
            (d.of_trust_spine anchors) graph))
        (d.of_template graph) (d.of_trust_spine anchors) (d.of_catalog (entries executors))
        (length graph.nodes) (length anchors)

  intact :
      (plan_id version_id : String)
      → is_intact_plan d executors (expected plan_id version_id) graph ≡ true
  unfolding is_intact_plan
  intact plan_id version_id =
      rw
        (
          ==_refl (d.of_template graph),
          ==_refl (d.of_catalog (entries executors)),
          ==_refl (d.of_trust_spine anchors),
          ==_refl (expected plan_id version_id).plan_digest,
          ==_refl (length graph.nodes),
          ==_refl (length anchors),
        )
        refl

  intact-expected :
      (stored : WorkflowCompiledPlan)
      → is_intact_plan d executors stored graph ≡ true
      → stored ≡ expected stored.plan_id stored.version_id
  unfolding is_intact_plan
  intact-expected stored h =
      let id = stored.plan_id in
      let version = stored.version_id in
      let (graphs, h1) = &&-eq-true (stored.graph_digest == d.of_template graph) _ h in
      let (catalogs, h2) =
        &&-eq-true (stored.catalog_digest == d.of_catalog (entries executors)) _ h1 in
      let (spines, h3) = &&-eq-true (stored.trust_spine_digest == d.of_trust_spine anchors) _ h2 in
      let (plans, h4) = &&-eq-true (stored.plan_digest == (expected id version).plan_digest) _ h3 in
      let (nodes, injected) =
        &&-eq-true (stored.editable_node_count == length graph.nodes)
          (stored.injected_anchor_count == length anchors) h4 in
      let e_graph = ==_sound stored.graph_digest (d.of_template graph) graphs in
      let e_catalog = ==_sound stored.catalog_digest (d.of_catalog (entries executors)) catalogs in
      let e_spine = ==_sound stored.trust_spine_digest (d.of_trust_spine anchors) spines in
      let e_plan = ==_sound stored.plan_digest (expected id version).plan_digest plans in
      let e_nodes = ==_sound stored.editable_node_count (length graph.nodes) nodes in
      let e_injected = ==_sound stored.injected_anchor_count (length anchors) injected in
      λ i.
        plan_with id version (e_plan i) (e_graph i) (e_spine i) (e_catalog i) (e_nodes i)
          (e_injected i)

  refused :
      (stored : WorkflowCompiledPlan)
      → stored.graph_digest ≢ d.of_template graph
      → is_intact_plan d executors stored graph ≡ false
  unfolding is_intact_plan
  refused stored n = elim (Bool-cases (stored.graph_digest == d.of_template graph)) [
    | inl t ↦ absurd (n (==_sound stored.graph_digest (d.of_template graph) t))
    | inr f ↦ rw f refl
  ]

compile-expected :
    (d : Digests) (executors : Executors) (random_uuid version_id : String)
    (graph : EditableWorkflowGraph) (plan : WorkflowCompiledPlan)
    → compile d executors random_uuid version_id graph ≡ passed plan
    → expected d executors graph random_uuid version_id ≡ plan
unfolding compile
compile-expected d executors random_uuid version_id graph plan h =
    let (counts, _, e) = >>=-passed (check executors graph) _ plan h in passed-injective e

-- A plan that was compiled from a graph that passes the checks is intact for that graph. A stored plan
-- of its identifier and version is intact for the graph exactly if it is that plan, in every field.
-- For a graph with another digest the compiled plan is refused as a breach of the store.
pub compile-integrity :
    (d : Digests) (executors : Executors) (random_uuid version_id : String)
    (graph other : EditableWorkflowGraph) (plan stored : WorkflowCompiledPlan)
    → compile d executors random_uuid version_id graph ≡ passed plan
    → stored.plan_id ≡ random_uuid
    → stored.version_id ≡ version_id
    → d.of_template graph ≢ d.of_template other
    → (assert_plan_integrity d executors plan graph ≡ passed tt)
      × ((assert_plan_integrity d executors stored graph ≡ passed tt) ↔ (stored ≡ plan))
      × (assert_plan_integrity d executors plan other
          ≡ failed WorkflowSafeCode.workflow_store_integrity)
unfolding assert_plan_integrity
compile-integrity d executors random_uuid version_id graph other plan stored h id version n =
    let code = WorkflowSafeCode.workflow_store_integrity in
    let same = compile-expected d executors random_uuid version_id graph plan h in
    let passes =
      (require-both (is_intact_plan d executors plan graph) code).0
        (rw (← same) (intact d executors graph random_uuid version_id)) in
    (
      passes,
      (
        (λ k.
            intact-expected d executors graph stored
              (require-passed (is_intact_plan d executors stored graph) code k)
            ∙ ap (λ a. expected d executors graph a stored.version_id) id
            ∙ ap (λ a. expected d executors graph random_uuid a) version
            ∙ same),
        (λ k. rw k passes),
      ),
      (require-both (is_intact_plan d executors plan other) code).1 (
          rw (← same)
            (refused d executors other (expected d executors graph random_uuid version_id) n)),
    )
