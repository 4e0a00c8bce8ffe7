-- ===== src/Workflow/Passed.antt =====
-- What `check` of packages/kogg-workflow/src/node/workflow-compiler.ts has computed once it passes.
use kogg.Prelude.{
  nat_eq_iff, arith, inl, refl, ◌≡◌, ◌∙◌, String, String-Eq, Bool, true, false, ◌||◌, List, [],
  includes, all, is_some, All, All-mono, Distinct,
}
use kogg.Workflow.Kinds.{EditableNodeKind-Eq}
use kogg.Workflow.Graph.{EditableWorkflowNode, EditableWorkflowEdge, EditableWorkflowGraph}
use kogg.Workflow.Catalog.{Executors}
use kogg.Workflow.Maps.{get}
use kogg.Workflow.Search.{targets}
use kogg.Workflow.Cycle.{degree_of, cycle}
use kogg.Workflow.Compiler.{Wiring, check_nodes, check_edges, node_map, is_joined, roots}
use kogg.Workflow.Check.{Counts, check, check_root, validate_fork_joins}
use kogg.Workflow.Checked.{passed, >>=-passed, require-passed, reject_if-passed}
use kogg.Workflow.NodeChecks.{IsWithinCeiling, check_nodes-Blank, check_nodes-keys}
use kogg.Workflow.NodeMap.{
  or_else-none, find_node, Fresh, node_map-Fresh, get-node_map, find_node-some,
}
use kogg.Workflow.EdgeChecks.{leads, in_degree, edge_ids_of, IsSoundEdge, check_edges-Wired}

-- What `check` has computed once it passes.
pub record Passed (executors : Executors) (g : EditableWorkflowGraph) : Type 0 where
  pub wiring : Wiring
  pub fresh : Fresh g.nodes []
  pub within : All IsWithinCeiling g.nodes
  pub sound : All (IsSoundEdge (λ k. find_node k g.nodes)) g.edges
  pub edges : (u v : String) → includes (targets wiring.outgoing u) v ≡ leads g.edges u v
  pub degrees : (v : String) → degree_of wiring.incoming v ≡ in_degree g.edges v
  pub distinct_edges : Distinct (edge_ids_of g.edges)
  pub joined : all (is_joined wiring.incoming) g.nodes ≡ true
  pub acyclic : cycle g ≡ false
  pub forks : (u : Unit {0}) × (validate_fork_joins g wiring.outgoing ≡ passed u)
  pub root : (c : Counts) × (check_root g wiring (roots wiring.incoming g.nodes) ≡ passed c)

or-false : (b : Bool) → (b || false) ≡ b
or-false true = refl
or-false false = refl

-- The map finds what the list has.
get-found :
    (ns : List EditableWorkflowNode)
    → Fresh ns []
    → (k : String) → get k (node_map ns []) ≡ find_node k ns
get-found ns f k = get-node_map ns [] k f ∙ or_else-none (find_node k ns)

IsSoundEdge-found :
    (ns : List EditableWorkflowNode)
    → Fresh ns []
    → (e : EditableWorkflowEdge) → IsSoundEdge (λ k. get k (node_map ns [])) e
    → IsSoundEdge (λ k. find_node k ns) e
IsSoundEdge-found ns f e (other, there, (n, at_n, port)) = (
  other,
  rw (get-found ns f e.target_node_id) at there,
  (n, rw (get-found ns f e.source_node_id) at at_n, port),
)

node_map-keyed :
    (executors : Executors) (ns : List EditableWorkflowNode) (w : Wiring)
    → Fresh ns []
    → check_nodes executors ns (record { edge_ids = []; incoming = []; outgoing = [] }) ≡ passed w
    → (k : String) → is_some (get k (node_map ns [])) ≡ true
    → is_some (get k w.outgoing) ≡ true
node_map-keyed executors ns w f h k there =
    check_nodes-keys executors ns _ w k h
      (inl (find_node-some ns k (rw (get-found ns f k) at there)))

pub check-Passed :
    (executors : Executors) (g : EditableWorkflowGraph) (c : Counts)
    → check executors g ≡ passed c
    → Passed executors g
unfolding check
check-Passed executors g c h =
    let (size, a) = require-passed _ _ _ c h in
    let (started, nodes_ok, b) = >>=-passed (check_nodes executors g.nodes _) _ c a in
    let (w, edges_ok, d) =
      >>=-passed (check_edges executors (node_map g.nodes []) g.edges started) _ c b in
    let (joined, e) = require-passed _ _ _ c d in
    let (acyclic, f) = reject_if-passed _ _ _ c e in
    let (u, forks, last) = >>=-passed (validate_fork_joins g w.outgoing) _ c f in
    let (within, blank) =
      check_nodes-Blank executors g.nodes _ started
        (record { unused = refl; degrees = λ k. refl; empty = λ k. refl }) nodes_ok in
    let fresh = node_map-Fresh g.nodes [] (omega (arith, (nat_eq_iff _ _).0 size)) in
    let (sound, wired) =
      check_edges-Wired executors (node_map g.nodes []) g.edges started w
        (node_map-keyed executors g.nodes started fresh nodes_ok) edges_ok in
    record {
      wiring = w;
      fresh = fresh;
      within = within;
      sound = All-mono _ _ g.edges (IsSoundEdge-found g.nodes fresh) sound;
      edges = λ u v. wired.edges u v ∙ rw (blank.empty u) (or-false (leads g.edges u v));
      degrees = λ v. omega (arith, wired.degrees v, blank.degrees v);
      distinct_edges = wired.distinct;
      joined = joined;
      acyclic = acyclic;
      forks = (u, forks);
      root = (c, last);
    }
