-- ===== src/Workflow/Sound.antt =====
-- What a graph that passes `check` of packages/kogg-workflow/src/node/workflow-compiler.ts is like.
use kogg.Prelude.{
  leb_sound, ||-eq-true, All-filter_of, leb, all-All, Distinct-full, includes-tail, ==_sound,
  All-any, includes-head, nat_eq_iff, arith, inl, inr, refl, sym, ◌≡◌, ◌⊎◌, ◌∙◌, ℕ, ◌≤◌, String,
  String-Eq, ℕ-Eq, true, not, ◌&&◌, ◌||◌, some, List, [], ◌∷◌, ◌==◌, includes, length, All,
  All-mono, Distinct, &&-eq-true, some-injective,
}
use kogg.Workflow.Kinds.{EditableNodeKind, EditableNodeKind-Eq}
use kogg.Workflow.Graph.{EditableWorkflowNode, EditableWorkflowEdge, EditableWorkflowGraph}
use kogg.Workflow.Catalog.{Executors}
use kogg.Workflow.Search.{visit, search_fuel}
use kogg.Workflow.Cycle.{degree_of}
use kogg.Workflow.Compiler.{Wiring, is_joined, roots}
use kogg.Workflow.Check.{Counts, only, check, check_root}
use kogg.Workflow.Checked.{passed, require-passed, present-passed}
use kogg.Workflow.NodeChecks.{ids, IsWithinCeiling}
use kogg.Workflow.NodeMap.{find_node, find_node-some}
use kogg.Workflow.EdgeChecks.{leads, in_degree, edge_ids_of, IsSoundEdge}
use kogg.Workflow.Passed.{Passed, check-Passed}
use kogg.Workflow.Reaches.{Reaches, here, step, Inv-start, visit-Inv}

-- The walks along the edges of a graph.
pub data Walk (es : List EditableWorkflowEdge) (source : String) : String → Type 0 where
  stay : Walk es source source
  follow : {u v : String} → Walk es source u → leads es u v ≡ true → Walk es source v

-- One edge at most leads to a node that is neither a join nor a `finally`, and two at least to a join.
abbrev pub IsJoined : List EditableWorkflowEdge → EditableWorkflowNode → Type 0
IsJoined es n =
    ((in_degree es n.node_id ≤ 1)
      ⊎ ((n.kind ≡ EditableNodeKind.control_join) ⊎ (n.kind ≡ EditableNodeKind.control_finally)))
    × (n.kind ≡ EditableNodeKind.control_join → 2 ≤ in_degree es n.node_id)

-- A root is the only node without an edge to it, and walks lead from it to every node.
pub record IsRoot (g : EditableWorkflowGraph) (root : EditableWorkflowNode) : Type 0 where
  pub known : includes (ids g.nodes) root.node_id ≡ true
  pub first : in_degree g.edges root.node_id ≡ 0
  pub reaches : (k : String) → includes (ids g.nodes) k ≡ true → Walk g.edges root.node_id k

-- What the checks mean.
pub record IsExecutable (g : EditableWorkflowGraph) : Type 0 where
  pub distinct : Distinct (ids g.nodes)
  pub distinct_edges : Distinct (edge_ids_of g.edges)
  pub within : All IsWithinCeiling g.nodes
  pub sound : All (IsSoundEdge (λ k. find_node k g.nodes)) g.edges
  pub joined : All (IsJoined g.edges) g.nodes
  pub rooted : (root : EditableWorkflowNode) × IsRoot g root

pub ids-known : (ns : List EditableWorkflowNode) → All (λ n. includes (ids ns) n.node_id ≡ true) ns
ids-known [] = tt
ids-known (n ∷ ns) = (
  includes-head n.node_id (ids ns),
  All-mono _ _ ns (λ m h. includes-tail n.node_id (ids ns) m.node_id h) (ids-known ns),
)

pub length-ids : (ns : List EditableWorkflowNode) → length (ids ns) ≡ length ns
length-ids [] = refl
length-ids (n ∷ ns) = omega (arith, length-ids ns)

joined-facts :
    (count : ℕ) (kind : EditableNodeKind)
    → ((leb count 1
          || (kind == EditableNodeKind.control_join || kind == EditableNodeKind.control_finally))
        && (not (kind == EditableNodeKind.control_join) || leb 2 count))
      ≡ true
    → ((count ≤ 1)
        ⊎ ((kind ≡ EditableNodeKind.control_join) ⊎ (kind ≡ EditableNodeKind.control_finally)))
      × (kind ≡ EditableNodeKind.control_join → 2 ≤ count)
joined-facts count kind h =
    let is_join = kind == EditableNodeKind.control_join in
    let is_finally = kind == EditableNodeKind.control_finally in
    let (few, many) =
      &&-eq-true (leb count 1 || (is_join || is_finally)) (not is_join || leb 2 count) h in
    (
      elim (||-eq-true (leb count 1) (is_join || is_finally) few) [
        | inl le ↦ inl (leb_sound count 1 le)
        | inr kinds ↦ inr (elim (||-eq-true is_join is_finally kinds) [
          | inl join ↦ inl (==_sound kind EditableNodeKind.control_join join)
          | inr final ↦ inr (==_sound kind EditableNodeKind.control_finally final)
        ])
      ],
      λ join. elim (||-eq-true (not is_join) (leb 2 count) many) [
        | inl n ↦ absurd (cc (rw join at n))
        | inr le ↦ leb_sound 2 count le
      ],
    )

is_joined-IsJoined :
    (es : List EditableWorkflowEdge) (w : Wiring)
    → ((v : String) → degree_of w.incoming v ≡ in_degree es v)
    → (n : EditableWorkflowNode) → is_joined w.incoming n ≡ true
    → IsJoined es n
unfolding is_joined
is_joined-IsJoined es w same n h =
    joined-facts (in_degree es n.node_id) n.kind (rw (same n.node_id) at h)

pub only-eq-some :
    (ns : List EditableWorkflowNode) (n : EditableWorkflowNode) → only ns ≡ some n → ns ≡ n ∷ []
unfolding only
only-eq-some [] n h = absurd cc
only-eq-some (m ∷ []) n h = rw (some-injective h) refl
only-eq-some (m ∷ k ∷ ns) n h = absurd cc

module _ (executors : Executors) (g : EditableWorkflowGraph) (p : Passed executors g) where
  pub target-known : (u v : String) → leads g.edges u v ≡ true → includes (ids g.nodes) v ≡ true
  target-known u v h =
      All-any (IsSoundEdge (λ k. find_node k g.nodes)) _ (includes (ids g.nodes) v ≡ true) g.edges
        (λ e sound at_e. find_node-some g.nodes v (
          rw
            (==_sound e.target_node_id v
              (&&-eq-true (e.source_node_id == u) (e.target_node_id == v) at_e).1)
            at sound.1))
        p.sound h

  Reaches-known :
      (root k : String)
      → includes (ids g.nodes) root ≡ true
      → Reaches p.wiring.outgoing root k
      → includes (ids g.nodes) k ≡ true
  Reaches-known root k r here = r
  Reaches-known root k r (step {u} walk edge) = target-known u k (sym (p.edges u k) ∙ edge)

  pub Reaches-Walk : (root k : String) → Reaches p.wiring.outgoing root k → Walk g.edges root k
  Reaches-Walk root k here = stay
  Reaches-Walk root k (step {u} walk edge) =
      follow (Reaches-Walk root u walk) (sym (p.edges u k) ∙ edge)

  root-facts :
      (root : EditableWorkflowNode)
      → roots p.wiring.incoming g.nodes ≡ root ∷ []
      → (includes (ids g.nodes) root.node_id ≡ true) × (in_degree g.edges root.node_id ≡ 0)
  unfolding roots
  root-facts root h =
      let facts =
        All-filter_of _
          (λ (n : EditableWorkflowNode).
            (includes (ids g.nodes) n.node_id ≡ true) × (in_degree g.edges n.node_id ≡ 0))
          (λ (n : EditableWorkflowNode). degree_of p.wiring.incoming n.node_id == 0) g.nodes
          (λ n known zero_in. (
            known,
            sym (p.degrees n.node_id)
                ∙ (nat_eq_iff (degree_of p.wiring.incoming n.node_id) 0).0 zero_in,
          ))
          (ids-known g.nodes) in
      (rw h at facts).0

  all-reached :
      (root : EditableWorkflowNode) (visited : List String) (k : String)
      → includes (ids g.nodes) root.node_id ≡ true
      → visit (search_fuel p.wiring.outgoing) p.wiring.outgoing (root.node_id ∷ []) []
        ≡ some visited
      → length visited ≡ length g.nodes
      → includes (ids g.nodes) k ≡ true
      → Walk g.edges root.node_id k
  all-reached root visited k known seen size h =
      let inv =
        visit-Inv (search_fuel p.wiring.outgoing) p.wiring.outgoing root.node_id (root.node_id ∷ [])
          [] visited (Inv-start p.wiring.outgoing root.node_id) seen in
      Reaches-Walk root.node_id k (
        inv.sound k (
          inr (
            Distinct-full visited (ids g.nodes) inv.distinct
              (λ v m. Reaches-known root.node_id v known (inv.sound v (inr m)))
              (omega (arith, length-ids g.nodes, size)) k h)))

  Passed-IsRoot : (root : EditableWorkflowNode) × IsRoot g root
  unfolding check_root
  Passed-IsRoot =
      let (c, h) = p.root in
      let (root, one, a) = present-passed _ (only (roots p.wiring.incoming g.nodes)) _ c h in
      let (visited, seen, b) =
        present-passed _
          (visit (search_fuel p.wiring.outgoing) p.wiring.outgoing (root.node_id ∷ []) []) _ c a in
      let (size, _) = require-passed (length visited == length g.nodes) _ _ c b in
      let (known, first) =
        root-facts root (only-eq-some (roots p.wiring.incoming g.nodes) root one) in
      (
        root,
        record {
          known = known;
          first = first;
          reaches = λ k.
              all-reached root visited k known seen
                ((nat_eq_iff (length visited) (length g.nodes)).0 size);
        },
      )

-- A graph passes the checks only if no two nodes and no two edges have one identifier; every node asks
-- for effects within its kind's ceiling only; every edge joins two different nodes that are there, by
-- a port that its source's kind has; one edge at most leads to a node that is neither a join nor a
-- `finally`, and two at least to a join; and walks lead from one node, which no edge leads to, to
-- every node.
pub check-IsExecutable :
    (executors : Executors) (g : EditableWorkflowGraph) (c : Counts)
    → check executors g ≡ passed c
    → IsExecutable g
check-IsExecutable executors g c h =
    let p = check-Passed executors g c h in
    record {
      distinct = p.fresh.distinct;
      distinct_edges = p.distinct_edges;
      within = p.within;
      sound = p.sound;
      joined =
          all-All (IsJoined g.edges) (is_joined p.wiring.incoming) g.nodes
            (is_joined-IsJoined g.edges p.wiring p.degrees) p.joined;
      rooted = Passed-IsRoot executors g p;
    }
