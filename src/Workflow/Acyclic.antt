-- ===== src/Workflow/Acyclic.antt =====
-- A graph that passes the checks of packages/kogg-workflow/src/node/workflow-compiler.ts has no cycle.
use kogg.Prelude.{
  Distinct-full, ◌&&◌, arith, inl, inr, refl, ◌≡◌, ◌∙◌, ℕ, ◌+◌, ◌≤◌, String, String-Eq, ℕ-Eq, Bool,
  true, false, not, List, [], ◌∷◌, ◌==◌, includes, length, is_some, All, All-mono, Bool-cases,
  Distinct, true-ne-false, nat_eq_iff,
}
use kogg.Workflow.Graph.{EditableWorkflowEdge, EditableWorkflowGraph}
use kogg.Workflow.Maps.{get}
use kogg.Workflow.Catalog.{Executors}
use kogg.Workflow.Search.{Outgoing, targets}
use kogg.Workflow.Cycle.{Degrees, degree_of, total, sources, count_edges, each_node, cycle}
use kogg.Workflow.Check.{check, Counts}
use kogg.Workflow.Checked.{passed}
use kogg.Workflow.NodeChecks.{ids}
use kogg.Workflow.NodeMap.{find_node-some}
use kogg.Workflow.EdgeChecks.{leads}
use kogg.Workflow.Degrees.{
  keys, occurrences, edges_between, Counted, IsKeyedEdge, count_edges-Counted, get-each_node,
  keys-each_node, sources-keys, sources-Distinct, sources-zero,
}
use kogg.Workflow.Release.{open_in-start}
use kogg.Workflow.Passed.{Passed, check-Passed}
use kogg.Workflow.Sound.{length-ids, Walk}
use kogg.Workflow.Sound.{target-known}
use kogg.Workflow.Order.{Ordered, Walk-rank, Ordered-rank, Peeled, peel-Peeled, peel-ends}

keys-get : (m : Degrees) (k : String) → includes (keys m) k ≡ true → is_some (get k m) ≡ true
keys-get [] k h = absurd cc
keys-get ((i, b) ∷ m) k h = elim (Bool-cases (i == k)) [
  | inl t ↦ rw t refl
  | inr f ↦ rw f (keys-get m k (rw f at h))
]

occurrences-includes : (xs : List String) (v : String) → includes xs v ≡ true → 1 ≤ occurrences xs v
occurrences-includes [] v h = absurd cc
occurrences-includes (x ∷ xs) v h = elim (Bool-cases (x == v)) [
  | inl t ↦ rw t (omega arith)
  | inr f ↦ rw f (occurrences-includes xs v (rw f at h))
]

edges_between-leads :
    (es : List EditableWorkflowEdge) (u v : String) → 1 ≤ edges_between es u v → leads es u v ≡ true
edges_between-leads [] u v h = absurd (omega arith)
edges_between-leads (e ∷ es) u v h =
    elim (Bool-cases (e.source_node_id == u && e.target_node_id == v)) [
      | inl t ↦ rw t refl
      | inr f ↦ rw f (edges_between-leads es u v (rw f at h))
    ]

module _ (executors : Executors) (g : EditableWorkflowGraph) (p : Passed executors g) where
  abbrev known : String → Bool
  known k = includes (ids g.nodes) k

  abbrev degree0 : Degrees
  degree0 = each_node 0 g.nodes []

  abbrev edges0 : Outgoing
  edges0 = each_node [] g.nodes []

  abbrev degree1 : Degrees
  degree1 = (count_edges g.edges degree0 edges0).0

  abbrev edges1 : Outgoing
  edges1 = (count_edges g.edges degree0 edges0).1

  degree0-known : (k : String) → includes (keys degree0) k ≡ true → known k ≡ true
  degree0-known k h = elim (Bool-cases (known k)) [
    | inl t ↦ t
    | inr f ↦
        true-ne-false (keys-get degree0 k h) (rw (get-each_node {A = ℕ} 0 g.nodes [] k, f) refl)
  ]

  degree0-zero : (k : String) → degree_of degree0 k ≡ 0
  degree0-zero k = elim (Bool-cases (known k)) [
    | inl t ↦ rw (get-each_node {A = ℕ} 0 g.nodes [] k, t) refl
    | inr f ↦ rw (get-each_node {A = ℕ} 0 g.nodes [] k, f) refl
  ]

  edges0-empty : (k : String) → targets edges0 k ≡ []
  edges0-empty k = elim (Bool-cases (known k)) [
    | inl t ↦ rw (get-each_node {A = List String} [] g.nodes [] k, t) refl
    | inr f ↦ rw (get-each_node {A = List String} [] g.nodes [] k, f) refl
  ]

  keyed : All (IsKeyedEdge known) g.edges
  keyed =
      All-mono _ _ g.edges
        (λ (e : EditableWorkflowEdge) sound.
          let (_, there, (n, at_n, _)) = sound in
          (
            find_node-some g.nodes e.source_node_id (rw at_n refl),
            find_node-some g.nodes e.target_node_id there,
          ))
        p.sound

  counted : Counted known g.edges degree0 degree1 edges0 edges1
  counted =
      count_edges-Counted known g.edges degree0 edges0 keyed
        (λ k h. rw (get-each_node {A = List String} [] g.nodes [] k, h) refl)
        (keys-each_node 0 g.nodes [] tt) degree0-known

  targeted : (u v : String) → occurrences (targets edges1 u) v ≡ edges_between g.edges u v
  targeted u v = rw (edges0-empty u) at (counted.targeted u v) ∙ omega arith

  known_targets : (u v : String) → includes (targets edges1 u) v ≡ true → known v ≡ true
  known_targets u v h = target-known executors g p u v (
      edges_between-leads g.edges u v
        (omega (arith, targeted u v, occurrences-includes (targets edges1 u) v h)))

  Peeled-start : Peeled g.edges known degree1 (sources degree1) []
  Peeled-start = record {
    waiting = record {
      distinct = sources-Distinct degree1 counted.distinct;
      apart = λ v h. refl;
      zero_waiting = λ v h. sources-zero degree1 v counted.distinct h;
      zero_taken = λ v h. absurd cc;
      known_waiting = λ v h. counted.known_keys v (sources-keys degree1 v h);
    };
    opened = λ v. omega (arith, counted.degrees v, degree0-zero v, open_in-start g.edges v);
    ordered = tt;
    distinct = tt;
    known_taken = λ v h. absurd cc;
  }

  all-taken :
      (order : List String)
      → Distinct order
      → ((v : String) → includes order v ≡ true → known v ≡ true)
      → length order ≡ length g.nodes
      → (u v : String) → leads g.edges u v ≡ true
      → includes order v ≡ true
  all-taken order d within size u v l =
      Distinct-full order (ids g.nodes) d within (omega (arith, size, length-ids g.nodes)) v
        (target-known executors g p u v l)

  order-of :
      (order : List String) × Ordered g.edges order
      × Distinct order
      × ((v : String) → includes order v ≡ true → known v ≡ true)
      × (length order ≡ length g.nodes)
  unfolding cycle
  order-of =
      let fuel = length (sources degree1) + total degree1 in
      let (count, ends) = peel-ends g.edges fuel edges1 degree1 (sources degree1) 0 (omega arith) in
      let (order, ordered, distinct, within, size) =
        peel-Peeled g.edges known edges1 targeted known_targets fuel degree1 (sources degree1) []
          count Peeled-start ends in
      (
        order,
        ordered,
        distinct,
        within,
        size ∙ (nat_eq_iff count (length g.nodes)).0 (not-false _ (rw ends at p.acyclic)),
      )
    where
      not-false : (b : Bool) → not b ≡ false → b ≡ true
      not-false true h = refl
      not-false false h = absurd cc

-- In a graph that passes the checks no walk leads back to where it began: if a walk leads from the one
-- node to the other, no edge leads from the other to the one.
pub check-acyclic :
    (executors : Executors) (g : EditableWorkflowGraph) (c : Counts) (u v : String)
    → check executors g ≡ passed c
    → Walk g.edges u v
    → leads g.edges v u ≡ false
check-acyclic executors g c u v h walk = elim (Bool-cases (leads g.edges v u)) [
  | inl back ↦
      let p = check-Passed executors g c h in
      let (order, ordered, distinct, within, size) = order-of executors g p in
      let taken = all-taken executors g p order distinct within size in
      absurd (
        omega (
          arith,
          Walk-rank g.edges order u v distinct ordered taken walk,
          (Ordered-rank g.edges order v u distinct ordered (taken v u back) back).1,
        ))
  | inr none_back ↦ none_back
]
