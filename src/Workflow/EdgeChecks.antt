-- ===== src/Workflow/EdgeChecks.antt =====
-- What the loop over the edges in `check` of packages/kogg-workflow/src/node/workflow-compiler.ts
-- leaves: the facts it has checked of every edge, and the wiring as the edges give it.
use kogg.Prelude.{
  ||-eq-false, includes-cons, ==_refl, ==_sound, arith, inl, inr, refl, sym, ◌≡◌, ◌∙◌, ℕ, ◌+◌,
  String, String-Eq, Bool, true, false, not, ◌&&◌, ◌||◌, Option, some, List, [], ◌∷◌, ◌++◌, ◌==◌,
  map, if◌then◌else◌, includes, length, filter, any, is_some, All, Bool-cases, Distinct,
  true-ne-false, &&-eq-true, Option-cases,
}
use kogg.Workflow.Effects.{EdgeOutcome-Eq}
use kogg.Workflow.Graph.{EditableWorkflowNode, EditableWorkflowEdge}
use kogg.Workflow.Catalog.{Executors, catalog_entry, definition_of}
use kogg.Workflow.Maps.{get, get-set, set-keeps}
use kogg.Workflow.Search.{Outgoing, targets}
use kogg.Workflow.Cycle.{degree_of, increment, link}
use kogg.Workflow.Compiler.{Wiring, Nodes, check_edge, check_port, check_edges, is_known_edge, wire}
use kogg.Workflow.Checked.{
  passed, ◌>>=◌, >>=-passed, passed-injective, require-passed, present-passed,
}
use kogg.Workflow.NodeChecks.{entry-total}

-- Some edge leads from the one node to the other.
abbrev pub leads : List EditableWorkflowEdge → String → String → Bool
leads es u v = any (λ (e : EditableWorkflowEdge). e.source_node_id == u && e.target_node_id == v) es

-- How many edges lead to a node.
abbrev pub in_degree : List EditableWorkflowEdge → String → ℕ
in_degree es v = length (filter (λ (e : EditableWorkflowEdge). e.target_node_id == v) es)

abbrev pub edge_ids_of : List EditableWorkflowEdge → List String
edge_ids_of es = map (λ (e : EditableWorkflowEdge). e.edge_id) es

-- An edge joins two different nodes that are there, by a port that the source's kind has.
abbrev pub IsSoundEdge : (String → Option EditableWorkflowNode) → EditableWorkflowEdge → Type 0
IsSoundEdge lookup e =
    ((e.source_node_id == e.target_node_id) ≡ false)
    × (is_some (lookup e.target_node_id) ≡ true)
    × ((n : EditableWorkflowNode) × (lookup e.source_node_id ≡ some n)
        × (includes (definition_of n.kind).output_ports e.source_port ≡ true))

not-true : (b : Bool) → not b ≡ true → b ≡ false
not-true false h = refl
not-true true h = absurd cc

check_port-facts :
    (executors : Executors) (e : EditableWorkflowEdge) (w w' : Wiring) (n : EditableWorkflowNode)
    → check_port executors e w n ≡ passed w'
    → (includes (definition_of n.kind).output_ports e.source_port ≡ true) × (w' ≡ wire e w)
unfolding check_port ◌>>=◌ catalog_entry
check_port-facts executors e w w' n h =
    let (ports, c) = require-passed _ _ _ w' (rw (entry-total executors n.kind) at h) in
    (ports, sym (passed-injective c))

pub check_edge-facts :
    (executors : Executors) (nodes : Nodes) (e : EditableWorkflowEdge) (w w' : Wiring)
    → check_edge executors nodes e w ≡ passed w'
    → (includes w.edge_ids e.edge_id ≡ false) × IsSoundEdge (λ k. get k nodes) e × (w' ≡ wire e w)
unfolding check_edge is_known_edge
check_edge-facts executors nodes e w w' h =
    let (test, a) = require-passed _ _ _ w' h in
    let (n, at_n, b) =
      present-passed _ (get e.source_node_id nodes) (check_port executors e w) w' a in
    let (ports, wired) = check_port-facts executors e w w' n b in
    let (unused, known) =
      &&-eq-true (not (includes w.edge_ids e.edge_id)) (is_known_edge nodes e) test in
    let (other, ends) =
      &&-eq-true (not (e.source_node_id == e.target_node_id))
        (is_some (get e.source_node_id nodes) && is_some (get e.target_node_id nodes)) known in
    let (_, there) =
      &&-eq-true (is_some (get e.source_node_id nodes)) (is_some (get e.target_node_id nodes))
        ends in
    (not-true _ unused, (not-true _ other, there, (n, at_n, ports)), wired)

pub link-keeps :
    (k s t : String) (out : Outgoing)
    → is_some (get k out) ≡ true
    → is_some (get k (link s t out)) ≡ true
unfolding link
link-keeps k s t out h = elim (Option-cases (get s out)) [
  | inl e ↦ rw e h
  | inr (ts, e) ↦ rw e (set-keeps k s (ts ++ t ∷ []) out h)
]

pub targets-link :
    (s t u : String) (out : Outgoing)
    → is_some (get s out) ≡ true
    → targets (link s t out) u ≡ (if s == u then targets out u ++ t ∷ [] else targets out u)
unfolding link
targets-link s t u out h = elim (Option-cases (get s out)) [
  | inl e ↦ true-ne-false h (rw e refl)
  | inr (ts, e) ↦ elim (Bool-cases (s == u)) [
    | inl same ↦ rw (e, get-set u s (ts ++ t ∷ []) out, same, ← ==_sound s u same, e) refl
    | inr other ↦ rw (e, get-set u s (ts ++ t ∷ []) out, other) refl
  ]
]

includes-snoc :
    (xs : List String) (a v : String) → includes (xs ++ a ∷ []) v ≡ (includes xs v || (a == v))
includes-snoc [] a v = if-true (a == v)
  where
    if-true : (b : Bool) → (if b then true else false) ≡ b
    if-true true = refl
    if-true false = refl
includes-snoc (x ∷ xs) a v = elim (Bool-cases (x == v)) [
  | inl t ↦ rw t refl
  | inr f ↦ rw f (includes-snoc xs a v)
]

-- One edge more.
leads-step :
    (s_is t_is later before : Bool)
    → (later || (if s_is then before || t_is else before))
      ≡ ((if s_is && t_is then true else later) || before)
leads-step true true later before = ground arith
leads-step true false later before = ground arith
leads-step false t_is later before = ground arith

targets-wire :
    (e : EditableWorkflowEdge) (w : Wiring) (u v : String) (later : Bool)
    → is_some (get e.source_node_id w.outgoing) ≡ true
    → (later || includes (targets (wire e w).outgoing u) v) ≡ (
        (if e.source_node_id == u && e.target_node_id == v then true else later)
        || includes (targets w.outgoing u) v)
unfolding wire
targets-wire e w u v later h =
    rw (targets-link e.source_node_id e.target_node_id u w.outgoing h)
      (elim (Bool-cases (e.source_node_id == u)) [
        | inl t ↦
            rw (t, includes-snoc (targets w.outgoing u) e.target_node_id v)
              (leads-step true (e.target_node_id == v) later (includes (targets w.outgoing u) v))
        | inr f ↦
            rw f
              (leads-step false (e.target_node_id == v) later (includes (targets w.outgoing u) v))
      ])

-- The wiring after the edges, by the wiring before them.
pub record Wired (es : List EditableWorkflowEdge) (w w' : Wiring) : Type 0 where
  pub edges :
      (u v : String)
      → includes (targets w'.outgoing u) v ≡ (leads es u v || includes (targets w.outgoing u) v)
  pub degrees : (v : String) → degree_of w'.incoming v ≡ in_degree es v + degree_of w.incoming v
  pub distinct : Distinct (edge_ids_of es)
  pub unused : (k : String) → includes (edge_ids_of es) k ≡ true → includes w.edge_ids k ≡ false

abbrev IsKeyed : Nodes → Wiring → Type 0
IsKeyed nodes w = (k : String) → is_some (get k nodes) ≡ true → is_some (get k w.outgoing) ≡ true

degree-wire :
    (e : EditableWorkflowEdge) (w : Wiring) (v : String)
    → degree_of (wire e w).incoming v
      ≡ (if e.target_node_id == v then 1 else 0) + degree_of w.incoming v
unfolding wire increment
degree-wire e w v = elim (Bool-cases (e.target_node_id == v)) [
  | inl t ↦
      rw
        (
          get-set v e.target_node_id (degree_of w.incoming e.target_node_id + 1) w.incoming,
          t,
          ==_sound e.target_node_id v t,
        )
        (omega arith)
  | inr f ↦
      rw (get-set v e.target_node_id (degree_of w.incoming e.target_node_id + 1) w.incoming, f)
        (omega arith)
]

unused-rest :
    (e : EditableWorkflowEdge) (w : Wiring) (k : String)
    → includes w.edge_ids e.edge_id ≡ false
    → includes (wire e w).edge_ids k ≡ false
    → (includes w.edge_ids k ≡ false) × ((e.edge_id == k) ≡ false)
unfolding wire
unused-rest e w k new h =
    ||-eq-false _ _ (sym (includes-snoc w.edge_ids e.edge_id k) ∙ (rw new at h))

Wired-cons :
    (e : EditableWorkflowEdge) (es : List EditableWorkflowEdge) (w w' : Wiring)
    → includes w.edge_ids e.edge_id ≡ false
    → is_some (get e.source_node_id w.outgoing) ≡ true
    → Wired es (wire e w) w'
    → Wired (e ∷ es) w w'
Wired-cons e es w w' new key r = record {
  edges = λ u v. r.edges u v ∙ targets-wire e w u v (leads es u v) key;
  degrees = λ v. elim (Bool-cases (e.target_node_id == v)) [
    | inl t ↦ rw t (omega (arith, r.degrees v, (rw t at (degree-wire e w v))))
    | inr f ↦ rw f (omega (arith, r.degrees v, (rw f at (degree-wire e w v))))
  ];
  distinct = (
    elim (Bool-cases (includes (edge_ids_of es) e.edge_id)) [
      | inl t ↦
          true-ne-false (==_refl e.edge_id) (unused-rest e w e.edge_id new (r.unused e.edge_id t)).1
      | inr f ↦ f
    ],
    r.distinct,
  );
  unused = λ k h. elim (includes-cons e.edge_id (edge_ids_of es) k h) [
    | inl same ↦ rw (← same) new
    | inr later ↦ (unused-rest e w k new (r.unused k later)).0
  ];
}

IsKeyed-wire :
    (nodes : Nodes) (e : EditableWorkflowEdge) (w : Wiring)
    → IsKeyed nodes w
    → IsKeyed nodes (wire e w)
unfolding wire
IsKeyed-wire nodes e w keys k h =
    link-keeps k e.source_node_id e.target_node_id w.outgoing (keys k h)

pub check_edges-Wired :
    (executors : Executors) (nodes : Nodes) (es : List EditableWorkflowEdge) (w w' : Wiring)
    → IsKeyed nodes w
    → check_edges executors nodes es w ≡ passed w'
    → All (IsSoundEdge (λ k. get k nodes)) es × Wired es w w'
unfolding check_edges
check_edges-Wired executors nodes [] w w' keys h = (
  tt,
  rw (← passed-injective h) (record {
    edges = λ u v. refl;
    degrees = λ v. omega arith;
    distinct = tt;
    unused = λ k m. absurd cc;
  }),
)
check_edges-Wired executors nodes (e ∷ es) w w' keys h =
    let (w1, first, rest) =
      >>=-passed (check_edge executors nodes e w) (check_edges executors nodes es) w' h in
    let (new, sound, wired) = check_edge-facts executors nodes e w w1 first in
    let (_, _, (n, at_n, _)) = sound in
    let (later, r) =
      check_edges-Wired executors nodes es w1 w' (rw wired (IsKeyed-wire nodes e w keys)) rest in
    (
      (sound, later),
      Wired-cons e es w w' new (keys e.source_node_id (rw at_n refl)) (rw wired at r),
    )
