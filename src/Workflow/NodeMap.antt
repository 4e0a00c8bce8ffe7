-- ===== src/Workflow/NodeMap.antt =====
-- The map of the nodes that `check` of packages/kogg-workflow/src/node/workflow-compiler.ts makes: it
-- has as many keys as there are nodes only if no two have one identifier, and then it finds what is in
-- the list.
use kogg.Prelude.{
  includes-tail, includes-cons, ==_sound, new_ne, arith, inl, inr, refl, ◌≡◌, ◌∙◌, ◌+◌, ◌≤◌, String,
  String-Eq, true, false, Option, none, some, List, [], ◌∷◌, ◌==◌, includes, length, find?, is_some,
  Bool-cases, Distinct, true-ne-false,
}
use kogg.Workflow.Graph.{EditableWorkflowNode}
use kogg.Workflow.Maps.{get, set, get-set, get-set_same, set-keeps, length-set_old, length-set_new}
use kogg.Workflow.Compiler.{Nodes, node_map}
use kogg.Workflow.NodeChecks.{ids}

abbrev pub find_node : String → List EditableWorkflowNode → Option EditableWorkflowNode
find_node k ns = find? (λ (n : EditableWorkflowNode). n.node_id == k) ns

abbrev pub or_else {ℓ} : {A : Type ℓ} → Option A → Option A → Option A
or_else none b = b
or_else (some a) b = some a

pub or_else-none {ℓ} : {A : Type ℓ} (a : Option A) → or_else a none ≡ a
or_else-none none = refl
or_else-none (some a) = refl

find_node-none :
    (ns : List EditableWorkflowNode) (k : String)
    → includes (ids ns) k ≡ false
    → find_node k ns ≡ none
find_node-none [] k h = refl
find_node-none (n ∷ ns) k h = elim (Bool-cases (n.node_id == k)) [
  | inl t ↦ true-ne-false refl (rw t at h)
  | inr f ↦ rw f (find_node-none ns k (rw f at h))
]

pub find_node-some :
    (ns : List EditableWorkflowNode) (k : String)
    → is_some (find_node k ns) ≡ true
    → includes (ids ns) k ≡ true
find_node-some ns k h = elim (Bool-cases (includes (ids ns) k)) [
  | inl t ↦ t
  | inr f ↦ true-ne-false h (rw (find_node-none ns k f) refl)
]

length-node_map_le :
    (ns : List EditableWorkflowNode) (m : Nodes) → length (node_map ns m) ≤ length ns + length m
unfolding node_map
length-node_map_le [] m = omega arith
length-node_map_le (n ∷ ns) m = elim (Bool-cases (is_some (get n.node_id m))) [
  | inl t ↦ omega (arith, length-node_map_le ns (set n.node_id n m), length-set_old n.node_id n m t)
  | inr f ↦ omega (arith, length-node_map_le ns (set n.node_id n m), length-set_new n.node_id n m f)
]

-- No two of the nodes have one identifier, and none of them is in the map.
pub record Fresh (ns : List EditableWorkflowNode) (m : Nodes) : Type 0 where
  pub distinct : Distinct (ids ns)
  pub new : (k : String) → includes (ids ns) k ≡ true → is_some (get k m) ≡ false

module _ (n : EditableWorkflowNode) (ns : List EditableWorkflowNode) (m : Nodes) where
  set-fresh : (k : String) → is_some (get k (set n.node_id n m)) ≡ false → is_some (get k m) ≡ false
  set-fresh k h = elim (Bool-cases (is_some (get k m))) [
    | inl t ↦ true-ne-false (set-keeps k n.node_id n m t) h
    | inr f ↦ f
  ]

  Fresh-cons : is_some (get n.node_id m) ≡ false → Fresh ns (set n.node_id n m) → Fresh (n ∷ ns) m
  Fresh-cons f r = record {
    distinct = (
      elim (Bool-cases (includes (ids ns) n.node_id)) [
        | inl t ↦ true-ne-false (rw (get-set_same n.node_id n m) refl) (r.new n.node_id t)
        | inr out ↦ out
      ],
      r.distinct,
    );
    new = λ k h. elim (includes-cons n.node_id (ids ns) k h) [
      | inl same ↦ rw (← same) f
      | inr later ↦ set-fresh k (r.new k later)
    ];
  }

  Fresh-rest : Fresh (n ∷ ns) m → Fresh ns (set n.node_id n m)
  Fresh-rest r = record {
    distinct = r.distinct.1;
    new = λ k h.
        rw (get-set k n.node_id n m, new_ne n.node_id k (ids ns) r.distinct.0 h)
          (r.new k (includes-tail n.node_id (ids ns) k h));
  }

pub node_map-Fresh :
    (ns : List EditableWorkflowNode) (m : Nodes)
    → length (node_map ns m) ≡ length ns + length m
    → Fresh ns m
unfolding node_map
node_map-Fresh [] m h = record { distinct = tt; new = λ k e. absurd cc }
node_map-Fresh (n ∷ ns) m h =
    let le = length-node_map_le ns (set n.node_id n m) in
    elim (Bool-cases (is_some (get n.node_id m))) [
      | inl t ↦ absurd (omega (arith, le, length-set_old n.node_id n m t))
      | inr f ↦
          Fresh-cons n ns m f (
            node_map-Fresh ns (set n.node_id n m)
              (omega (arith, h, length-set_new n.node_id n m f)))
    ]

pub get-node_map :
    (ns : List EditableWorkflowNode) (m : Nodes) (k : String)
    → Fresh ns m
    → get k (node_map ns m) ≡ or_else (find_node k ns) (get k m)
unfolding node_map
get-node_map [] m k f = refl
get-node_map (n ∷ ns) m k f =
    get-node_map ns (set n.node_id n m) k (Fresh-rest n ns m f)
    ∙ elim (Bool-cases (n.node_id == k)) [
      | inl t ↦
          rw
            (
              get-set k n.node_id n m,
              t,
              find_node-none ns k (rw (==_sound n.node_id k t) at f.distinct.0),
            )
            refl
      | inr other ↦ rw (get-set k n.node_id n m, other) refl
    ]
