-- ===== src/Workflow/Degrees.antt =====
-- What the maps of `cycle` in packages/kogg-workflow/src/node/workflow-compiler.ts hold before its
-- loop: how many edges lead to a node, and to which nodes its edges lead.
use kogg.Prelude.{
  All, ==_sound, nat_eq_iff, Option, new_ne, includes-tail, includes-head, includes-cons, ==_refl,
  arith, inl, inr, refl, ◌≡◌, ◌⊎◌, ◌∙◌, ℕ, ◌+◌, String, String-Eq, ℕ-Eq, Bool, true, false, ◌&&◌,
  some, List, [], ◌∷◌, ◌++◌, ◌==◌, map, if◌then◌else◌, includes, length, filter, is_some,
  Bool-cases, Distinct, true-ne-false,
}
use kogg.Workflow.Graph.{EditableWorkflowNode, EditableWorkflowEdge}
use kogg.Workflow.Maps.{get, set, get-set}
use kogg.Workflow.Search.{Outgoing, targets}
use kogg.Workflow.Cycle.{
  Degrees, degree_of, increment, link, count_edges, each_node, sources, total,
}
use kogg.Workflow.NodeChecks.{ids}
use kogg.Workflow.EdgeChecks.{in_degree, targets-link, link-keeps}

abbrev pub keys {ℓ} : {A : Type ℓ} → List (String × A) → List String
keys m = map (λ entry. entry.0) m

-- How often a text occurs.
abbrev pub occurrences : List String → String → ℕ
occurrences xs v = length (filter (λ x. x == v) xs)

-- How many edges lead from the one node to the other.
abbrev pub edges_between : List EditableWorkflowEdge → String → String → ℕ
edges_between es u v =
    length
      (filter (λ (e : EditableWorkflowEdge). e.source_node_id == u && e.target_node_id == v) es)

module _ {ℓ} {A : Type ℓ} where
  pub keys-set :
      (k j : String) (a : A) (m : List (String × A))
      → includes (keys (set k a m)) j ≡ true
      → (k ≡ j) ⊎ (includes (keys m) j ≡ true)
  keys-set k j a [] h = elim (includes-cons k [] j h) [
    | inl same ↦ inl same
    | inr empty ↦ absurd cc
  ]
  keys-set k j a ((i, b) ∷ m) h = elim (Bool-cases (i == k)) [
    | inl t ↦ inr (rw t at h)
    | inr f ↦ elim (includes-cons i (keys (set k a m)) j (rw f at h)) [
      | inl same ↦ inr (rw (← same) (includes-head i (keys m)))
      | inr later ↦ elim (keys-set k j a m later) [
        | inl same ↦ inl same
        | inr there ↦ inr (includes-tail i (keys m) j there)
      ]
    ]
  ]

  pub Distinct-keys-set :
      (k : String) (a : A) (m : List (String × A)) → Distinct (keys m) → Distinct (keys (set k a m))
  Distinct-keys-set k a [] d = (refl, tt)
  Distinct-keys-set k a ((i, b) ∷ m) d = elim (Bool-cases (i == k)) [
    | inl t ↦ rw t d
    | inr f ↦ rw f (
      elim (Bool-cases (includes (keys (set k a m)) i)) [
        | inl t ↦ elim (keys-set k i a m t) [
          | inl same ↦ true-ne-false (rw same (==_refl i)) f
          | inr there ↦ true-ne-false there d.0
        ]
        | inr out ↦ out
      ],
      Distinct-keys-set k a m d.1,
    )
  ]

  -- A key that the list of keys has is found.
  pub get-keys :
      (m : List (String × A)) (k : String) → includes (keys m) k ≡ false → is_some (get k m) ≡ false
  get-keys [] k h = refl
  get-keys ((i, b) ∷ m) k h = elim (Bool-cases (i == k)) [
    | inl t ↦ true-ne-false refl (rw t at h)
    | inr f ↦ rw f (get-keys m k (rw f at h))
  ]

pub total-set : (k : String) (a : ℕ) (m : Degrees) → total (set k a m) + degree_of m k ≡ total m + a
unfolding total
total-set k a [] = omega arith
total-set k a ((i, b) ∷ m) = elim (Bool-cases (i == k)) [
  | inl t ↦ rw t (omega arith)
  | inr f ↦ rw f (omega (arith, total-set k a m))
]

pub sources-keys :
    (m : Degrees) (v : String) → includes (sources m) v ≡ true → includes (keys m) v ≡ true
unfolding sources
sources-keys [] v h = absurd cc
sources-keys ((i, b) ∷ m) v h = elim (Bool-cases (b == 0)) [
  | inl t ↦ elim (includes-cons i (sources m) v (rw t at h)) [
    | inl same ↦ rw (← same) (includes-head i (keys m))
    | inr later ↦ includes-tail i (keys m) v (sources-keys m v later)
  ]
  | inr f ↦ includes-tail i (keys m) v (sources-keys m v (rw f at h))
]

pub sources-Distinct : (m : Degrees) → Distinct (keys m) → Distinct (sources m)
unfolding sources
sources-Distinct [] d = tt
sources-Distinct ((i, b) ∷ m) d = elim (Bool-cases (b == 0)) [
  | inl t ↦ rw t (
    elim (Bool-cases (includes (sources m) i)) [
      | inl there ↦ true-ne-false (sources-keys m i there) d.0
      | inr out ↦ out
    ],
    sources-Distinct m d.1,
  )
  | inr f ↦ rw f (sources-Distinct m d.1)
]

pub sources-zero :
    (m : Degrees) (v : String)
    → Distinct (keys m)
    → includes (sources m) v ≡ true
    → degree_of m v ≡ 0
unfolding sources
sources-zero [] v d h = absurd cc
sources-zero ((i, b) ∷ m) v d h =
    let later_zero : includes (sources m) v ≡ true → degree_of ((i, b) ∷ m) v ≡ 0 =
      λ later. rw (new_ne i v (keys m) d.0 (sources-keys m v later)) (sources-zero m v d.1 later) in
    elim (Bool-cases (b == 0)) [
      | inl t ↦ elim (includes-cons i (sources m) v (rw t at h)) [
        | inl same ↦ rw (same, ==_refl v) ((nat_eq_iff b 0).0 t)
        | inr later ↦ later_zero later
      ]
      | inr f ↦ later_zero (rw f at h)
    ]

-- The maps before the first edge.
module _ {ℓ} {A : Type ℓ} where
  pub get-each_node :
      (a : A) (ns : List EditableWorkflowNode) (m : List (String × A)) (k : String)
      → get k (each_node a ns m) ≡ (if includes (ids ns) k then some a else get k m)
  unfolding each_node
  get-each_node a [] m k = refl
  get-each_node a (n ∷ ns) m k =
      get-each_node a ns (set n.node_id a m) k
      ∙ rw (get-set k n.node_id a m)
          (if-found (n.node_id == k) (includes (ids ns) k) (some a) (get k m))
    where
      if-found :
          (first later : Bool) (x y : Option A)
          → (if later then x else (if first then x else y))
            ≡ (if (if first then true else later) then x else y)
      if-found true true x y = refl
      if-found true false x y = refl
      if-found false later x y = refl

  pub keys-each_node :
      (a : A) (ns : List EditableWorkflowNode) (m : List (String × A))
      → Distinct (keys m)
      → Distinct (keys (each_node a ns m))
  unfolding each_node
  keys-each_node a [] m d = d
  keys-each_node a (n ∷ ns) m d =
      keys-each_node a ns (set n.node_id a m) (Distinct-keys-set n.node_id a m d)

-- The maps after the edges, where the ends of each are keys.
abbrev pub IsKeyedEdge : (String → Bool) → EditableWorkflowEdge → Type 0
IsKeyedEdge known e = (known e.source_node_id ≡ true) × (known e.target_node_id ≡ true)

pub record Counted (known : String → Bool) (es : List EditableWorkflowEdge)
    (degree degree' : Degrees) (edges edges' : Outgoing) : Type 0 where
  pub degrees : (v : String) → degree_of degree' v ≡ in_degree es v + degree_of degree v
  pub targeted :
      (u v : String)
      → occurrences (targets edges' u) v ≡ edges_between es u v + occurrences (targets edges u) v
  pub distinct : Distinct (keys degree')
  pub known_keys : (k : String) → includes (keys degree') k ≡ true → known k ≡ true

occurrences-append :
    (xs : List String) (a v : String)
    → occurrences (xs ++ a ∷ []) v ≡ occurrences xs v + (if a == v then 1 else 0)
occurrences-append [] a v = elim (Bool-cases (a == v)) [ inl t ↦ rw t refl | inr f ↦ rw f refl ]
occurrences-append (x ∷ xs) a v = elim (Bool-cases (x == v)) [
  | inl t ↦ rw t (omega (arith, occurrences-append xs a v))
  | inr f ↦ rw f (occurrences-append xs a v)
]

degree_of-increment :
    (k v : String) (degree : Degrees)
    → degree_of (increment k degree) v ≡ (if k == v then 1 else 0) + degree_of degree v
unfolding increment
degree_of-increment k v degree = elim (Bool-cases (k == v)) [
  | inl t ↦ rw (get-set v k (degree_of degree k + 1) degree, t, ==_sound k v t) (omega arith)
  | inr f ↦ rw (get-set v k (degree_of degree k + 1) degree, f) (omega arith)
]

targets-push :
    (s t u v : String) (out : Outgoing)
    → is_some (get s out) ≡ true
    → occurrences (targets (link s t out) u) v
      ≡ (if s == u && t == v then 1 else 0) + occurrences (targets out u) v
targets-push s t u v out h = rw (targets-link s t u out h) (elim (Bool-cases (s == u)) [
  | inl same ↦ rw (same, occurrences-append (targets out u) t v) (omega arith)
  | inr other ↦ rw other (omega arith)
])

Distinct-increment :
    (k : String) (degree : Degrees) → Distinct (keys degree) → Distinct (keys (increment k degree))
unfolding increment
Distinct-increment k degree d = Distinct-keys-set k (degree_of degree k + 1) degree d

keys-increment :
    (known : String → Bool) (t : String) (degree : Degrees)
    → known t ≡ true
    → ((k : String) → includes (keys degree) k ≡ true → known k ≡ true)
    → (k : String) → includes (keys (increment t degree)) k ≡ true
    → known k ≡ true
unfolding increment
keys-increment known t degree is_known there k h =
    elim (keys-set t k (degree_of degree t + 1) degree h) [
      | inl same ↦ rw (← same) is_known
      | inr before ↦ there k before
    ]

pub count_edges-Counted :
    (known : String → Bool) (es : List EditableWorkflowEdge) (degree : Degrees) (edges : Outgoing)
    → All (IsKeyedEdge known) es
    → ((k : String) → known k ≡ true → is_some (get k edges) ≡ true)
    → Distinct (keys degree)
    → ((k : String) → includes (keys degree) k ≡ true → known k ≡ true)
    → Counted known es degree (count_edges es degree edges).0 edges (count_edges es degree edges).1
unfolding count_edges
count_edges-Counted known [] degree edges all_of keyed d k = record {
  degrees = λ v. omega arith;
  targeted = λ u v. omega arith;
  distinct = d;
  known_keys = k;
}
count_edges-Counted known (e ∷ es) degree edges all_of keyed d k =
    let (source, target) = all_of.0 in
    let degree1 = increment e.target_node_id degree in
    let edges1 = link e.source_node_id e.target_node_id edges in
    let r =
      count_edges-Counted known es degree1 edges1 all_of.1
        (λ k' h. link-keeps k' e.source_node_id e.target_node_id edges (keyed k' h))
        (Distinct-increment e.target_node_id degree d)
        (keys-increment known e.target_node_id degree target k) in
    record {
      degrees = λ v. elim (Bool-cases (e.target_node_id == v)) [
        | inl t ↦
            rw t (
              omega (arith, r.degrees v, (rw t at (degree_of-increment e.target_node_id v degree))))
        | inr f ↦
            rw f (
              omega (arith, r.degrees v, (rw f at (degree_of-increment e.target_node_id v degree))))
      ];
      targeted = λ u v.
          let push =
            targets-push e.source_node_id e.target_node_id u v edges
              (keyed e.source_node_id source) in
          elim (Bool-cases (e.source_node_id == u && e.target_node_id == v)) [
            | inl t ↦ rw t (omega (arith, r.targeted u v, (rw t at push)))
            | inr f ↦ rw f (omega (arith, r.targeted u v, (rw f at push)))
          ];
      distinct = r.distinct;
      known_keys = r.known_keys;
    }
