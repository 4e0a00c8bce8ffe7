-- ===== src/Workflow/Reaches.antt =====
-- What the searches of packages/kogg-workflow/src/node/workflow-compiler.ts find: their invariant and
-- their fuel.
use kogg.Prelude.{
  sym, true-ne-false, some-injective, ==_flip, ==_refl, ◌↔◌, ℕ, zero, suc, ◌+◌, ◌≤◌, String,
  String-Eq, Bool, true, false, some, List, [], ◌∷◌, ◌++◌, ◌==◌, ◌≡◌, refl, ◌⊎◌, inl, inr, includes,
  length, length-append, arith, Bool-cases, includes-head, includes-tail, includes-cons,
  includes-append, includes-append_left, includes-append_right, Distinct, ==_sound,
}
use kogg.Workflow.Search.{
  Outgoing, targets, expand, visit, search, unvisited_edges, search_fuel, reachable,
}

-- The walks along the edges.
pub data Reaches (out : Outgoing) (source : String) : String → Type 0 where
  here : Reaches out source source
  step :
      {u v : String}
      → Reaches out source u
      → includes (targets out u) v ≡ true
      → Reaches out source v

-- On the queue, or visited.
abbrev pub Seen : List String → List String → String → Type 0
Seen queue visited v = (includes queue v ≡ true) ⊎ (includes visited v ≡ true)

pub record Inv (out : Outgoing) (source : String) (queue visited : List String) : Type 0 where
  pub started : Seen queue visited source
  pub closed :
      (u v : String)
      → includes visited u ≡ true
      → includes (targets out u) v ≡ true
      → Seen queue visited v
  pub sound : (v : String) → Seen queue visited v → Reaches out source v
  pub distinct : Distinct visited

pub Inv-start : (out : Outgoing) (source : String) → Inv out source (source ∷ []) []
Inv-start out source = record {
  started = inl (includes-head source []);
  closed = λ u v h. absurd cc;
  sound = λ v h. elim h [
    | inl q ↦ elim (includes-cons source [] v q) [
      | inl same ↦ rw (← same) here
      | inr empty ↦ absurd cc
    ]
    | inr empty ↦ absurd cc
  ];
  distinct = tt;
}

module _ (out : Outgoing) (id : String) (queue visited : List String) where
  expand-seen :
      includes visited id ≡ true
      → expand out id queue visited ≡ record { queue = queue; visited = visited }
  unfolding expand
  expand-seen h = rw h refl

  expand-new :
      includes visited id ≡ false
      → expand out id queue visited
        ≡ record { queue = queue ++ targets out id; visited = id ∷ visited }
  unfolding expand
  expand-new h = rw h refl

  Seen-again :
      includes visited id ≡ true → (v : String) → Seen (id ∷ queue) visited v → Seen queue visited v
  Seen-again h v (inl q) = elim (includes-cons id queue v q) [
    | inl same ↦ inr (rw (← same) h)
    | inr later ↦ inl later
  ]
  Seen-again h v (inr s) = inr s

  Seen-moved :
      (v : String) → Seen (id ∷ queue) visited v → Seen (queue ++ targets out id) (id ∷ visited) v
  Seen-moved v (inl q) = elim (includes-cons id queue v q) [
    | inl same ↦ inr (rw (← same) (includes-head id visited))
    | inr later ↦ inl (includes-append_left queue (targets out id) v later)
  ]
  Seen-moved v (inr s) = inr (includes-tail id visited v s)

  Inv-seen :
      (source : String)
      → includes visited id ≡ true
      → Inv out source (id ∷ queue) visited
      → Inv out source queue visited
  Inv-seen source h i = record {
    started = Seen-again h source i.started;
    closed = λ u v m t. Seen-again h v (i.closed u v m t);
    sound = λ v s. i.sound v (elim s [ inl q ↦ inl (includes-tail id queue v q) | inr m ↦ inr m ]);
    distinct = i.distinct;
  }

  Inv-new :
      (source : String)
      → includes visited id ≡ false
      → Inv out source (id ∷ queue) visited
      → Inv out source (queue ++ targets out id) (id ∷ visited)
  Inv-new source h i = record {
    started = Seen-moved source i.started;
    closed = λ u v m t. elim (includes-cons id visited u m) [
      | inl same ↦ inl (includes-append_right queue (targets out id) v (rw same t))
      | inr before ↦ Seen-moved v (i.closed u v before t)
    ];
    sound = λ v s. elim s [
      | inl q ↦ elim (includes-append queue (targets out id) v q) [
        | inl before ↦ i.sound v (inl (includes-tail id queue v before))
        | inr fresh ↦ step (i.sound id (inl (includes-head id queue))) fresh
      ]
      | inr m ↦ elim (includes-cons id visited v m) [
        | inl same ↦ rw (← same) (i.sound id (inl (includes-head id queue)))
        | inr before ↦ i.sound v (inr before)
      ]
    ];
    distinct = (h, i.distinct);
  }

  pub Inv-expand :
      (source : String)
      → Inv out source (id ∷ queue) visited
      → Inv out source (expand out id queue visited).queue (expand out id queue visited).visited
  Inv-expand source i = elim (Bool-cases (includes visited id)) [
    | inl t ↦ rw (expand-seen t) (Inv-seen source t i)
    | inr f ↦ rw (expand-new f) (Inv-new source f i)
  ]

-- What a search can still take off its queue.
abbrev pub work : Outgoing → List String → List String → ℕ
work out queue visited = length queue + unvisited_edges visited out

unvisited_edges_le :
    (id : String) (visited : List String) (out : Outgoing)
    → unvisited_edges (id ∷ visited) out ≤ unvisited_edges visited out
unfolding unvisited_edges
unvisited_edges_le id visited [] = omega arith
unvisited_edges_le id visited ((k, ts) ∷ out) = elim (Bool-cases (id == k)) [
  | inl t ↦ rw t (omega (arith, unvisited_edges_le id visited out))
  | inr f ↦ rw f (omega (arith, unvisited_edges_le id visited out))
]

unvisited_edges-visit :
    (id : String) (visited : List String) (out : Outgoing)
    → includes visited id ≡ false
    → unvisited_edges (id ∷ visited) out + length (targets out id) ≤ unvisited_edges visited out
unfolding unvisited_edges
unvisited_edges-visit id visited [] h = omega arith
unvisited_edges-visit id visited ((k, ts) ∷ out) h = elim (Bool-cases (k == id)) [
  | inl t ↦ rw (==_sound k id t, ==_refl id, h) (omega (arith, unvisited_edges_le id visited out))
  | inr f ↦ rw (f, ==_flip k id f) (omega (arith, unvisited_edges-visit id visited out h))
]

pub work-expand :
    (out : Outgoing) (id : String) (queue visited : List String)
    → suc (work out (expand out id queue visited).queue (expand out id queue visited).visited)
      ≤ work out (id ∷ queue) visited
work-expand out id queue visited = elim (Bool-cases (includes visited id)) [
  | inl t ↦ rw (expand-seen out id queue visited t) (omega arith)
  | inr f ↦
      rw (expand-new out id queue visited f) (
        omega (arith, unvisited_edges-visit id visited out f, length-append queue (targets out id)))
]

-- With enough fuel the search ends.
pub visit-ends :
    (n : ℕ) (out : Outgoing) (queue visited : List String)
    → work out queue visited ≤ n
    → (found : List String) × (visit n out queue visited ≡ some found)
unfolding visit
visit-ends n out [] visited h = (visited, refl)
visit-ends zero out (id ∷ queue) visited h = absurd (omega arith)
visit-ends (suc n) out (id ∷ queue) visited h =
    let next = expand out id queue visited in
    visit-ends n out next.queue next.visited (omega (arith, work-expand out id queue visited))

pub search-ends :
    (n : ℕ) (out : Outgoing) (target : String) (queue visited : List String)
    → work out queue visited ≤ n
    → (found : Bool) × (search n out target queue visited ≡ some found)
unfolding search
search-ends n out target [] visited h = (false, refl)
search-ends zero out target (id ∷ queue) visited h = absurd (omega arith)
search-ends (suc n) out target (id ∷ queue) visited h =
    let next = expand out id queue visited in
    elim (Bool-cases (id == target)) [
      | inl t ↦ rw t (true, refl)
      | inr f ↦ rw f (
          search-ends n out target next.queue next.visited
            (omega (arith, work-expand out id queue visited)))
    ]

-- What is visited at the end is what the source reaches.
pub visit-Inv :
    (n : ℕ) (out : Outgoing) (source : String) (queue visited found : List String)
    → Inv out source queue visited
    → visit n out queue visited ≡ some found
    → Inv out source [] found
unfolding visit
visit-Inv n out source [] visited found i h = rw (← some-injective h) i
visit-Inv zero out source (id ∷ queue) visited found i h = absurd cc
visit-Inv (suc n) out source (id ∷ queue) visited found i h =
    let next = expand out id queue visited in
    visit-Inv n out source next.queue next.visited found (Inv-expand out id queue visited source i)
      h

pub Inv-complete :
    (out : Outgoing) (source : String) (found : List String) (v : String)
    → Inv out source [] found
    → Reaches out source v
    → includes found v ≡ true
Inv-complete out source found v i here = elim i.started [ inl q ↦ absurd cc | inr m ↦ m ]
Inv-complete out source found v i (step {u} walk edge) =
    elim (i.closed u v (Inv-complete out source found u i walk) edge) [
      | inl q ↦ absurd cc
      | inr m ↦ m
    ]

expand-unmet :
    (out : Outgoing) (id target : String) (queue visited : List String)
    → (id == target) ≡ false
    → includes visited target ≡ false
    → includes (expand out id queue visited).visited target ≡ false
expand-unmet out id target queue visited n new = elim (Bool-cases (includes visited id)) [
  | inl t ↦ rw (expand-seen out id queue visited t) new
  | inr f ↦ rw (expand-new out id queue visited f, n) new
]

-- The answer of a search that has not met its target yet.
pub search-Inv :
    (n : ℕ) (out : Outgoing) (source target : String) (queue visited : List String) (found : Bool)
    → Inv out source queue visited
    → includes visited target ≡ false
    → search n out target queue visited ≡ some found
    → (found ≡ true) ↔ Reaches out source target
unfolding search
search-Inv n out source target [] visited found i new h = (
  λ t. true-ne-false t (sym (some-injective h)),
  λ walk. true-ne-false (Inv-complete out source visited target i walk) new,
)
search-Inv zero out source target (id ∷ queue) visited found i new h = absurd cc
search-Inv (suc n) out source target (id ∷ queue) visited found i new h =
    let next = expand out id queue visited in
    elim (Bool-cases (id == target)) [
      | inl t ↦ (
        λ _. i.sound target (inl (rw (==_sound id target t) (includes-head target queue))),
        λ _. sym (some-injective (rw t at h)),
      )
      | inr f ↦
          search-Inv n out source target next.queue next.visited found
            (Inv-expand out id queue visited source i)
            (expand-unmet out id target queue visited f new) (rw f at h)
    ]

-- `reachable` answers whether some walk along the edges leads from the one node to the other.
pub reachable-Reaches :
    (out : Outgoing) (source target : String)
    → (reachable source target out ≡ true) ↔ Reaches out source target
unfolding reachable search_fuel
reachable-Reaches out source target =
    let (found, ends) = search-ends (search_fuel out) out target (source ∷ []) [] (omega arith) in
    rw ends (
      search-Inv (search_fuel out) out source target (source ∷ []) [] found (Inv-start out source)
        refl ends)
