-- ===== src/Workflow/Order.antt =====
-- The order in which `cycle` of packages/kogg-workflow/src/node/workflow-compiler.ts takes nodes off:
-- every edge leads forward in it, and the loop ends.
use kogg.Prelude.{
  new_ne, ==_refl, zero, suc, arith, inl, inr, refl, sym, ap, ◌≡◌, ◌∙◌, ℕ, ◌+◌, ◌≤◌, ◌<◌, String,
  String-Eq, ℕ-Eq, Bool, true, false, some, List, [], ◌∷◌, ◌==◌, if◌then◌else◌, includes, length,
  Bool-cases, Distinct, includes-cons, includes-head, includes-tail, some-injective,
}
use kogg.Workflow.Graph.{EditableWorkflowEdge}
use kogg.Workflow.Search.{Outgoing, targets}
use kogg.Workflow.Cycle.{Degrees, degree_of, release, total, peel}
use kogg.Workflow.EdgeChecks.{leads}
use kogg.Workflow.Degrees.{occurrences, edges_between}
use kogg.Workflow.Release.{
  open_in, open_in-take, open_in-zero, Waiting, release-Waiting, release-work,
}
use kogg.Workflow.Sound.{Walk, stay, follow}

add_one : (n : ℕ) → n + 1 ≡ suc n
add_one n = omega arith

peel-step :
    (n : ℕ) (edges : Outgoing) (degree : Degrees) (id : String) (queue : List String) (count : ℕ)
    → peel (suc n) edges degree (id ∷ queue) count
      ≡ peel n edges
          (release (targets edges id) degree queue).0
          (release (targets edges id) degree queue).1
          (suc count)
unfolding peel
peel-step n edges degree id queue count =
    ap
      (λ k.
        peel n edges (release (targets edges id) degree queue).0
          (release (targets edges id) degree queue).1 k)
      (add_one count)

-- With the latest first: every edge into a node comes from one that was taken before it.
abbrev pub Ordered : List EditableWorkflowEdge → List String → Type 0
Ordered es [] = Unit
Ordered es (x ∷ xs) = ((u : String) → leads es u x ≡ true → includes xs u ≡ true) × Ordered es xs

module _ (es : List EditableWorkflowEdge) where
  -- How many nodes were taken up to a node.
  abbrev pub rank : List String → String → ℕ
  rank [] v = 0
  rank (x ∷ xs) v = if x == v then suc (length xs) else rank xs v

  rank-le : (xs : List String) (v : String) → rank xs v ≤ length xs
  rank-le [] v = omega arith
  rank-le (x ∷ xs) v = elim (Bool-cases (x == v)) [
    | inl t ↦ rw t (omega arith)
    | inr f ↦ rw f (omega (arith, rank-le xs v))
  ]

  rank-skip :
      (x v : String) (xs : List String)
      → includes xs x ≡ false
      → includes xs v ≡ true
      → rank (x ∷ xs) v ≡ rank xs v
  rank-skip x v xs out there = rw (new_ne x v xs out there) refl

  -- An edge leads from a node to one that was taken later.
  pub Ordered-rank :
      (xs : List String) (u v : String)
      → Distinct xs
      → Ordered es xs
      → includes xs v ≡ true
      → leads es u v ≡ true
      → (includes xs u ≡ true) × (rank xs u < rank xs v)
  Ordered-rank [] u v d o h l = absurd cc
  Ordered-rank (x ∷ xs) u v d o h l = elim (includes-cons x xs v h) [
    | inl same ↦
        let before = o.0 u (rw same l) in
        (
          includes-tail x xs u before,
          rw (rank-skip x u xs d.0 before, same, ==_refl v) (omega (arith, rank-le xs u)),
        )
    | inr later ↦
        let (before, less) = Ordered-rank xs u v d.1 o.1 later l in
        (
          includes-tail x xs u before,
          rw (rank-skip x u xs d.0 before, rank-skip x v xs d.0 later) less,
        )
  ]

  pub Walk-rank :
      (xs : List String) (u v : String)
      → Distinct xs
      → Ordered es xs
      → ((k j : String) → leads es k j ≡ true → includes xs j ≡ true)
      → Walk es u v
      → rank xs u ≤ rank xs v
  Walk-rank xs s _ d o all_taken stay = omega arith
  Walk-rank xs s v d o all_taken (follow {u} walk edge) = omega (
    arith,
    Walk-rank xs s u d o all_taken walk,
    (Ordered-rank xs u v d o (all_taken u v edge) edge).1,
  )

  -- The nodes that are taken off, and the queue.
  pub record Peeled (known : String → Bool) (degree : Degrees) (queue taken : List String)
      : Type 0 where
    pub waiting : Waiting known taken degree queue
    pub opened : (v : String) → degree_of degree v ≡ open_in es taken v
    pub ordered : Ordered es taken
    pub distinct : Distinct taken
    pub known_taken : (v : String) → includes taken v ≡ true → known v ≡ true

  module _ (known : String → Bool) (edges : Outgoing)
      (targeted : (u v : String) → occurrences (targets edges u) v ≡ edges_between es u v)
      (known_targets : (u v : String) → includes (targets edges u) v ≡ true → known v ≡ true) where
    Waiting-take :
        (degree : Degrees) (id : String) (queue taken : List String)
        → Waiting known taken degree (id ∷ queue)
        → Waiting known (id ∷ taken) degree queue
    Waiting-take degree id queue taken w = record {
      distinct = w.distinct.1;
      apart = λ v h. rw (new_ne id v queue w.distinct.0 h) (w.apart v (includes-tail id queue v h));
      zero_waiting = λ v h. w.zero_waiting v (includes-tail id queue v h);
      zero_taken = λ v h. elim (includes-cons id taken v h) [
        | inl same ↦ w.zero_waiting v (rw same (includes-head v queue))
        | inr before ↦ w.zero_taken v before
      ];
      known_waiting = λ v h. w.known_waiting v (includes-tail id queue v h);
    }

    Peeled-take :
        (degree : Degrees) (id : String) (queue taken : List String)
        → Peeled known degree (id ∷ queue) taken
        → Peeled known
            (release (targets edges id) degree queue).0
            (release (targets edges id) degree queue).1
            (id ∷ taken)
    Peeled-take degree id queue taken p =
        let out = p.waiting.apart id (includes-head id queue) in
        let (left, waiting) =
          release-Waiting known (id ∷ taken) (targets edges id) degree queue
            (λ v. open_in es (id ∷ taken) v)
            (λ v. omega (arith, p.opened v, open_in-take es taken id v out, targeted id v))
            (λ v h. known_targets id v h) (Waiting-take degree id queue taken p.waiting) in
        record {
          waiting = waiting;
          opened = left;
          ordered = (
            λ u l.
                open_in-zero es taken u id
                  (sym (p.opened id) ∙ p.waiting.zero_waiting id (includes-head id queue)) l,
            p.ordered,
          );
          distinct = (out, p.distinct);
          known_taken = λ v h. elim (includes-cons id taken v h) [
            | inl same ↦ p.waiting.known_waiting v (rw same (includes-head v queue))
            | inr before ↦ p.known_taken v before
          ];
        }

    pub peel-Peeled :
        (n : ℕ) (degree : Degrees) (queue taken : List String) (count : ℕ)
        → Peeled known degree queue taken
        → peel n edges degree queue (length taken) ≡ some count
        → (order : List String) × Ordered es order
          × Distinct order
          × ((v : String) → includes order v ≡ true → known v ≡ true)
          × (length order ≡ count)
    unfolding peel
    peel-Peeled n degree [] taken count p h =
        (taken, p.ordered, p.distinct, p.known_taken, some-injective h)
    peel-Peeled zero degree (id ∷ queue) taken count p h = absurd cc
    peel-Peeled (suc n) degree (id ∷ queue) taken count p h =
        peel-Peeled n (release (targets edges id) degree queue).0
          (release (targets edges id) degree queue).1 (id ∷ taken) count
          (Peeled-take degree id queue taken p)
          (sym (peel-step n edges degree id queue (length taken)) ∙ h)

  -- With enough fuel the loop ends.
  pub peel-ends :
      (n : ℕ) (edges : Outgoing) (degree : Degrees) (queue : List String) (count : ℕ)
      → length queue + total degree ≤ n
      → (found : ℕ) × (peel n edges degree queue count ≡ some found)
  unfolding peel
  peel-ends n edges degree [] count h = (count, refl)
  peel-ends zero edges degree (id ∷ queue) count h = absurd (omega arith)
  peel-ends (suc n) edges degree (id ∷ queue) count h =
      peel-ends n edges (release (targets edges id) degree queue).0
        (release (targets edges id) degree queue).1 (count + 1)
        (omega (arith, release-work (targets edges id) degree queue))
