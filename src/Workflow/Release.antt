-- ===== src/Workflow/Release.antt =====
-- One round of the loop of `cycle` in packages/kogg-workflow/src/node/workflow-compiler.ts.
use kogg.Prelude.{
  includes-head, nat_eq_iff, length-append, includes-tail, &&-eq-true, ==_flip, ==_refl, ==_sound,
  arith, inl, inr, refl, ap, ◌≡◌, ℕ, ◌+◌, ◌-◌, ◌≤◌, String, String-Eq, ℕ-Eq, Bool, true, false, not,
  ◌&&◌, List, [], ◌∷◌, ◌++◌, ◌==◌, if◌then◌else◌, includes, length, filter, Bool-cases, Distinct,
  Distinct-snoc, includes-append, includes-cons,
}
use kogg.Workflow.Graph.{EditableWorkflowEdge}
use kogg.Workflow.Maps.{set, get-set}
use kogg.Workflow.Cycle.{Degrees, degree_of, release, total}
use kogg.Workflow.EdgeChecks.{in_degree, leads}
use kogg.Workflow.Degrees.{occurrences, edges_between, total-set}

-- How many edges lead to a node from nodes that are not taken off yet.
abbrev pub open_in : List EditableWorkflowEdge → List String → String → ℕ
open_in es taken v = length (
    filter
      (λ (e : EditableWorkflowEdge). e.target_node_id == v && not (includes taken e.source_node_id))
      es)

pub open_in-start : (es : List EditableWorkflowEdge) (v : String) → open_in es [] v ≡ in_degree es v
open_in-start [] v = refl
open_in-start (e ∷ es) v = elim (Bool-cases (e.target_node_id == v)) [
  | inl t ↦ rw t (omega (arith, open_in-start es v))
  | inr f ↦ rw f (open_in-start es v)
]

pub open_in-take :
    (es : List EditableWorkflowEdge) (taken : List String) (id v : String)
    → includes taken id ≡ false
    → open_in es taken v ≡ open_in es (id ∷ taken) v + edges_between es id v
open_in-take [] taken id v h = omega arith
open_in-take (e ∷ es) taken id v h = elim (Bool-cases (e.source_node_id == id)) [
  | inl same ↦
      rw (==_sound e.source_node_id id same, h, ==_refl id)
        (elim (Bool-cases (e.target_node_id == v)) [
          | inl t ↦ rw t (omega (arith, open_in-take es taken id v h))
          | inr f ↦ rw f (open_in-take es taken id v h)
        ])
  | inr other ↦
      rw (other, ==_flip e.source_node_id id other)
        (elim (Bool-cases (e.target_node_id == v && not (includes taken e.source_node_id))) [
          | inl t ↦ rw t (omega (arith, open_in-take es taken id v h))
          | inr f ↦ rw f (open_in-take es taken id v h)
        ])
]

pub open_in-zero :
    (es : List EditableWorkflowEdge) (taken : List String) (u v : String)
    → open_in es taken v ≡ 0
    → leads es u v ≡ true
    → includes taken u ≡ true
open_in-zero [] taken u v h l = absurd cc
open_in-zero (e ∷ es) taken u v h l =
    elim (Bool-cases (e.source_node_id == u && e.target_node_id == v)) [
      | inl t ↦
          let (from_u, to_v) = &&-eq-true (e.source_node_id == u) (e.target_node_id == v) t in
          elim (Bool-cases (includes taken u)) [
            | inl there ↦ there
            | inr out ↦
                absurd (omega (arith, (rw (to_v, ==_sound e.source_node_id u from_u, out) at h)))
          ]
      | inr f ↦
          open_in-zero es taken u v
            (elim (Bool-cases (e.target_node_id == v && not (includes taken e.source_node_id))) [
              | inl t ↦ absurd (omega (arith, (rw t at h)))
              | inr other ↦ rw other at h
            ])
            (rw f at l)
    ]

-- The queue while some nodes are taken off.
pub record Waiting (known : String → Bool) (taken : List String) (degree : Degrees)
    (queue : List String) : Type 0 where
  pub distinct : Distinct queue
  pub apart : (v : String) → includes queue v ≡ true → includes taken v ≡ false
  pub zero_waiting : (v : String) → includes queue v ≡ true → degree_of degree v ≡ 0
  pub zero_taken : (v : String) → includes taken v ≡ true → degree_of degree v ≡ 0
  pub known_waiting : (v : String) → includes queue v ≡ true → known v ≡ true

on_snoc :
    (P : String → Type 0) (xs : List String) (a : String)
    → P a
    → ((v : String) → includes xs v ≡ true → P v)
    → (v : String) → includes (xs ++ a ∷ []) v ≡ true
    → P v
on_snoc P xs a at_a before v h = elim (includes-append xs (a ∷ []) v h) [
  | inl there ↦ before v there
  | inr last ↦ elim (includes-cons a [] v last) [
    | inl same ↦ rw (← same) at_a
    | inr empty ↦ absurd cc
  ]
]

release-last :
    (ts : List String) (t : String) (degree : Degrees) (queue : List String)
    → (degree_of degree t == 1) ≡ true
    → release (t ∷ ts) degree queue
      ≡ release ts (set t (degree_of degree t - 1) degree) (queue ++ t ∷ [])
unfolding release
release-last ts t degree queue h =
    ap
      (λ b.
        release ts (set t (degree_of degree t - 1) degree) (if b then queue ++ t ∷ [] else queue))
      h

release-further :
    (ts : List String) (t : String) (degree : Degrees) (queue : List String)
    → (degree_of degree t == 1) ≡ false
    → release (t ∷ ts) degree queue ≡ release ts (set t (degree_of degree t - 1) degree) queue
unfolding release
release-further ts t degree queue h =
    ap
      (λ b.
        release ts (set t (degree_of degree t - 1) degree) (if b then queue ++ t ∷ [] else queue))
      h

module _ (known : String → Bool) (taken : List String) where
  lowered :
      (degree : Degrees) (t v : String)
      → degree_of (set t (degree_of degree t - 1) degree) v
        ≡ (if t == v then degree_of degree v - 1 else degree_of degree v)
  lowered degree t v = elim (Bool-cases (t == v)) [
    | inl same ↦ rw (get-set v t (degree_of degree t - 1) degree, same, ==_sound t v same) refl
    | inr other ↦ rw (get-set v t (degree_of degree t - 1) degree, other) refl
  ]

  still_zero :
      (degree : Degrees) (t v : String)
      → degree_of degree v ≡ 0
      → degree_of (set t (degree_of degree t - 1) degree) v ≡ 0
  still_zero degree t v h = rw (lowered degree t v, h) (if-same (t == v))
    where
      if-same : (b : Bool) → (if b then 0 - 1 else 0) ≡ 0
      if-same true = refl
      if-same false = refl

  Waiting-lower :
      (degree : Degrees) (queue : List String) (t : String)
      → Waiting known taken degree queue
      → Waiting known taken (set t (degree_of degree t - 1) degree) queue
  Waiting-lower degree queue t w = record {
    distinct = w.distinct;
    apart = w.apart;
    zero_waiting = λ v h. still_zero degree t v (w.zero_waiting v h);
    zero_taken = λ v h. still_zero degree t v (w.zero_taken v h);
    known_waiting = w.known_waiting;
  }

  -- A node whose last edge is gone.
  Waiting-push :
      (degree : Degrees) (queue : List String) (t : String)
      → degree_of degree t ≡ 1
      → known t ≡ true
      → Waiting known taken degree queue
      → Waiting known taken (set t (degree_of degree t - 1) degree) (queue ++ t ∷ [])
  Waiting-push degree queue t one is_known w =
      let gone : degree_of (set t (degree_of degree t - 1) degree) t ≡ 0 =
        rw (lowered degree t t, ==_refl t, one) refl in
      let new : includes queue t ≡ false = elim (Bool-cases (includes queue t)) [
        | inl there ↦ absurd (omega (arith, one, w.zero_waiting t there))
        | inr f ↦ f
      ] in
      let out : includes taken t ≡ false = elim (Bool-cases (includes taken t)) [
        | inl there ↦ absurd (omega (arith, one, w.zero_taken t there))
        | inr f ↦ f
      ] in
      record {
        distinct = Distinct-snoc queue t w.distinct new;
        apart = λ v h. on_snoc (λ v. includes taken v ≡ false) queue t out w.apart v h;
        zero_waiting = λ v h.
            on_snoc (λ v. degree_of (set t (degree_of degree t - 1) degree) v ≡ 0) queue t gone
              (λ v' h'. still_zero degree t v' (w.zero_waiting v' h')) v h;
        zero_taken = λ v h. still_zero degree t v (w.zero_taken v h);
        known_waiting = λ v h. on_snoc (λ v. known v ≡ true) queue t is_known w.known_waiting v h;
      }

  pub release-Waiting :
      (ts : List String) (degree : Degrees) (queue : List String) (left : String → ℕ)
      → ((v : String) → degree_of degree v ≡ left v + occurrences ts v)
      → ((v : String) → includes ts v ≡ true → known v ≡ true)
      → Waiting known taken degree queue
      → ((v : String) → degree_of (release ts degree queue).0 v ≡ left v)
        × Waiting known taken (release ts degree queue).0 (release ts degree queue).1
  unfolding release
  release-Waiting [] degree queue left even is_known w = (λ v. omega (arith, even v), w)
  release-Waiting (t ∷ ts) degree queue left even is_known w =
      let lower : (v : String)
          → degree_of (set t (degree_of degree t - 1) degree) v ≡ left v + occurrences ts v =
        λ v. elim (Bool-cases (t == v)) [
          | inl same ↦ rw (lowered degree t v, same) (omega (arith, (rw same at (even v))))
          | inr other ↦ rw (lowered degree t v, other) (rw other at (even v))
        ] in
      let later : (v : String) → includes ts v ≡ true → known v ≡ true =
        λ v h. is_known v (includes-tail t ts v h) in
      elim (Bool-cases (degree_of degree t == 1)) [
        | inl one ↦ rw (release-last ts t degree queue one) (
            release-Waiting ts (set t (degree_of degree t - 1) degree) (queue ++ t ∷ []) left lower
              later
              (Waiting-push degree queue t ((nat_eq_iff (degree_of degree t) 1).0 one)
                (is_known t (includes-head t ts)) w))
        | inr more ↦ rw (release-further ts t degree queue more) (
            release-Waiting ts (set t (degree_of degree t - 1) degree) queue left lower later
              (Waiting-lower degree queue t w))
      ]

-- A round takes no more than it puts on the queue.
pub release-work :
    (ts : List String) (degree : Degrees) (queue : List String)
    → length (release ts degree queue).1 + total (release ts degree queue).0
      ≤ length queue + total degree
unfolding release
release-work [] degree queue = omega arith
release-work (t ∷ ts) degree queue =
    let set_total = total-set t (degree_of degree t - 1) degree in
    elim (Bool-cases (degree_of degree t == 1)) [
      | inl one ↦ rw (release-last ts t degree queue one) (
          omega (
            arith,
            release-work ts (set t (degree_of degree t - 1) degree) (queue ++ t ∷ []),
            length-append queue (t ∷ []),
            set_total,
            (nat_eq_iff (degree_of degree t) 1).0 one,
          ))
      | inr more ↦
          rw (release-further ts t degree queue more) (
            omega (arith, release-work ts (set t (degree_of degree t - 1) degree) queue, set_total))
    ]
