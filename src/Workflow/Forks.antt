-- ===== src/Workflow/Forks.antt =====
-- What `validateForkJoins` of packages/kogg-workflow/src/node/workflow-compiler.ts makes sure of.
use mathlib.Core.List.{append-nil, append_assoc}
use kogg.Prelude.{
  ltb_refuted, &&-right-false, ||-eq-false, includes-cons, arith, inl, inr, refl, sym, ap, ◌≡◌, ◌∙◌,
  ◌≤◌, String, String-Eq, ℕ-Eq, true, false, ◌||◌, List, [], ◌∷◌, ◌++◌, ◌==◌, includes, length,
  filter, All, All-filter_of, all-All, Distinct, Distinct-snoc, Distinct-full, nat_eq_iff, ltb,
}
use kogg.Workflow.Kinds.{EditableNodeKind, EditableNodeKind-Eq}
use kogg.Workflow.Graph.{EditableWorkflowNode, EditableWorkflowEdge, EditableWorkflowGraph}
use kogg.Workflow.Catalog.{Executors}
use kogg.Workflow.Search.{Outgoing}
use kogg.Workflow.Check.{
  repeats_port, is_invalid_condition, is_invalid_parallel, Counts, check, is_fork, branch_edges,
  is_invalid_fork, joins, candidates, nearest, only, match_fork, match_forks, validate_fork_joins,
}
use kogg.Workflow.Checked.{
  require-holds, passed, >>=-passed, passed-injective, reject_if-passed, present-passed,
}
use kogg.Workflow.NodeChecks.{ids}
use kogg.Workflow.Reaches.{reachable-Reaches}
use kogg.Workflow.Passed.{Passed, check-Passed}
use kogg.Workflow.Sound.{Walk, ids-known, length-ids, only-eq-some, Reaches-Walk}

abbrev pub forks : EditableWorkflowGraph → List EditableWorkflowNode
forks g = filter (is_fork g) g.nodes

-- The join of a fork: walks lead to it from every branch.
pub record IsJoinOf (g : EditableWorkflowGraph) (fork : EditableWorkflowNode) (join : String)
    : Type 0 where
  pub is_join : includes (ids (joins g)) join ≡ true
  pub gathered :
      All (λ (e : EditableWorkflowEdge). Walk g.edges e.target_node_id join) (branch_edges g fork)
  pub wide :
      fork.kind ≡ EditableNodeKind.control_parallel
      → (2 ≤ length (branch_edges g fork)) × (length (branch_edges g fork) ≤ 8)

-- One join for each fork, in the same order.
abbrev pub Joined : EditableWorkflowGraph → List EditableWorkflowNode → List String → Type 0
Joined g [] [] = Unit
Joined g [] (j ∷ js) = ⊥
Joined g (f ∷ fs) [] = ⊥
Joined g (f ∷ fs) (j ∷ js) = IsJoinOf g f j × Joined g fs js

-- A parallel node has two to eight branches.
is_invalid_fork-wide :
    (g : EditableWorkflowGraph) (fork : EditableWorkflowNode)
    → is_invalid_fork g fork ≡ false
    → fork.kind ≡ EditableNodeKind.control_parallel
    → (2 ≤ length (branch_edges g fork)) × (length (branch_edges g fork) ≤ 8)
unfolding is_invalid_fork is_invalid_parallel
is_invalid_fork-wide g fork h parallel =
    let count = length (branch_edges g fork) in
    let (_, rest) =
      ||-eq-false (is_invalid_condition g fork) (is_invalid_parallel g fork || repeats_port g fork)
        h in
    let (ends, _) = ||-eq-false (is_invalid_parallel g fork) (repeats_port g fork) rest in
    let (narrow, broad) = ||-eq-false (ltb count 2) (ltb 8 count) (
      &&-right-false (fork.kind == EditableNodeKind.control_parallel) (ltb count 2 || ltb 8 count)
        ((EditableNodeKind-Eq.beq_iff fork.kind EditableNodeKind.control_parallel).1 parallel)
        ends) in
    (ltb_refuted count 2 narrow, ltb_refuted 8 count broad)

-- A join that every branch walks to.
abbrev IsCandidate : EditableWorkflowGraph → EditableWorkflowNode → EditableWorkflowNode → Type 0
IsCandidate g fork j =
    (includes (ids (joins g)) j.node_id ≡ true)
    × All (λ (e : EditableWorkflowEdge). Walk g.edges e.target_node_id j.node_id)
        (branch_edges g fork)

nearest-All :
    (P : EditableWorkflowNode → Type 0) (out : Outgoing) (ns : List EditableWorkflowNode)
    → All P ns
    → All P (nearest out ns)
unfolding nearest
nearest-All P out ns h = All-filter_of P P _ ns (λ j k _. k) h

module _ (executors : Executors) (g : EditableWorkflowGraph) (p : Passed executors g) where
  candidates-All :
      (fork : EditableWorkflowNode) → All (IsCandidate g fork) (candidates g p.wiring.outgoing fork)
  unfolding candidates
  candidates-All fork =
      All-filter_of _ (IsCandidate g fork) _ (joins g)
        (λ j known reached. (
          known,
          all-All _ _ (branch_edges g fork)
              (λ (e : EditableWorkflowEdge) r.
                Reaches-Walk executors g p e.target_node_id j.node_id
                  ((reachable-Reaches p.wiring.outgoing e.target_node_id j.node_id).0 r))
              reached,
        ))
        (ids-known (joins g))

  match_fork-IsJoinOf :
      (fork : EditableWorkflowNode) (matched later : List String)
      → match_fork g p.wiring.outgoing fork matched ≡ passed later
      → (join : String) × IsJoinOf g fork join
        × (includes matched join ≡ false)
        × (later ≡ matched ++ join ∷ [])
  unfolding match_fork
  match_fork-IsJoinOf fork matched later h =
      let (valid, a) = reject_if-passed (is_invalid_fork g fork) _ _ later h in
      let (join, found, b) =
        present-passed _ (only (nearest p.wiring.outgoing (candidates g p.wiring.outgoing fork))) _
          later a in
      let (new, c) = reject_if-passed (includes matched join.node_id) _ _ later b in
      let facts =
        nearest-All (IsCandidate g fork) p.wiring.outgoing (candidates g p.wiring.outgoing fork)
          (candidates-All fork) in
      let (known, gathered) =
        (rw
          (only-eq-some (nearest p.wiring.outgoing (candidates g p.wiring.outgoing fork)) join
            found)
          at facts).0 in
      (
        join.node_id,
        record { is_join = known; gathered = gathered; wide = is_invalid_fork-wide g fork valid },
        new,
        sym (passed-injective c) ∙ rw new refl,
      )

  match_forks-Joined :
      (fs : List EditableWorkflowNode) (matched last : List String)
      → Distinct matched
      → match_forks g p.wiring.outgoing fs matched ≡ passed last
      → (js : List String) × (last ≡ matched ++ js) × Joined g fs js × Distinct last
  unfolding match_forks
  match_forks-Joined [] matched last d h =
      ([], sym (passed-injective h) ∙ sym (append-nil matched), tt, rw (← passed-injective h) d)
  match_forks-Joined (f ∷ fs) matched last d h =
      let (next, first, rest) =
        >>=-passed (match_fork g p.wiring.outgoing f matched) (match_forks g p.wiring.outgoing fs)
          last h in
      let (join, is_join, new, e) = match_fork-IsJoinOf f matched next first in
      let (js, e', joined, d') =
        match_forks-Joined fs next last (rw e (Distinct-snoc matched join d new)) rest in
      (join ∷ js, e' ∙ rw e (append_assoc matched (join ∷ []) js), (is_join, joined), d')

-- What the forks of a graph come to.
pub record IsForked (g : EditableWorkflowGraph) : Type 0 where
  pub matched : List String
  pub distinct : Distinct matched
  pub joined : Joined g (forks g) matched
  pub exhausted : (k : String) → includes (ids (joins g)) k ≡ true → includes matched k ≡ true

Joined-known :
    (g : EditableWorkflowGraph) (fs : List EditableWorkflowNode) (js : List String) (k : String)
    → Joined g fs js
    → includes js k ≡ true
    → includes (ids (joins g)) k ≡ true
Joined-known g [] [] k j h = absurd cc
Joined-known g [] (x ∷ js) k j h = absurd j
Joined-known g (f ∷ fs) [] k j h = absurd j
Joined-known g (f ∷ fs) (x ∷ js) k j h = elim (includes-cons x js k h) [
  | inl same ↦ rw (← same) j.0.is_join
  | inr later ↦ Joined-known g fs js k j.1 later
]

-- In a graph that passes the checks every fork has a join of its own, which walks lead to from each of
-- its branches, and every join is that of a fork; a parallel fork has two to eight branches.
pub check-IsForked :
    (executors : Executors) (g : EditableWorkflowGraph) (c : Counts)
    → check executors g ≡ passed c
    → IsForked g
unfolding validate_fork_joins
check-IsForked executors g c h =
    let p = check-Passed executors g c h in
    let (u, ok) = p.forks in
    let (last, first, rest) = >>=-passed (match_forks g p.wiring.outgoing (forks g) []) _ u ok in
    let (js, e, joined, d) = match_forks-Joined executors g p (forks g) [] last tt first in
    let size = require-holds (length last == length (joins g)) _ u rest in
    let distinct : Distinct js = rw e at d in
    record {
      matched = js;
      distinct = distinct;
      joined = joined;
      exhausted = λ k.
          Distinct-full js (ids (joins g)) distinct (λ v. Joined-known g (forks g) js v joined)
            (omega (
              arith,
              length-ids (joins g),
              ap length e,
              (nat_eq_iff (length last) (length (joins g))).0 size,
            ))
            k;
    }
