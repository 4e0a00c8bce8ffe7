-- ===== src/Workflow/NodeChecks.antt =====
-- What the loop over the nodes in `check` of packages/kogg-workflow/src/node/workflow-compiler.ts
-- leaves: the facts it has checked of every node, and the empty wiring.
use kogg.Prelude.{
  includes-cons, ◌&&◌, inl, inr, refl, ◌≡◌, ◌⊎◌, String, String-Eq, true, false, some, List, [],
  ◌∷◌, ◌==◌, map, includes, all, is_some, All, Bool-cases,
}
use kogg.Workflow.Kinds.{EditableNodeKind, EditableNodeKind-Eq}
use kogg.Workflow.Effects.{WorkflowAuthorityEffect, WorkflowAuthorityEffect-Eq}
use kogg.Workflow.Graph.{EditableWorkflowNode}
use kogg.Workflow.Catalog.{
  Executors, entry, entries, catalog_entry, catalog_kinds, definition_kinds, sort_kinds,
  insert_kind, kind_text, definition_of,
}
use kogg.Workflow.Maps.{get, set, get-set, get-set_same, set-keeps}
use kogg.Workflow.Search.{targets}
use kogg.Workflow.Cycle.{degree_of}
use kogg.Workflow.Compiler.{Wiring, check_node, check_nodes, exceeds_deadline, is_read_only_target}
use kogg.Workflow.Checked.{
  ◌>>=◌, passed, >>=-passed, passed-injective, require-passed, reject_if-passed,
}

abbrev pub ids : List EditableWorkflowNode → List String
ids ns = map (λ (n : EditableWorkflowNode). n.node_id) ns

-- The catalog is closed: it has an entry for every kind, with that kind's definition.
pub entry-total :
    (executors : Executors) (kind : EditableNodeKind)
    → entry executors kind ≡ some (catalog_entry executors kind)
unfolding entry entries catalog_entry catalog_kinds definition_kinds sort_kinds insert_kind
    kind_text
entry-total executors EditableNodeKind.research_agent = refl
entry-total executors EditableNodeKind.pseudocode_agent = refl
entry-total executors EditableNodeKind.probe_agent = refl
entry-total executors EditableNodeKind.implementation_agent = refl
entry-total executors EditableNodeKind.tool_git = refl
entry-total executors EditableNodeKind.tool_build = refl
entry-total executors EditableNodeKind.check_deterministic = refl
entry-total executors EditableNodeKind.approval_specification = refl
entry-total executors EditableNodeKind.approval_continue = refl
entry-total executors EditableNodeKind.control_condition = refl
entry-total executors EditableNodeKind.control_parallel = refl
entry-total executors EditableNodeKind.control_join = refl
entry-total executors EditableNodeKind.control_group = refl
entry-total executors EditableNodeKind.control_finally = refl

-- Every effect that a node asks for is within its kind's ceiling and its deadline within its kind's,
-- and a node whose target is read only does not ask to change the repository.
abbrev pub IsWithinCeiling : EditableWorkflowNode → Type 0
IsWithinCeiling n =
    (all (includes (definition_of n.kind).grant_ceiling) n.requested_effects ≡ true)
    × (exceeds_deadline (definition_of n.kind).absolute_deadline_ms n.configuration ≡ false)
    × ((is_read_only_target n.configuration
          && includes n.requested_effects WorkflowAuthorityEffect.mutate_private_repository)
        ≡ false)

pub check_node-IsWithinCeiling :
    (executors : Executors) (n : EditableWorkflowNode) (u : Unit {0})
    → check_node executors n ≡ passed u
    → IsWithinCeiling n
unfolding check_node catalog_entry ◌>>=◌
check_node-IsWithinCeiling executors n u h =
    let (effects, a) = require-passed _ _ _ u (rw (entry-total executors n.kind) at h) in
    let (_, b) = reject_if-passed _ _ _ u a in
    let (deadline, c) = reject_if-passed _ _ _ u b in
    let (target, _) = reject_if-passed _ _ _ u c in (effects, deadline, target)

-- The wiring before the first edge.
pub record Blank (w : Wiring) : Type 0 where
  pub unused : w.edge_ids ≡ []
  pub degrees : (k : String) → degree_of w.incoming k ≡ 0
  pub empty : (k : String) → targets w.outgoing k ≡ []

abbrev with_node : EditableWorkflowNode → Wiring → Wiring
with_node n w = record w {
  incoming = set n.node_id 0 w.incoming;
  outgoing = set n.node_id [] w.outgoing;
}

with_node-Blank : (n : EditableWorkflowNode) (w : Wiring) → Blank w → Blank (with_node n w)
with_node-Blank n w b = record {
  unused = b.unused;
  degrees = λ k. elim (Bool-cases (n.node_id == k)) [
    | inl t ↦ rw (get-set k n.node_id 0 w.incoming, t) refl
    | inr f ↦ rw (get-set k n.node_id 0 w.incoming, f) (b.degrees k)
  ];
  empty = λ k. elim (Bool-cases (n.node_id == k)) [
    | inl t ↦ rw (get-set k n.node_id [] w.outgoing, t) refl
    | inr f ↦ rw (get-set k n.node_id [] w.outgoing, f) (b.empty k)
  ];
}

module _ (executors : Executors) where
  pub check_nodes-Blank :
      (ns : List EditableWorkflowNode) (w w' : Wiring)
      → Blank w
      → check_nodes executors ns w ≡ passed w'
      → All IsWithinCeiling ns × Blank w'
  unfolding check_nodes
  check_nodes-Blank [] w w' b h = (tt, rw (← passed-injective h) b)
  check_nodes-Blank (n ∷ ns) w w' b h =
      let (u, first, rest) = >>=-passed (check_node executors n) _ w' h in
      let (all_of, blank) = check_nodes-Blank ns (with_node n w) w' (with_node-Blank n w b) rest in
      ((check_node-IsWithinCeiling executors n u first, all_of), blank)

  -- Every node has its key.
  pub check_nodes-keys :
      (ns : List EditableWorkflowNode) (w w' : Wiring) (k : String)
      → check_nodes executors ns w ≡ passed w'
      → (includes (ids ns) k ≡ true) ⊎ (is_some (get k w.outgoing) ≡ true)
      → is_some (get k w'.outgoing) ≡ true
  unfolding check_nodes
  check_nodes-keys [] w w' k h (inl m) = absurd cc
  check_nodes-keys [] w w' k h (inr m) = rw (← passed-injective h) m
  check_nodes-keys (n ∷ ns) w w' k h (inr m) =
      let (u, first, rest) = >>=-passed (check_node executors n) _ w' h in
      check_nodes-keys ns (with_node n w) w' k rest (inr (set-keeps k n.node_id [] w.outgoing m))
  check_nodes-keys (n ∷ ns) w w' k h (inl m) =
      let (u, first, rest) = >>=-passed (check_node executors n) _ w' h in
      elim (includes-cons n.node_id (ids ns) k m) [
        | inl same ↦
            check_nodes-keys ns (with_node n w) w' k rest
              (inr (rw (same, get-set_same k [] w.outgoing) refl))
        | inr later ↦ check_nodes-keys ns (with_node n w) w' k rest (inl later)
      ]
