-- ===== src/Workflow/Kinds.antt =====
-- The kinds of a node: packages/kogg-workflow/src/common/workflow-protocol.ts.
use kogg.Prelude.{ℕ, zero, suc, ◌≡◌, refl, ◌↔◌, true, nat_eq, Eq, ordinal_iff}

pub data EditableNodeKind : Type 0 where
  research_agent pseudocode_agent probe_agent implementation_agent : EditableNodeKind
  tool_git tool_build check_deterministic approval_specification : EditableNodeKind
  approval_continue control_condition control_parallel control_join : EditableNodeKind
  control_group control_finally : EditableNodeKind

abbrev pub editable_node_kind_ordinal : EditableNodeKind → ℕ
editable_node_kind_ordinal EditableNodeKind.research_agent = 0
editable_node_kind_ordinal EditableNodeKind.pseudocode_agent = 1
editable_node_kind_ordinal EditableNodeKind.probe_agent = 2
editable_node_kind_ordinal EditableNodeKind.implementation_agent = 3
editable_node_kind_ordinal EditableNodeKind.tool_git = 4
editable_node_kind_ordinal EditableNodeKind.tool_build = 5
editable_node_kind_ordinal EditableNodeKind.check_deterministic = 6
editable_node_kind_ordinal EditableNodeKind.approval_specification = 7
editable_node_kind_ordinal EditableNodeKind.approval_continue = 8
editable_node_kind_ordinal EditableNodeKind.control_condition = 9
editable_node_kind_ordinal EditableNodeKind.control_parallel = 10
editable_node_kind_ordinal EditableNodeKind.control_join = 11
editable_node_kind_ordinal EditableNodeKind.control_group = 12
editable_node_kind_ordinal EditableNodeKind.control_finally = 13

abbrev editable_node_kind_of_ordinal : ℕ → EditableNodeKind
editable_node_kind_of_ordinal zero = EditableNodeKind.research_agent
editable_node_kind_of_ordinal (suc zero) = EditableNodeKind.pseudocode_agent
editable_node_kind_of_ordinal (suc (suc zero)) = EditableNodeKind.probe_agent
editable_node_kind_of_ordinal (suc (suc (suc zero))) = EditableNodeKind.implementation_agent
editable_node_kind_of_ordinal (suc (suc (suc (suc zero)))) = EditableNodeKind.tool_git
editable_node_kind_of_ordinal (suc (suc (suc (suc (suc zero))))) = EditableNodeKind.tool_build
editable_node_kind_of_ordinal (suc (suc (suc (suc (suc (suc zero)))))) =
    EditableNodeKind.check_deterministic
editable_node_kind_of_ordinal (suc (suc (suc (suc (suc (suc (suc zero))))))) =
    EditableNodeKind.approval_specification
editable_node_kind_of_ordinal (suc (suc (suc (suc (suc (suc (suc (suc zero)))))))) =
    EditableNodeKind.approval_continue
editable_node_kind_of_ordinal (suc (suc (suc (suc (suc (suc (suc (suc (suc zero))))))))) =
    EditableNodeKind.control_condition
editable_node_kind_of_ordinal (suc (suc (suc (suc (suc (suc (suc (suc (suc (suc zero)))))))))) =
    EditableNodeKind.control_parallel
editable_node_kind_of_ordinal
      (suc (suc (suc (suc (suc (suc (suc (suc (suc (suc (suc zero))))))))))) =
    EditableNodeKind.control_join
editable_node_kind_of_ordinal
      (suc (suc (suc (suc (suc (suc (suc (suc (suc (suc (suc (suc zero)))))))))))) =
    EditableNodeKind.control_group
editable_node_kind_of_ordinal _ = EditableNodeKind.control_finally

editable_node_kind_decode :
    (x : EditableNodeKind) → editable_node_kind_of_ordinal (editable_node_kind_ordinal x) ≡ x
editable_node_kind_decode EditableNodeKind.research_agent = refl
editable_node_kind_decode EditableNodeKind.pseudocode_agent = refl
editable_node_kind_decode EditableNodeKind.probe_agent = refl
editable_node_kind_decode EditableNodeKind.implementation_agent = refl
editable_node_kind_decode EditableNodeKind.tool_git = refl
editable_node_kind_decode EditableNodeKind.tool_build = refl
editable_node_kind_decode EditableNodeKind.check_deterministic = refl
editable_node_kind_decode EditableNodeKind.approval_specification = refl
editable_node_kind_decode EditableNodeKind.approval_continue = refl
editable_node_kind_decode EditableNodeKind.control_condition = refl
editable_node_kind_decode EditableNodeKind.control_parallel = refl
editable_node_kind_decode EditableNodeKind.control_join = refl
editable_node_kind_decode EditableNodeKind.control_group = refl
editable_node_kind_decode EditableNodeKind.control_finally = refl

pub EditableNodeKind-beq_iff :
    (x y : EditableNodeKind)
    → (nat_eq (editable_node_kind_ordinal x) (editable_node_kind_ordinal y) ≡ true) ↔ (x ≡ y)
EditableNodeKind-beq_iff =
    ordinal_iff editable_node_kind_ordinal editable_node_kind_of_ordinal editable_node_kind_decode

instance abbrev pub EditableNodeKind-Eq : Eq EditableNodeKind
EditableNodeKind-Eq = record {
  beq = λ x y. nat_eq (editable_node_kind_ordinal x) (editable_node_kind_ordinal y);
  beq_iff = EditableNodeKind-beq_iff;
}
