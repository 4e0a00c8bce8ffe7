-- ===== src/Workflow/Effects.antt =====
-- The effects that a node may ask for, and the outcomes that its edges leave by:
-- packages/kogg-workflow/src/common/workflow-protocol.ts.
use kogg.Prelude.{ℕ, zero, suc, ◌≡◌, refl, ◌↔◌, true, nat_eq, Eq, ordinal_iff}

-- In the order that `sort` puts them in.
pub data WorkflowAuthorityEffect : Type 0 where
  invoke_provider mutate_private_repository read_repository : WorkflowAuthorityEffect
  record_approval record_check run_tool : WorkflowAuthorityEffect

abbrev pub workflow_authority_effect_ordinal : WorkflowAuthorityEffect → ℕ
workflow_authority_effect_ordinal WorkflowAuthorityEffect.invoke_provider = 0
workflow_authority_effect_ordinal WorkflowAuthorityEffect.mutate_private_repository = 1
workflow_authority_effect_ordinal WorkflowAuthorityEffect.read_repository = 2
workflow_authority_effect_ordinal WorkflowAuthorityEffect.record_approval = 3
workflow_authority_effect_ordinal WorkflowAuthorityEffect.record_check = 4
workflow_authority_effect_ordinal WorkflowAuthorityEffect.run_tool = 5

abbrev workflow_authority_effect_of_ordinal : ℕ → WorkflowAuthorityEffect
workflow_authority_effect_of_ordinal zero = WorkflowAuthorityEffect.invoke_provider
workflow_authority_effect_of_ordinal (suc zero) = WorkflowAuthorityEffect.mutate_private_repository
workflow_authority_effect_of_ordinal (suc (suc zero)) = WorkflowAuthorityEffect.read_repository
workflow_authority_effect_of_ordinal (suc (suc (suc zero))) =
    WorkflowAuthorityEffect.record_approval
workflow_authority_effect_of_ordinal (suc (suc (suc (suc zero)))) =
    WorkflowAuthorityEffect.record_check
workflow_authority_effect_of_ordinal _ = WorkflowAuthorityEffect.run_tool

workflow_authority_effect_decode :
    (x : WorkflowAuthorityEffect)
    → workflow_authority_effect_of_ordinal (workflow_authority_effect_ordinal x) ≡ x
workflow_authority_effect_decode WorkflowAuthorityEffect.invoke_provider = refl
workflow_authority_effect_decode WorkflowAuthorityEffect.mutate_private_repository = refl
workflow_authority_effect_decode WorkflowAuthorityEffect.read_repository = refl
workflow_authority_effect_decode WorkflowAuthorityEffect.record_approval = refl
workflow_authority_effect_decode WorkflowAuthorityEffect.record_check = refl
workflow_authority_effect_decode WorkflowAuthorityEffect.run_tool = refl

pub WorkflowAuthorityEffect-beq_iff :
    (x y : WorkflowAuthorityEffect)
    → (nat_eq (workflow_authority_effect_ordinal x) (workflow_authority_effect_ordinal y) ≡ true)
      ↔ (x ≡ y)
WorkflowAuthorityEffect-beq_iff =
    ordinal_iff workflow_authority_effect_ordinal workflow_authority_effect_of_ordinal
      workflow_authority_effect_decode

instance abbrev pub WorkflowAuthorityEffect-Eq : Eq WorkflowAuthorityEffect
WorkflowAuthorityEffect-Eq = record {
  beq = λ x y. nat_eq (workflow_authority_effect_ordinal x) (workflow_authority_effect_ordinal y);
  beq_iff = WorkflowAuthorityEffect-beq_iff;
}

pub data EdgeOutcome : Type 0 where
  success failure finally on_true on_false : EdgeOutcome

abbrev pub edge_outcome_ordinal : EdgeOutcome → ℕ
edge_outcome_ordinal EdgeOutcome.success = 0
edge_outcome_ordinal EdgeOutcome.failure = 1
edge_outcome_ordinal EdgeOutcome.finally = 2
edge_outcome_ordinal EdgeOutcome.on_true = 3
edge_outcome_ordinal EdgeOutcome.on_false = 4

abbrev edge_outcome_of_ordinal : ℕ → EdgeOutcome
edge_outcome_of_ordinal zero = EdgeOutcome.success
edge_outcome_of_ordinal (suc zero) = EdgeOutcome.failure
edge_outcome_of_ordinal (suc (suc zero)) = EdgeOutcome.finally
edge_outcome_of_ordinal (suc (suc (suc zero))) = EdgeOutcome.on_true
edge_outcome_of_ordinal _ = EdgeOutcome.on_false

edge_outcome_decode : (x : EdgeOutcome) → edge_outcome_of_ordinal (edge_outcome_ordinal x) ≡ x
edge_outcome_decode EdgeOutcome.success = refl
edge_outcome_decode EdgeOutcome.failure = refl
edge_outcome_decode EdgeOutcome.finally = refl
edge_outcome_decode EdgeOutcome.on_true = refl
edge_outcome_decode EdgeOutcome.on_false = refl

pub EdgeOutcome-beq_iff :
    (x y : EdgeOutcome)
    → (nat_eq (edge_outcome_ordinal x) (edge_outcome_ordinal y) ≡ true) ↔ (x ≡ y)
EdgeOutcome-beq_iff = ordinal_iff edge_outcome_ordinal edge_outcome_of_ordinal edge_outcome_decode

instance abbrev pub EdgeOutcome-Eq : Eq EdgeOutcome
EdgeOutcome-Eq = record {
  beq = λ x y. nat_eq (edge_outcome_ordinal x) (edge_outcome_ordinal y);
  beq_iff = EdgeOutcome-beq_iff;
}
