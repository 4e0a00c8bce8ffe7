-- ===== src/ReadModel/Owners.antt =====
-- The owners of events, and the kinds of events that each publishes: packages/kogg-operations/src/common/operations-read-model-protocol.ts.
use kogg.Prelude.{
  ℕ, zero, suc, String, List, [], ◌∷◌, ◌≡◌, refl, ◌↔◌, true, nat_eq, Eq, ordinal_iff,
}

-- An owner of events.
pub data OwnerKind : Type 0 where
  task_owner workflow_owner adapter_owner execution_owner : OwnerKind
  operation_owner project_owner check_owner ranex_owner : OwnerKind
  verdict_owner merge_owner diagnostic_owner : OwnerKind

abbrev pub owner_kind_ordinal : OwnerKind → ℕ
owner_kind_ordinal OwnerKind.task_owner = 0
owner_kind_ordinal OwnerKind.workflow_owner = 1
owner_kind_ordinal OwnerKind.adapter_owner = 2
owner_kind_ordinal OwnerKind.execution_owner = 3
owner_kind_ordinal OwnerKind.operation_owner = 4
owner_kind_ordinal OwnerKind.project_owner = 5
owner_kind_ordinal OwnerKind.check_owner = 6
owner_kind_ordinal OwnerKind.ranex_owner = 7
owner_kind_ordinal OwnerKind.verdict_owner = 8
owner_kind_ordinal OwnerKind.merge_owner = 9
owner_kind_ordinal OwnerKind.diagnostic_owner = 10

abbrev owner_kind_of_ordinal : ℕ → OwnerKind
owner_kind_of_ordinal zero = OwnerKind.task_owner
owner_kind_of_ordinal (suc zero) = OwnerKind.workflow_owner
owner_kind_of_ordinal (suc (suc zero)) = OwnerKind.adapter_owner
owner_kind_of_ordinal (suc (suc (suc zero))) = OwnerKind.execution_owner
owner_kind_of_ordinal (suc (suc (suc (suc zero)))) = OwnerKind.operation_owner
owner_kind_of_ordinal (suc (suc (suc (suc (suc zero))))) = OwnerKind.project_owner
owner_kind_of_ordinal (suc (suc (suc (suc (suc (suc zero)))))) = OwnerKind.check_owner
owner_kind_of_ordinal (suc (suc (suc (suc (suc (suc (suc zero))))))) = OwnerKind.ranex_owner
owner_kind_of_ordinal (suc (suc (suc (suc (suc (suc (suc (suc zero)))))))) = OwnerKind.verdict_owner
owner_kind_of_ordinal (suc (suc (suc (suc (suc (suc (suc (suc (suc zero))))))))) =
    OwnerKind.merge_owner
owner_kind_of_ordinal _ = OwnerKind.diagnostic_owner

owner_kind_decode : (x : OwnerKind) → owner_kind_of_ordinal (owner_kind_ordinal x) ≡ x
owner_kind_decode OwnerKind.task_owner = refl
owner_kind_decode OwnerKind.workflow_owner = refl
owner_kind_decode OwnerKind.adapter_owner = refl
owner_kind_decode OwnerKind.execution_owner = refl
owner_kind_decode OwnerKind.operation_owner = refl
owner_kind_decode OwnerKind.project_owner = refl
owner_kind_decode OwnerKind.check_owner = refl
owner_kind_decode OwnerKind.ranex_owner = refl
owner_kind_decode OwnerKind.verdict_owner = refl
owner_kind_decode OwnerKind.merge_owner = refl
owner_kind_decode OwnerKind.diagnostic_owner = refl

pub OwnerKind-beq_iff :
    (x y : OwnerKind) → (nat_eq (owner_kind_ordinal x) (owner_kind_ordinal y) ≡ true) ↔ (x ≡ y)
OwnerKind-beq_iff = ordinal_iff owner_kind_ordinal owner_kind_of_ordinal owner_kind_decode

instance abbrev pub OwnerKind-Eq : Eq OwnerKind
OwnerKind-Eq = record {
  beq = λ x y. nat_eq (owner_kind_ordinal x) (owner_kind_ordinal y);
  beq_iff = OwnerKind-beq_iff;
}

abbrev pub owner_text : OwnerKind → String
owner_text OwnerKind.task_owner = "task"
owner_text OwnerKind.workflow_owner = "workflow"
owner_text OwnerKind.adapter_owner = "adapter"
owner_text OwnerKind.execution_owner = "execution"
owner_text OwnerKind.operation_owner = "operation"
owner_text OwnerKind.project_owner = "project"
owner_text OwnerKind.check_owner = "check"
owner_text OwnerKind.ranex_owner = "ranex"
owner_text OwnerKind.verdict_owner = "verdict"
owner_text OwnerKind.merge_owner = "merge"
owner_text OwnerKind.diagnostic_owner = "diagnostic"

-- `OWNER_EVENT_KINDS`.
unfoldable pub owner_event_kinds : OwnerKind → List String
owner_event_kinds OwnerKind.task_owner =
    "task.created" ∷ "task.updated" ∷ "task.archived" ∷ "specification.edited"
    ∷ "specification.frozen" ∷ "specification.successor-created" ∷ "approval.recorded"
    ∷ "approval.revoked" ∷ "admission.authorized" ∷ "task.retention-held"
    ∷ "task.retention-released" ∷ []
owner_event_kinds OwnerKind.workflow_owner =
    "run.queued" ∷ "run.started" ∷ "run.waiting" ∷ "run.retrying" ∷ "run.blocked" ∷ "run.cancelling"
    ∷ "run.cleaning" ∷ "run.failed" ∷ "run.cancelled" ∷ "run.recovered" ∷ "run.completed"
    ∷ "node.started" ∷ "node.terminal" ∷ []
owner_event_kinds OwnerKind.adapter_owner =
    "attempt.requested" ∷ "attempt.started" ∷ "attempt.failed" ∷ "attempt.cancelled"
    ∷ "attempt.completed" ∷ "usage.observed" ∷ []
owner_event_kinds OwnerKind.execution_owner =
    "execution.admitted" ∷ "execution.refused" ∷ "execution.started" ∷ "execution.failed"
    ∷ "execution.completed" ∷ "execution.quarantined" ∷ "quarantine.retention-released" ∷ []
owner_event_kinds OwnerKind.operation_owner =
    "operation.requested" ∷ "operation.started" ∷ "operation.active" ∷ "operation.waiting"
    ∷ "operation.stalled" ∷ "operation.cancelling" ∷ "operation.cleaning" ∷ "operation.completed"
    ∷ "operation.failed" ∷ "operation.timed-out" ∷ "operation.cancelled" ∷ "operation.refused"
    ∷ "operation.recovered" ∷ "process.reserved" ∷ "process.spawning" ∷ "process.started"
    ∷ "process.ready" ∷ "process.activity" ∷ "process.exited" ∷ "process.cancelling"
    ∷ "process.cleaning" ∷ "process.cleaned" ∷ "process.spawn-failed" ∷ "process.timed-out"
    ∷ "process.residual" ∷ "process.lost" ∷ "process.quarantined" ∷ "process.inventory-unknown"
    ∷ "incident.retention-released" ∷ []
owner_event_kinds OwnerKind.project_owner =
    "project.created" ∷ "project.renamed" ∷ "project.removed" ∷ "project.available"
    ∷ "project.unavailable" ∷ "project.profile-changed" ∷ "project.role-changed"
    ∷ "project.binding-changed" ∷ "project.switch-requested" ∷ "project.switch-completed"
    ∷ "project.switch-cancelled" ∷ "repository.changed" ∷ []
owner_event_kinds OwnerKind.check_owner =
    "check.requested" ∷ "check.started" ∷ "check.failed" ∷ "check.passed" ∷ "check.cleaned" ∷ []
owner_event_kinds OwnerKind.ranex_owner =
    "evidence.requested" ∷ "evidence.admitted" ∷ "evidence.refused" ∷ "gate.decided"
    ∷ "evidence.retention-released" ∷ []
owner_event_kinds OwnerKind.verdict_owner =
    "verdict.requested" ∷ "verdict.accepted" ∷ "verdict.rejected" ∷ "verdict.unknown"
    ∷ "verdict.retention-released" ∷ []
owner_event_kinds OwnerKind.merge_owner =
    "merge.requested" ∷ "merge.refused" ∷ "merge.committed" ∷ "merge.recovered"
    ∷ "merge.quarantined" ∷ "merge.retention-released" ∷ []
owner_event_kinds OwnerKind.diagnostic_owner =
    "diagnostic.started" ∷ "diagnostic.passed" ∷ "diagnostic.failed" ∷ []
