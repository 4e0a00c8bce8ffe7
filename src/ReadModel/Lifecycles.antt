-- ===== src/ReadModel/Lifecycles.antt =====
-- The lifecycles of runs and of the projection: packages/kogg-operations/src/common/operations-read-model-protocol.ts.
use kogg.Prelude.{ℕ, zero, suc, String, ◌≡◌, refl, ◌↔◌, true, nat_eq, Eq, ordinal_iff}

pub data RunLifecycle : Type 0 where
  queued_run active_run waiting_run retrying_run : RunLifecycle
  blocked_run failed_run cancelling_run cleaning_run : RunLifecycle
  recovered_run completed_run unknown_run : RunLifecycle

abbrev pub run_lifecycle_ordinal : RunLifecycle → ℕ
run_lifecycle_ordinal RunLifecycle.queued_run = 0
run_lifecycle_ordinal RunLifecycle.active_run = 1
run_lifecycle_ordinal RunLifecycle.waiting_run = 2
run_lifecycle_ordinal RunLifecycle.retrying_run = 3
run_lifecycle_ordinal RunLifecycle.blocked_run = 4
run_lifecycle_ordinal RunLifecycle.failed_run = 5
run_lifecycle_ordinal RunLifecycle.cancelling_run = 6
run_lifecycle_ordinal RunLifecycle.cleaning_run = 7
run_lifecycle_ordinal RunLifecycle.recovered_run = 8
run_lifecycle_ordinal RunLifecycle.completed_run = 9
run_lifecycle_ordinal RunLifecycle.unknown_run = 10

abbrev run_lifecycle_of_ordinal : ℕ → RunLifecycle
run_lifecycle_of_ordinal zero = RunLifecycle.queued_run
run_lifecycle_of_ordinal (suc zero) = RunLifecycle.active_run
run_lifecycle_of_ordinal (suc (suc zero)) = RunLifecycle.waiting_run
run_lifecycle_of_ordinal (suc (suc (suc zero))) = RunLifecycle.retrying_run
run_lifecycle_of_ordinal (suc (suc (suc (suc zero)))) = RunLifecycle.blocked_run
run_lifecycle_of_ordinal (suc (suc (suc (suc (suc zero))))) = RunLifecycle.failed_run
run_lifecycle_of_ordinal (suc (suc (suc (suc (suc (suc zero)))))) = RunLifecycle.cancelling_run
run_lifecycle_of_ordinal (suc (suc (suc (suc (suc (suc (suc zero))))))) = RunLifecycle.cleaning_run
run_lifecycle_of_ordinal (suc (suc (suc (suc (suc (suc (suc (suc zero)))))))) =
    RunLifecycle.recovered_run
run_lifecycle_of_ordinal (suc (suc (suc (suc (suc (suc (suc (suc (suc zero))))))))) =
    RunLifecycle.completed_run
run_lifecycle_of_ordinal _ = RunLifecycle.unknown_run

run_lifecycle_decode : (x : RunLifecycle) → run_lifecycle_of_ordinal (run_lifecycle_ordinal x) ≡ x
run_lifecycle_decode RunLifecycle.queued_run = refl
run_lifecycle_decode RunLifecycle.active_run = refl
run_lifecycle_decode RunLifecycle.waiting_run = refl
run_lifecycle_decode RunLifecycle.retrying_run = refl
run_lifecycle_decode RunLifecycle.blocked_run = refl
run_lifecycle_decode RunLifecycle.failed_run = refl
run_lifecycle_decode RunLifecycle.cancelling_run = refl
run_lifecycle_decode RunLifecycle.cleaning_run = refl
run_lifecycle_decode RunLifecycle.recovered_run = refl
run_lifecycle_decode RunLifecycle.completed_run = refl
run_lifecycle_decode RunLifecycle.unknown_run = refl

pub RunLifecycle-beq_iff :
    (x y : RunLifecycle)
    → (nat_eq (run_lifecycle_ordinal x) (run_lifecycle_ordinal y) ≡ true) ↔ (x ≡ y)
RunLifecycle-beq_iff =
    ordinal_iff run_lifecycle_ordinal run_lifecycle_of_ordinal run_lifecycle_decode

instance abbrev pub RunLifecycle-Eq : Eq RunLifecycle
RunLifecycle-Eq = record {
  beq = λ x y. nat_eq (run_lifecycle_ordinal x) (run_lifecycle_ordinal y);
  beq_iff = RunLifecycle-beq_iff;
}

abbrev pub run_lifecycle_text : RunLifecycle → String
run_lifecycle_text RunLifecycle.queued_run = "queued"
run_lifecycle_text RunLifecycle.active_run = "active"
run_lifecycle_text RunLifecycle.waiting_run = "waiting"
run_lifecycle_text RunLifecycle.retrying_run = "retrying"
run_lifecycle_text RunLifecycle.blocked_run = "blocked"
run_lifecycle_text RunLifecycle.failed_run = "failed"
run_lifecycle_text RunLifecycle.cancelling_run = "cancelling"
run_lifecycle_text RunLifecycle.cleaning_run = "cleaning"
run_lifecycle_text RunLifecycle.recovered_run = "recovered"
run_lifecycle_text RunLifecycle.completed_run = "completed"
run_lifecycle_text RunLifecycle.unknown_run = "unknown"

pub data ProjectionLifecycle : Type 0 where
  stopped_projection verifying_projection replaying_projection current_projection
        degraded_projection rebuilding_projection failed_projection :
      ProjectionLifecycle
