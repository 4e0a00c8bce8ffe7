-- ===== src/Operations/Kinds.antt =====
-- What operations and processes are for, and the codes that they end with:
-- packages/kogg-operations/src/common/operations-protocol.ts.
use kogg.Prelude.{ℕ, zero, suc, ◌≡◌, refl, ◌↔◌, true, nat_eq, Eq, ordinal_iff}

-- What an operation does.
pub data OperationKind : Type 0 where
  application_start application_stop recovery diagnostics support_export : OperationKind
  project_mutation repository_probe project_switch worktree marketplace : OperationKind
  provider_connection provider_session ranex_bridge ranex_request task agent_dispatch :
      OperationKind
  check build test debug evidence verdict merge : OperationKind

abbrev pub operation_kind_ordinal : OperationKind → ℕ
operation_kind_ordinal OperationKind.application_start = 0
operation_kind_ordinal OperationKind.application_stop = 1
operation_kind_ordinal OperationKind.recovery = 2
operation_kind_ordinal OperationKind.diagnostics = 3
operation_kind_ordinal OperationKind.support_export = 4
operation_kind_ordinal OperationKind.project_mutation = 5
operation_kind_ordinal OperationKind.repository_probe = 6
operation_kind_ordinal OperationKind.project_switch = 7
operation_kind_ordinal OperationKind.worktree = 8
operation_kind_ordinal OperationKind.marketplace = 9
operation_kind_ordinal OperationKind.provider_connection = 10
operation_kind_ordinal OperationKind.provider_session = 11
operation_kind_ordinal OperationKind.ranex_bridge = 12
operation_kind_ordinal OperationKind.ranex_request = 13
operation_kind_ordinal OperationKind.task = 14
operation_kind_ordinal OperationKind.agent_dispatch = 15
operation_kind_ordinal OperationKind.check = 16
operation_kind_ordinal OperationKind.build = 17
operation_kind_ordinal OperationKind.test = 18
operation_kind_ordinal OperationKind.debug = 19
operation_kind_ordinal OperationKind.evidence = 20
operation_kind_ordinal OperationKind.verdict = 21
operation_kind_ordinal OperationKind.merge = 22

abbrev operation_kind_of_ordinal : ℕ → OperationKind
operation_kind_of_ordinal zero = OperationKind.application_start
operation_kind_of_ordinal (suc zero) = OperationKind.application_stop
operation_kind_of_ordinal (suc (suc zero)) = OperationKind.recovery
operation_kind_of_ordinal (suc (suc (suc zero))) = OperationKind.diagnostics
operation_kind_of_ordinal (suc (suc (suc (suc zero)))) = OperationKind.support_export
operation_kind_of_ordinal (suc (suc (suc (suc (suc zero))))) = OperationKind.project_mutation
operation_kind_of_ordinal (suc (suc (suc (suc (suc (suc zero)))))) = OperationKind.repository_probe
operation_kind_of_ordinal (suc (suc (suc (suc (suc (suc (suc zero))))))) =
    OperationKind.project_switch
operation_kind_of_ordinal (suc (suc (suc (suc (suc (suc (suc (suc zero)))))))) =
    OperationKind.worktree
operation_kind_of_ordinal (suc (suc (suc (suc (suc (suc (suc (suc (suc zero))))))))) =
    OperationKind.marketplace
operation_kind_of_ordinal (suc (suc (suc (suc (suc (suc (suc (suc (suc (suc zero)))))))))) =
    OperationKind.provider_connection
operation_kind_of_ordinal (suc (suc (suc (suc (suc (suc (suc (suc (suc (suc (suc zero))))))))))) =
    OperationKind.provider_session
operation_kind_of_ordinal
      (suc (suc (suc (suc (suc (suc (suc (suc (suc (suc (suc (suc zero)))))))))))) =
    OperationKind.ranex_bridge
operation_kind_of_ordinal
      (suc (suc (suc (suc (suc (suc (suc (suc (suc (suc (suc (suc (suc zero))))))))))))) =
    OperationKind.ranex_request
operation_kind_of_ordinal
      (suc (suc (suc (suc (suc (suc (suc (suc (suc (suc (suc (suc (suc (suc zero)))))))))))))) =
    OperationKind.task
operation_kind_of_ordinal
      (suc
        (suc (suc (suc (suc (suc (suc (suc (suc (suc (suc (suc (suc (suc (suc zero))))))))))))))) =
    OperationKind.agent_dispatch
operation_kind_of_ordinal
      (suc (
        suc (
          suc
            (suc (suc (suc (suc (suc (suc (suc (suc (suc (suc (suc (suc (suc zero)))))))))))))))) =
    OperationKind.check
operation_kind_of_ordinal
      (suc (
        suc (
          suc (
            suc (
              suc
                (suc (suc (suc (suc (suc (suc (suc (suc (suc (suc (suc (suc zero))))))))))))))))) =
    OperationKind.build
operation_kind_of_ordinal
      (suc (
        suc (
          suc (
            suc (
              suc (
                suc (
                  suc
                    (suc (suc (suc (suc (suc (suc (suc (suc (suc (suc (suc zero)))))))))))))))))) =
    OperationKind.test
operation_kind_of_ordinal
      (suc (
        suc (
          suc (
            suc (
              suc (
                suc (
                  suc (
                    suc (
                      suc
                        (suc (suc (suc (suc (suc (suc (suc (suc (suc (suc zero))))))))))))))))))) =
    OperationKind.debug
operation_kind_of_ordinal
      (suc (
        suc (
          suc (
            suc (
              suc (
                suc (
                  suc (
                    suc (
                      suc (
                        suc (
                          suc
                            (suc (suc (suc (suc (suc (suc (suc (suc (suc zero)))))))))))))))))))) =
    OperationKind.evidence
operation_kind_of_ordinal
      (suc (
        suc (
          suc (
            suc (
              suc (
                suc (
                  suc (
                    suc (
                      suc (
                        suc (
                          suc (
                            suc (
                              suc
                                (suc (suc (suc (suc (suc (suc (suc (suc zero))))))))))))))))))))) =
    OperationKind.verdict
operation_kind_of_ordinal _ = OperationKind.merge

operation_kind_decode :
    (x : OperationKind) → operation_kind_of_ordinal (operation_kind_ordinal x) ≡ x
operation_kind_decode OperationKind.application_start = refl
operation_kind_decode OperationKind.application_stop = refl
operation_kind_decode OperationKind.recovery = refl
operation_kind_decode OperationKind.diagnostics = refl
operation_kind_decode OperationKind.support_export = refl
operation_kind_decode OperationKind.project_mutation = refl
operation_kind_decode OperationKind.repository_probe = refl
operation_kind_decode OperationKind.project_switch = refl
operation_kind_decode OperationKind.worktree = refl
operation_kind_decode OperationKind.marketplace = refl
operation_kind_decode OperationKind.provider_connection = refl
operation_kind_decode OperationKind.provider_session = refl
operation_kind_decode OperationKind.ranex_bridge = refl
operation_kind_decode OperationKind.ranex_request = refl
operation_kind_decode OperationKind.task = refl
operation_kind_decode OperationKind.agent_dispatch = refl
operation_kind_decode OperationKind.check = refl
operation_kind_decode OperationKind.build = refl
operation_kind_decode OperationKind.test = refl
operation_kind_decode OperationKind.debug = refl
operation_kind_decode OperationKind.evidence = refl
operation_kind_decode OperationKind.verdict = refl
operation_kind_decode OperationKind.merge = refl

pub OperationKind-beq_iff :
    (x y : OperationKind)
    → (nat_eq (operation_kind_ordinal x) (operation_kind_ordinal y) ≡ true) ↔ (x ≡ y)
OperationKind-beq_iff =
    ordinal_iff operation_kind_ordinal operation_kind_of_ordinal operation_kind_decode

instance abbrev pub OperationKind-Eq : Eq OperationKind
OperationKind-Eq = record {
  beq = λ x y. nat_eq (operation_kind_ordinal x) (operation_kind_ordinal y);
  beq_iff = OperationKind-beq_iff;
}

-- What a process runs.
pub data ProcessKind : Type 0 where
  git ranex_kernel provider_cli governed_command check build test debug_adapter : ProcessKind
  delegated_theia : ProcessKind

abbrev pub process_kind_ordinal : ProcessKind → ℕ
process_kind_ordinal ProcessKind.git = 0
process_kind_ordinal ProcessKind.ranex_kernel = 1
process_kind_ordinal ProcessKind.provider_cli = 2
process_kind_ordinal ProcessKind.governed_command = 3
process_kind_ordinal ProcessKind.check = 4
process_kind_ordinal ProcessKind.build = 5
process_kind_ordinal ProcessKind.test = 6
process_kind_ordinal ProcessKind.debug_adapter = 7
process_kind_ordinal ProcessKind.delegated_theia = 8

abbrev process_kind_of_ordinal : ℕ → ProcessKind
process_kind_of_ordinal zero = ProcessKind.git
process_kind_of_ordinal (suc zero) = ProcessKind.ranex_kernel
process_kind_of_ordinal (suc (suc zero)) = ProcessKind.provider_cli
process_kind_of_ordinal (suc (suc (suc zero))) = ProcessKind.governed_command
process_kind_of_ordinal (suc (suc (suc (suc zero)))) = ProcessKind.check
process_kind_of_ordinal (suc (suc (suc (suc (suc zero))))) = ProcessKind.build
process_kind_of_ordinal (suc (suc (suc (suc (suc (suc zero)))))) = ProcessKind.test
process_kind_of_ordinal (suc (suc (suc (suc (suc (suc (suc zero))))))) = ProcessKind.debug_adapter
process_kind_of_ordinal _ = ProcessKind.delegated_theia

process_kind_decode : (x : ProcessKind) → process_kind_of_ordinal (process_kind_ordinal x) ≡ x
process_kind_decode ProcessKind.git = refl
process_kind_decode ProcessKind.ranex_kernel = refl
process_kind_decode ProcessKind.provider_cli = refl
process_kind_decode ProcessKind.governed_command = refl
process_kind_decode ProcessKind.check = refl
process_kind_decode ProcessKind.build = refl
process_kind_decode ProcessKind.test = refl
process_kind_decode ProcessKind.debug_adapter = refl
process_kind_decode ProcessKind.delegated_theia = refl

pub ProcessKind-beq_iff :
    (x y : ProcessKind)
    → (nat_eq (process_kind_ordinal x) (process_kind_ordinal y) ≡ true) ↔ (x ≡ y)
ProcessKind-beq_iff = ordinal_iff process_kind_ordinal process_kind_of_ordinal process_kind_decode

instance abbrev pub ProcessKind-Eq : Eq ProcessKind
ProcessKind-Eq = record {
  beq = λ x y. nat_eq (process_kind_ordinal x) (process_kind_ordinal y);
  beq_iff = ProcessKind-beq_iff;
}
