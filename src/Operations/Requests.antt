-- ===== src/Operations/Requests.antt =====
-- The requests that open an operation or a process, and their validation:
-- packages/kogg-operations/src/common/operations-protocol.ts and src/node/operation-registry.ts.
-- The types here are closed, so the tests for unknown fields, kinds and owners have no counterpart.
use kogg.Prelude.{ℕ, String, Bool, true, ◌&&◌, Option, none, some, [], ◌∷◌, all, leb, includes}
use kogg.Text.{is_uuid, is_safe_id, is_digest}
use kogg.Operations.Kinds.{OperationKind, ProcessKind, ProcessKind-Eq}
use kogg.Operations.Codes.{ProcessOwner}

pub record OperationCorrelations : Type 0 where
  pub project_id : Option String
  pub task_id : Option String
  pub run_id : Option String
  pub attempt_id : Option String
  pub session_id : Option String
  pub worktree_id : Option String

pub record StartOperation : Type 0 where
  pub id : Option String
  pub kind : OperationKind
  pub correlations : Option OperationCorrelations
  pub absolute_timeout_ms : Option ℕ
  pub idle_timeout_ms : Option ℕ
  pub cancellable : Option Bool

pub record CheckProcessAuthority : Type 0 where
  pub suite_digest : String
  pub check_definition_digest : String
  pub subject_state_digest : String
  pub verifier_id : String
  pub verifier_artifact_digest : String
  pub execution_profile_digest : String

pub record StartProcess : Type 0 where
  pub kind : ProcessKind
  pub owner : ProcessOwner
  pub execution_authority : Option CheckProcessAuthority

-- A correlation that is given is a safe identifier.
correlation_ok : Option String → Bool
correlation_ok none = true
correlation_ok (some value) = is_safe_id value

correlations_ok : Option OperationCorrelations → Bool
unfolding correlation_ok
correlations_ok none = true
correlations_ok (some c) =
    all correlation_ok
      (c.project_id ∷ c.task_id ∷ c.run_id ∷ c.attempt_id ∷ c.session_id ∷ c.worktree_id ∷ [])

-- A timeout that is given lies between 100 ms and a day.
unfoldable pub timeout_ok : Option ℕ → Bool
timeout_ok none = true
timeout_ok (some timeout) = leb 100 timeout && leb timeout 86_400_000

-- `validateStartOperation`.
unfoldable pub validate_start_operation : StartOperation → Bool
unfolding correlations_ok timeout_ok
validate_start_operation request =
    timeout_ok request.absolute_timeout_ms
    && (timeout_ok request.idle_timeout_ms && correlations_ok request.correlations)

-- `validExecutionAuthority`.
unfoldable pub valid_execution_authority : CheckProcessAuthority → Bool
valid_execution_authority value =
    all is_digest (
      value.suite_digest ∷ value.check_definition_digest ∷ value.subject_state_digest
      ∷ value.verifier_artifact_digest ∷ value.execution_profile_digest ∷ [])
    && is_uuid value.verifier_id

-- The kinds of process that may carry an authority.
unfoldable pub is_check_kind : ProcessKind → Bool
is_check_kind kind = includes (ProcessKind.check ∷ ProcessKind.build ∷ ProcessKind.test ∷ []) kind

-- The test at the head of `registerProcess`.
unfoldable pub validate_start_process : StartProcess → Bool
validate_start_process request = elim request.execution_authority [
  | none ↦ true
  | some authority ↦ is_check_kind request.kind && valid_execution_authority authority
]
