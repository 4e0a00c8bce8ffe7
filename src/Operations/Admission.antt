-- ===== src/Operations/Admission.antt =====
-- Who is let in: packages/kogg-operations/src/node/operation-registry.ts.
use kogg.Prelude.{String, false, ◌≡◌, ◌≢◌, inl, inr, Bool-cases, ◌==◌}
use kogg.Text.{is_uuid}
use kogg.Operations.Codes.{Admission, Admission-Eq}
use kogg.Operations.Requests.{StartOperation, validate_start_operation}
use kogg.Operations.Database.{RegistryError}
use kogg.Operations.Operation.{
  is_lifecycle_kind, is_admitted, check_admission, requested_id, start_operation,
}
use kogg.Operations.Registry.{Environment, Registry, Outcome, thrown, ◌>>=◌}

-- The call throws, and leaves the registry as it was.
abbrev pub RefusesUnchanged : Registry → Outcome String → Type 0
RefusesUnchanged r o = (e : RegistryError) × (o ≡ thrown e r)

not_admitted :
    (admission : Admission) (request : StartOperation)
    → admission ≢ Admission.enabled
    → is_lifecycle_kind request.kind ≡ false
    → is_admitted admission request.kind ≡ false
unfolding is_admitted
not_admitted admission request shut kind = elim (Bool-cases (admission == Admission.enabled)) [
  | inl e ↦ absurd (shut ((Admission-Eq.beq_iff admission Admission.enabled).0 e))
  | inr e ↦ rw (e, kind)
]

-- While admission is not enabled, a request to open an operation that is not one of the
-- application's own is refused, and the registry stays exactly as it was.
pub start_operation-shut :
    (env : Environment) (request : StartOperation) (r : Registry)
    → r.database.meta.admission ≢ Admission.enabled
    → is_lifecycle_kind request.kind ≡ false
    → RefusesUnchanged r (start_operation env request r)
unfolding start_operation check_admission ◌>>=◌
start_operation-shut env request r shut kind =
    elim (Bool-cases (validate_start_operation request)) [
      | inr e ↦ (RegistryError.operation_request_invalid, rw (e, ◌>>=◌))
      | inl e ↦ elim (Bool-cases (is_uuid (requested_id env request))) [
        | inr f ↦ (RegistryError.operation_id_invalid, rw (e, ◌>>=◌) (rw (f, ◌>>=◌)))
        | inl f ↦ (
          RegistryError.admission_refused,
          rw (e, ◌>>=◌)
              (rw (f, ◌>>=◌)
                (rw (not_admitted r.database.meta.admission request shut kind, ◌>>=◌))),
        )
      ]
    ]
