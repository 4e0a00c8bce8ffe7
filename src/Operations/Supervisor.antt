-- ===== src/Operations/Supervisor.antt =====
-- `onStop`, and `startDatabase` from the recovery on, of
-- packages/kogg-operations/src/node/operation-registry.ts. The clock and the settled clean-ups are
-- given for each lease by its identifier.
use mathlib.Core.List.{reverse}
use kogg.Prelude.{String, Bool, true, false, none, some, List, [], ◌∷◌, map, filter, suc}
use kogg.Operations.Kinds.{OperationKind}
use kogg.Operations.Codes.{OperationSafeCode, Admission}
use kogg.Operations.Requests.{StartOperation}
use kogg.Operations.Database.{Meta, success}
use kogg.Operations.Registry.{
  Environment, OperationLease, Registry, ok, thrown, M, ◌>>=◌, ◌>>◌, transaction,
}
use kogg.Operations.Operation.{start_operation}
use kogg.Operations.Cleanup.{Settled, no_run, cleanup_operation}
use kogg.Operations.Lease.{start, lease_active, complete, fail, lease_cancel}
use kogg.Operations.Recovery.{Host, recover}

-- The request of an operation of the application's own.
unfoldable pub own_request : OperationKind → StartOperation
own_request kind = record {
  id = none;
  kind = kind;
  correlations = none;
  absolute_timeout_ms = none;
  idle_timeout_ms = none;
  cancellable = some false;
}

-- `[...this.leases.values()].reverse()`.
unfoldable pub latest_leases : Registry → List String
latest_leases r =
    reverse
      (map (λ (l : OperationLease). l.id) (filter (λ (l : OperationLease). l.registered) r.leases))

-- `UPDATE operation_meta SET admission='blocked',revision=revision+1`.
unfoldable pub block_admission : M (Unit {0})
block_admission = transaction (λ db.
    let meta : Meta = db.meta in
    success (record db {
      meta = record meta { admission = Admission.blocked; revision = suc meta.revision };
    }))

-- The loop over the leases: what one throws is noted, and the others are cancelled all the same.
unfoldable pub cancel_leases :
    (String → Environment)
    → (String → List Settled)
    → Bool
    → List String
    → Registry
    → Bool × Registry
cancel_leases env_of settled failed [] r = (failed, r)
cancel_leases env_of settled failed (id ∷ ids) r =
    elim (lease_cancel (env_of id) id (settled id) r) [
      | ok _ r' ↦ cancel_leases env_of settled failed ids r'
      | thrown e r' ↦ cancel_leases env_of settled true ids r'
    ]

unfoldable pub conclude_shutdown : Environment → String → Bool → M (Unit {0})
conclude_shutdown env id true = fail env id OperationSafeCode.cleanup_failed "Error"
conclude_shutdown env id false = complete env id (some OperationSafeCode.operations_ok)

-- From the leases that were there before the shutdown's own.
unfoldable pub shut_down_leases :
    Environment
    → (String → Environment)
    → (String → List Settled)
    → String
    → List String
    → M (Unit {0})
shut_down_leases env env_of settled id active r =
    let (failed, left) = cancel_leases env_of settled false active r in
    (cleanup_operation env id no_run >> conclude_shutdown env id failed) left

-- `onStop`, up to the closing of the database.
unfoldable pub shut_down :
    Environment → (String → Environment) → (String → List Settled) → M (Unit {0})
shut_down env env_of settled r =
    (do
      id ← start_operation env (own_request OperationKind.application_stop)
      start env id
      lease_active env id
      block_admission
      shut_down_leases env env_of settled id (latest_leases r))
      r

-- `startDatabase`, from the recovery on.
unfoldable pub start_up : Host → Environment → M (Unit {0})
start_up host env r =
    (do
      transaction (recover host env.now r.instance_id)
      id ← start_operation env (own_request OperationKind.application_start)
      start env id
      lease_active env id
      cleanup_operation env id no_run
      complete env id (some OperationSafeCode.operations_ok))
      r
