-- ===== src/Operations/Prune.antt =====
-- `prune` of packages/kogg-operations/src/node/operation-registry.ts: of the settled and clean
-- operations the hundred that were updated last are kept.
use kogg.Prelude.{
  String, String-Eq, Bool, true, false, not, List, [], ◌∷◌, map, ◌==◌, ltb, any, filter, drop,
  includes, ◌&&◌, if◌then◌else◌,
}
use kogg.Operations.States.{CleanupState, ProcessState, CleanupState-Eq, ProcessState-Eq}
use kogg.Operations.Transitions.{is_terminal}
use kogg.Operations.Database.{OperationRow, ProcessRow, EventRow, Database}

-- The processes that keep an operation: not cleaned, or possibly still there.
unfoldable pub is_unclean_process_of : String → ProcessRow → Bool
is_unclean_process_of id p =
    if p.operation_id == id
    then (if p.cleanup_state == CleanupState.cleaned
        then p.state == ProcessState.possible_residual
        else true)
    else false

-- The `WHERE` clause of the operations that may go.
unfoldable pub is_prunable : List ProcessRow → OperationRow → Bool
is_prunable processes o =
    is_terminal o.state
    && (includes (CleanupState.not_required ∷ CleanupState.cleaned ∷ []) o.cleanup_state
        && not (any (is_unclean_process_of o.id) processes))

-- `ORDER BY updated_at DESC`. Rows updated at one time stand in table order, which SQL leaves open.
unfoldable pub insert_newest : OperationRow → List OperationRow → List OperationRow
insert_newest o [] = o ∷ []
insert_newest o (x ∷ xs) =
    if ltb o.updated_at x.updated_at then x ∷ insert_newest o xs else o ∷ x ∷ xs

unfoldable pub newest_first : List OperationRow → List OperationRow
newest_first [] = []
newest_first (o ∷ os) = insert_newest o (newest_first os)

unfoldable pub ids : List OperationRow → List String
ids = map (λ o. o.id)

-- The subquery `old`: `LIMIT -1 OFFSET 100`.
unfoldable pub old : Database → List String
old db = ids (drop 100 (newest_first (filter (is_prunable db.processes) db.operations)))

unfoldable pub delete_events : Database → Database
delete_events db = record db {
  events = filter (λ (e : EventRow). not (includes (old db) e.operation_id)) db.events;
}

unfoldable pub delete_processes : Database → Database
delete_processes db = record db {
  processes = filter (λ (p : ProcessRow). not (includes (old db) p.operation_id)) db.processes;
}

unfoldable pub delete_operations : Database → Database
delete_operations db = record db {
  operations = filter (λ (o : OperationRow). not (includes (old db) o.id)) db.operations;
}

-- The three deletions, each of which runs the subquery again.
unfoldable pub prune : Database → Database
prune db = delete_operations (delete_processes (delete_events db))
