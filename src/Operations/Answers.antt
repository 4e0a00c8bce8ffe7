-- ===== src/Operations/Answers.antt =====
-- The recorded answers of cancel requests:
-- packages/kogg-operations/src/node/operation-registry.ts.
use kogg.Prelude.{
  String, String-Eq, Bool, Option, none, some, List, [], ◌∷◌, ◌++◌, ◌==◌, ◌≡◌, find?, arith,
}
use kogg.Operations.Database.{Database, RequestRow}
use kogg.Operations.Prune.{prune, delete_events, delete_processes, delete_operations}
use kogg.Operations.Registry.{Environment, Registry}
use kogg.Operations.Lease.{find_request}
use kogg.Operations.Calls.{Call, call, run}
use kogg.Operations.Moves.{Step, Steps, done, ◌then◌, opens_none, opens_one}
use kogg.Operations.Lifecycle.{Opened, opened_by, call-Opened}

find?-kept :
    (p : RequestRow → Bool) (xs ys : List RequestRow) (q : RequestRow)
    → find? p xs ≡ some q
    → find? p (xs ++ ys) ≡ some q
find?-kept p [] ys q h = absurd cc
find?-kept p (x ∷ xs) ys q h = ground (arith, find?-kept p xs ys q)

-- An answer that is on record is found, whatever is called later.
Step-answer :
    (id : String) (q : RequestRow) {db db' : Database}
    → Step db db'
    → find_request id db ≡ some q
    → find_request id db' ≡ some q
unfolding find_request prune delete_events delete_processes delete_operations
Step-answer id q (Step.meta_written m _ e) h = rw e h
Step-answer id q (Step.operation_kept _ _ _ _ e) h = rw e h
Step-answer id q (Step.operation_moved _ _ _ _ _ _ _ _ e) h = rw e h
Step-answer id q (Step.process_kept _ _ _ _ _ e) h = rw e h
Step-answer id q (Step.process_moved _ _ _ _ _ _ _ _ _ e) h = rw e h
Step-answer id q (Step.process_added _ _ _ _ e) h = rw e h
Step-answer id q (Step.event_added _ _ _ e) h = rw e h
Step-answer id q {db} (Step.request_added x _ e) h =
    rw e (find?-kept (λ (y : RequestRow). y.request_id == id) db.request_results (x ∷ []) q h)
Step-answer id q (Step.pruned e) h = rw e h

Steps-answer :
    (id : String) (q : RequestRow) {db db' : Database}
    → Steps db db'
    → find_request id db ≡ some q
    → find_request id db' ≡ some q
Steps-answer id q done h = h
Steps-answer id q (s then t) h = Step-answer id q t (Steps-answer id q s h)

Opened-answer :
    (id : String) (q : RequestRow) (o : Option String) (db db' : Database)
    → Opened o db db'
    → find_request id db ≡ some q
    → find_request id db' ≡ some q
unfolding Opened find_request
Opened-answer id q none db db' s h = Steps-answer id q s h
Opened-answer id q (some x) db db' (opens_none s) h = Steps-answer id q s h
Opened-answer id q (some x) db db' (opens_one row s same new fresh t) h =
    Steps-answer id q t (Steps-answer id q s h)

pub run-answer :
    (r : Registry) (cs : List (Environment × Call)) (id : String) (q : RequestRow)
    → find_request id r.database ≡ some q
    → find_request id (run r cs).database ≡ some q
unfolding run
run-answer r [] id q h = h
run-answer r ((env, x) ∷ cs) id q h =
    run-answer (call env x r) cs id q
      (Opened-answer id q (opened_by env x) _ _ (call-Opened env x r) h)
