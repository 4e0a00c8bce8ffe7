-- ===== src/Operations/Replay.antt =====
-- A cancel request that is sent again: packages/kogg-operations/src/node/operation-registry.ts.
use kogg.Prelude.{
  String-Eq, Bool, true, false, Option, none, some, List, [], ◌∷◌, ◌++◌, ◌≡◌, refl, sym, ap, ◌==◌,
  any, find?, if◌then◌else◌, arith, ==_refl,
}
use kogg.Text.{is_uuid}
use kogg.Operations.Database.{Database, RequestRow, RegistryError, Result, success, failure, bump}
use kogg.Operations.Registry.{
  Environment, Registry, Outcome, ok, thrown, M, ◌>>=◌, guard, commit, transaction,
}
use kogg.Operations.Cleanup.{Settled}
use kogg.Operations.Calls.{Call, run}
use kogg.Operations.Answers.{run-answer}
use kogg.Operations.Lease.{
  CancelRequest, find_request, request_row, record_statements, replay_or, cancel_fresh, cancel,
}

-- What a call that returned went through.
>>=-eq-ok {ℓ κ} :
    {A : Type ℓ} {B : Type κ} (m : M A) (f : A → M B) (r : Registry) {b : B} {r' : Registry}
    → ◌>>=◌ m f r ≡ ok b r'
    → (a : A) × (r1 : Registry) × (m r ≡ ok a r1) × (f a r1 ≡ ok b r')
unfolding ◌>>=◌
>>=-eq-ok {A} {B} m f r {b} {r'} h = go (m r) refl h
  where
    go :
        (o : Outcome A)
        → m r ≡ o
        → (elim o as (λ _. Outcome B) [ ok a r1 ↦ f a r1 | thrown e r1 ↦ thrown e r1 ]) ≡ ok b r'
        → (a : A) × (r1 : Registry) × (m r ≡ ok a r1) × (f a r1 ≡ ok b r')
    go (ok a r1) e k = (a, r1, e, k)
    go (thrown x r1) e k = cc

guard-eq-ok :
    (test : Bool) (e : RegistryError) (r : Registry) {r' : Registry}
    → guard test e r ≡ ok tt r'
    → (test ≡ true) × (r' ≡ r)
guard-eq-ok true e r h = (refl, cc)
guard-eq-ok false e r h = cc

find-append-last :
    (p : RequestRow → Bool) (qs : List RequestRow) (q : RequestRow)
    → any p qs ≡ false
    → p q ≡ true
    → find? p (qs ++ q ∷ []) ≡ some q
find-append-last p [] q h k = rw k refl
find-append-last p (x ∷ qs) q h k = ground (arith, find-append-last p qs q)

-- The request's answer is on record.
abbrev Answered : CancelRequest → Database → Type 0
Answered request db =
    (q : RequestRow) × (find_request request.request_id db ≡ some q)
    × ((q.operation_id == request.operation_id) ≡ true)

ok-state : (o : Outcome (Unit {0})) → Registry → Registry
ok-state (ok a r) d = r
ok-state (thrown e r) d = d

transaction-eq-ok :
    (run : Database → Result Database) (r r' : Registry)
    → transaction run r ≡ ok tt r'
    → (db : Database) × (run r.database ≡ success db) × (r'.database ≡ db)
unfolding transaction commit ok-state
transaction-eq-ok run r r' h = go (run r.database) refl h
  where
    go :
        (x : Result Database)
        → run r.database ≡ x
        → commit r x ≡ ok tt r'
        → (db : Database) × (run r.database ≡ success db) × (r'.database ≡ db)
    go (success db) e k = (db, e, sym (ap (λ o. (ok-state o r).database) k))
    go (failure x) e k = cc

record_statements-Answered :
    (env : Environment) (request : CancelRequest) (db db' : Database)
    → record_statements env.now request db ≡ success db'
    → Answered request db'
unfolding record_statements bump find_request request_row
record_statements-Answered env request db db' h = go (any p db.request_results) refl h
  where
    p : RequestRow → Bool
    p = λ (q : RequestRow). q.request_id == request.request_id

    written : Database
    written =
        bump
          (record db { request_results = db.request_results ++ request_row env.now request ∷ [] })

    get : Result Database → Database
    get (success d) = d
    get (failure x) = db

    go :
        (b : Bool)
        → any p db.request_results ≡ b
        → (if b then failure RegistryError.constraint_failed else success written) ≡ success db'
        → Answered request db'
    go true e k = cc
    go false e k = rw (← ap get k) (
      request_row env.now request,
      find-append-last p db.request_results (request_row env.now request) e
          (==_refl request.request_id),
      ==_refl request.operation_id,
    )

cancel_fresh-Answered :
    (env : Environment) (request : CancelRequest) (settled : List Settled) (r r' : Registry)
    → cancel_fresh env request settled r ≡ ok tt r'
    → Answered request r'.database
unfolding cancel_fresh
cancel_fresh-Answered env request settled r r' h =
    let (_, r1, e1, h1) = >>=-eq-ok _ _ r h in
    let (_, r2, e2, h2) = >>=-eq-ok _ _ r1 h1 in
    let (db, e3, same) = transaction-eq-ok _ r2 r' h2 in
    rw same (record_statements-Answered env request r2.database db e3)

replay_or-Answered :
    (request : CancelRequest) (fresh : M (Unit {0})) (r r' : Registry)
    → ((r1 : Registry) → fresh r ≡ ok tt r1 → Answered request r1.database)
    → replay_or request fresh r ≡ ok tt r'
    → Answered request r'.database
unfolding replay_or
replay_or-Answered request fresh r r' answers h =
    go (find_request request.request_id r.database) refl h
  where
    go :
        (o : Option RequestRow)
        → find_request request.request_id r.database ≡ o
        → (elim o as (λ _. Outcome (Unit {0})) [
          | none ↦ fresh r
          | some replay ↦
              guard (replay.operation_id == request.operation_id) RegistryError.replay_mismatch r
        ])
          ≡ ok tt r'
        → Answered request r'.database
    go none e k = answers r' k
    go (some q) e k = let (test, same) = guard-eq-ok _ _ r k in rw same (q, e, test)

-- What a request that was answered leaves on record.
cancel-Answered :
    (env : Environment) (request : CancelRequest) (settled : List Settled) (r r' : Registry)
    → cancel env request settled r ≡ ok tt r'
    → (is_uuid request.request_id ≡ true)
      × (is_uuid request.operation_id ≡ true)
      × Answered request r'.database
unfolding cancel replay_or ◌>>=◌
cancel-Answered env request settled r r' h =
    let fresh = replay_or request (cancel_fresh env request settled) in
    let checked = λ (_ : Unit {0}).
      guard (is_uuid request.operation_id) RegistryError.cancel_request_invalid >>= λ _. fresh in
    let (_, r1, e1, h1) =
      >>=-eq-ok (guard (is_uuid request.request_id) RegistryError.cancel_request_invalid) checked r
        h in
    let (_, r2, e2, h2) =
      >>=-eq-ok (guard (is_uuid request.operation_id) RegistryError.cancel_request_invalid)
        (λ _. fresh) r1 h1 in
    let (first, _) = guard-eq-ok (is_uuid request.request_id) _ r e1 in
    let (second, _) = guard-eq-ok (is_uuid request.operation_id) _ r1 e2 in
    (
      first,
      second,
      replay_or-Answered request (cancel_fresh env request settled) r2 r'
          (λ r3 k. cancel_fresh-Answered env request settled r2 r3 k) h2,
    )

-- Once a cancel request has been answered, sending it again at any later time, after any sequence of
-- calls of any kind, returns and leaves the registry exactly as those calls left it.
pub cancel-idempotent :
    (env later : Environment) (request : CancelRequest) (settled settled' : List Settled)
    (r r' : Registry) (cs : List (Environment × Call))
    → cancel env request settled r ≡ ok tt r'
    → cancel later request settled' (run r' cs) ≡ ok tt (run r' cs)
unfolding cancel replay_or ◌>>=◌
cancel-idempotent env later request settled settled' r r' cs h =
    let (first, second, (q, found, same)) = cancel-Answered env request settled r r' h in
    let kept = run-answer r' cs request.request_id q found in
    rw (first, ◌>>=◌) (rw (second, ◌>>=◌) (rw (kept, replay_or) (rw same refl)))
