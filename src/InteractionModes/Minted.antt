-- ===== src/InteractionModes/Minted.antt =====
-- What a minted context is good for:
-- packages/kogg-interaction-modes/src/node/mode-transition-authority.ts.
use kogg.Prelude.{
  &&-eq-true, ℕ, ◌<◌, String, String-Eq, Bool, true, false, Option, none, some, List, [], ◌∷◌, ◌==◌,
  ==_refl, ℕ-Eq, if◌then◌else◌, ◌≡◌, refl, ap, arith, All, Bool-cases, inl, inr,
}
use kogg.Text.{is_safe_id, is_digest}
use kogg.InteractionModes.Authority.{
  VerifiedModeActor, IssuedModeActor, Authority, issue, may_mint, mint, find_issued, for_scope,
  verify,
}

-- No object that is still to be made has been issued.
abbrev pub IsFresh : Authority → Type 0
IsFresh a = All (λ (p : ℕ × IssuedModeActor). p.0 < a.next_object) a.issued

-- What `mint` issues for an actor.
abbrev pub issued_for : VerifiedModeActor → String → IssuedModeActor
issued_for actor scope = record {
  session_id = actor.session_id;
  actor_authority_digest = actor.actor_authority_digest;
  role = actor.role;
  scope_digest = scope;
}

taken_branch {ℓ} :
    {A : Type ℓ} (b : Bool) (x y : A) → (if b then some x else none) ≡ some y → (b ≡ true) × (x ≡ y)
taken_branch true x y h = (refl, ap (λ (o : Option _). elim o [ none ↦ x | some z ↦ z ]) h)
taken_branch false x y h = cc

mint-issues :
    (actor : VerifiedModeActor) (scope : String) (a a' : Authority) (context : ℕ)
    → mint actor scope a ≡ some (context, a')
    → (may_mint actor scope ≡ true) × (issue (issued_for actor scope) a ≡ (context, a'))
unfolding mint
mint-issues actor scope a a' context h =
    taken_branch (may_mint actor scope) (issue (issued_for actor scope) a) (context, a') h

-- What an actor must show, and of which form its scope must be, for a context to be minted.
abbrev pub IsEntitled : VerifiedModeActor → String → Type 0
IsEntitled actor scope =
    (is_safe_id actor.session_id ≡ true)
    × (is_digest actor.actor_authority_digest ≡ true)
    × (is_digest scope ≡ true)
    × (actor.role ≡ "owner")
    × (actor.origin_verified ≡ true)
    × (actor.csrf_verified ≡ true)

may_mint-IsEntitled :
    (actor : VerifiedModeActor) (scope : String)
    → may_mint actor scope ≡ true
    → IsEntitled actor scope
unfolding may_mint
may_mint-IsEntitled actor scope h =
    let (safe, h1) = &&-eq-true (is_safe_id actor.session_id) _ h in
    let (digest, h2) = &&-eq-true (is_digest actor.actor_authority_digest) _ h1 in
    let (scoped, h3) = &&-eq-true (is_digest scope) _ h2 in
    let (owner, h4) = &&-eq-true (actor.role == "owner") _ h3 in
    let (origin, csrf) = &&-eq-true actor.origin_verified actor.csrf_verified h4 in
    (safe, digest, scoped, (String-Eq.beq_iff actor.role "owner").0 owner, origin, csrf)

-- A context that `mint` returns is verified for the scope it was minted for, as the actor that asked
-- for it, and for no other scope. It is minted only for an owner with a safe session identifier and
-- an authority digest of the right form, whose origin and CSRF token were verified, and only for a
-- scope that is a digest.
pub mint-verify :
    (actor : VerifiedModeActor) (scope other : String) (a a' : Authority) (context : ℕ)
    → mint actor scope a ≡ some (context, a')
    → IsEntitled actor scope
      × (verify (some context) other a'
          ≡ (if scope == other then some (issued_for actor scope) else none))
unfolding issue verify find_issued for_scope
mint-verify actor scope other a a' context h =
    let (allowed, e) = mint-issues actor scope a a' context h in
    (
      may_mint-IsEntitled actor scope allowed,
      rw (← ap (λ p. p.0) e, ← ap (λ p. p.1) e) (rw (==_refl a.next_object) refl),
    )

find_issued-fresh :
    (context bound : ℕ) (rows : List (ℕ × IssuedModeActor)) (actor : IssuedModeActor)
    → All (λ (p : ℕ × IssuedModeActor). p.0 < bound) rows
    → find_issued context rows ≡ some actor
    → context < bound
unfolding find_issued
find_issued-fresh context bound [] actor h e = cc
find_issued-fresh context bound ((key, x) ∷ rows) actor h e = elim (Bool-cases (key == context)) [
  | inl same ↦ ground (arith, h.0)
  | inr other ↦ find_issued-fresh context bound rows actor h.1 (rw other at e)
]

-- Minting takes no earlier context away and changes none: what was verified is verified still.
pub mint-keeps :
    (actor : VerifiedModeActor) (scope other : String) (a a' : Authority) (context earlier : ℕ)
    (x : IssuedModeActor)
    → IsFresh a
    → find_issued earlier a.issued ≡ some x
    → mint actor scope a ≡ some (context, a')
    → verify (some earlier) other a' ≡ verify (some earlier) other a
unfolding issue verify find_issued for_scope
mint-keeps actor scope other a a' context earlier x fresh found h =
    let (allowed, e) = mint-issues actor scope a a' context h in
    let below = find_issued-fresh earlier a.next_object a.issued x fresh found in
    let apart : (a.next_object == earlier) ≡ false = ground (arith, below) in
    rw (← ap (λ p. p.1) e) (rw apart refl)
