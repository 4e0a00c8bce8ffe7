-- ===== src/InteractionModes/Authority.antt =====
-- `ModeTransitionAuthority` of packages/kogg-interaction-modes/src/node/mode-transition-authority.ts.
-- A context is known by the identity of its object, so the weak map is a list over object numbers,
-- and a fresh object takes the next number.
use kogg.Prelude.{
  ℕ, suc, String, String-Eq, Bool, ◌&&◌, Option, none, some, List, [], ◌∷◌, ◌==◌, ℕ-Eq,
  if◌then◌else◌,
}
use kogg.Text.{is_safe_id, is_digest}

pub record VerifiedModeActor : Type 0 where
  pub session_id : String
  pub actor_authority_digest : String
  pub role : String
  pub origin_verified : Bool
  pub csrf_verified : Bool

pub record IssuedModeActor : Type 0 where
  pub session_id : String
  pub actor_authority_digest : String
  pub role : String
  pub scope_digest : String

pub record Authority : Type 0 where
  pub issued : List (ℕ × IssuedModeActor)
  pub next_object : ℕ
  pub desktop_session_id : String
  pub desktop_authority_digest : String

-- `issue`.
unfoldable pub issue : IssuedModeActor → Authority → ℕ × Authority
issue actor a = (
  a.next_object,
  record a { issued = (a.next_object, actor) ∷ a.issued; next_object = suc a.next_object },
)

-- The checks of `mint`.
unfoldable pub may_mint : VerifiedModeActor → String → Bool
may_mint actor scope =
    is_safe_id actor.session_id
    && (is_digest actor.actor_authority_digest
        && (is_digest scope
            && (actor.role == "owner" && (actor.origin_verified && actor.csrf_verified))))

-- `mint`: none where it throws.
unfoldable pub mint : VerifiedModeActor → String → Authority → Option (ℕ × Authority)
mint actor scope a =
    if may_mint actor scope
    then some (
        issue
          (record {
            session_id = actor.session_id;
            actor_authority_digest = actor.actor_authority_digest;
            role = actor.role;
            scope_digest = scope;
          })
          a)
    else none

-- `mintDesktop`.
unfoldable pub mint_desktop : String → Authority → Option (ℕ × Authority)
mint_desktop scope a =
    if is_digest scope
    then some (
        issue
          (record {
            session_id = a.desktop_session_id;
            actor_authority_digest = a.desktop_authority_digest;
            role = "owner";
            scope_digest = scope;
          })
          a)
    else none

unfoldable pub find_issued : ℕ → List (ℕ × IssuedModeActor) → Option IssuedModeActor
find_issued context [] = none
find_issued context ((key, actor) ∷ rest) =
    let later = find_issued context rest in if key == context then some actor else later

unfoldable pub for_scope : String → Option IssuedModeActor → Option IssuedModeActor
for_scope scope none = none
for_scope scope (some actor) = if actor.scope_digest == scope then some actor else none

-- `verify`; none for a context that is no object.
unfoldable pub verify : Option ℕ → String → Authority → Option IssuedModeActor
unfolding for_scope
verify none scope a = none
verify (some context) scope a = for_scope scope (find_issued context a.issued)
