-- ===== src/InteractionModes/Scenarios.antt =====
-- An owner's browser session: packages/kogg-interaction-modes/src/node/mode-transition-authority.ts.
use kogg.Prelude.{
  arith, String, String-Eq, ◌==◌, true, if◌then◌else◌, none, some, [], ◌∷◌, ◌≡◌, refl,
}
use kogg.Text.{is_safe_id, is_digest}
use kogg.InteractionModes.Authority.{
  VerifiedModeActor, Authority, issue, may_mint, mint, find_issued, verify,
}
use kogg.InteractionModes.Minted.{IsFresh, IsEntitled, issued_for, mint-verify, mint-keeps}

abbrev scope : String
scope = "sha256:aaaaaaaaaaaaaaaaaaaaaaaaaaaaaaaaaaaaaaaaaaaaaaaaaaaaaaaaaaaaaaaa"

abbrev owner : VerifiedModeActor
owner = record {
  session_id = "browser:1";
  actor_authority_digest = scope;
  role = "owner";
  origin_verified = true;
  csrf_verified = true;
}

abbrev authority : Authority
authority = record {
  issued = (0, issued_for owner scope) ∷ [];
  next_object = 1;
  desktop_session_id = "electron:1";
  desktop_authority_digest = scope;
}

abbrev grown : Authority
grown = record authority {
  issued = (1, issued_for owner scope) ∷ (0, issued_for owner scope) ∷ [];
  next_object = 2;
}

authority-IsFresh : IsFresh authority
authority-IsFresh = (omega arith, tt)

owner_mints : mint owner scope authority ≡ some (1, grown)
unfolding mint issue may_mint is_safe_id is_digest
owner_mints = refl

zero_is_issued : find_issued 0 authority.issued ≡ some (issued_for owner scope)
unfolding find_issued
zero_is_issued = refl

mint-verify_example :
    IsEntitled owner scope
    × (verify (some 1) "other" grown
        ≡ (if scope == "other" then some (issued_for owner scope) else none))
mint-verify_example = mint-verify owner scope "other" authority grown 1 owner_mints

mint-keeps_example : verify (some 0) scope grown ≡ verify (some 0) scope authority
mint-keeps_example =
    mint-keeps owner scope scope authority grown 1 0 (issued_for owner scope) authority-IsFresh
      zero_is_issued owner_mints
