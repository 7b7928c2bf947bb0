-- ===== src/Examples/SeedRole.antt =====
-- The seed's theorems at concrete configs.
use spellbook.Prelude.{◌≡◌, refl, inl, inr, none, some, [], ◌∷◌, List, String}
use spellbook.Prelude.Text.{lower, after_prefix}
use spellbook.SeedRole.Paths.{starts_with, occurs_in, ends_with, last_part, base_name}
use spellbook.SeedRole.{
  SeedConfig, unset, Marker, identity_seed_markers, seed_path_markers, seed_file_role, identity,
  started, judge_markers, check_wallet_root,
}
use spellbook.SeedRole.Refusal.{IsClean, check_wallet_root_starts}

-- A seed file that is no identity's, with everything else left to the defaults.
abbrev plain : SeedConfig
plain = record {
  allow = unset;
  seed_path = some "/srv/seed.key";
  seed_role = none;
  musebook_signing_mode = none;
  key_derivation = none;
}

plain_starts : check_wallet_root plain [] ≡ started []
unfolding check_wallet_root judge_markers identity_seed_markers seed_path_markers seed_file_role
    lower occurs_in ends_with base_name last_part starts_with after_prefix
plain_starts = refl

check_wallet_root_starts_example : (◌≡◌ {A = List Marker} [] []) × IsClean plain []
check_wallet_root_starts_example =
    check_wallet_root_starts plain [] [] refl (inr (inl refl, inl refl)) plain_starts

abbrev header : List String
header = "# spellbook-seed-role: identity" ∷ "00ff" ∷ []

header_role : seed_file_role header ≡ some identity
unfolding seed_file_role starts_with after_prefix
header_role = refl
