-- ===== src/SeedRole.antt =====
-- src/spellbook/seedrole.py: the refusal of a wallet root that is a Musebook identity seed. A seed file
-- is its lines, each stripped of the white space around it.
pub mod Paths
pub mod Refusal
use Paths.{starts_with, occurs_in, ends_with, base_name}
use spellbook.Prelude.{
  String, Bool, true, false, not, ◌&&◌, ◌||◌, Option, none, some, List, [], ◌∷◌, ◌++◌, ◌==◌,
  text_IsKey, if◌then◌else◌,
}
use spellbook.Prelude.Text.{lower}

pub data SeedRole : Type 0 where
  identity wallet : SeedRole

unfoldable pub seed_file_role : List String → Option SeedRole
unfolding starts_with
seed_file_role [] = none
seed_file_role (s ∷ lines) =
    let rest = seed_file_role lines in
    if not (starts_with "#" s)
    then rest
    else if s == "# spellbook-seed-role: identity"
    then some identity
    else if s == "# spellbook-seed-role: wallet"
    then some wallet
    else rest

pub data Marker : Type 0 where
  names_musebook is_env_file names_identity_key : Marker
  role_identity signs_identity header_identity : Marker

abbrev pub marker_if : Bool → Marker → List Marker
marker_if t m = if t then m ∷ [] else []

unfoldable pub seed_path_markers : Option String → List Marker
unfolding lower occurs_in ends_with base_name
seed_path_markers none = []
seed_path_markers (some path) =
    if path == ""
    then []
    else let norm = lower path in
      let base = base_name norm in
      marker_if (occurs_in "musebook" norm) names_musebook
      ++ (marker_if (base == ".env" || ends_with ".env" base) is_env_file
          ++ marker_if (occurs_in "agent_ed25519" base) names_identity_key)

-- The value of `allow_identity_seed_as_wallet_root`.
pub data Allow : Type 0 where
  unset : Allow
  is_bool : Bool → Allow
  is_other : Allow

-- The keys of the config that are read; `none` is a missing key.
pub record SeedConfig : Type 0 where
  pub allow : Allow
  pub seed_path : Option String
  pub seed_role : Option String
  pub musebook_signing_mode : Option String
  pub key_derivation : Option String

abbrev pub is_text : String → Option String → Bool
is_text s none = false
is_text s (some t) = s == t

abbrev pub is_identity : Option SeedRole → Bool
is_identity (some identity) = true
is_identity _ = false

-- `role is not None and role not in SEED_ROLES`
abbrev pub bad_role : Option String → Bool
bad_role none = false
bad_role (some role) = not (role == "identity" || role == "wallet")

-- `none` is the ValueError. A file that was not inspected has no lines.
unfoldable pub identity_seed_markers : SeedConfig → List String → Option (List Marker)
unfolding seed_file_role seed_path_markers
identity_seed_markers cfg lines =
    if bad_role cfg.seed_role
    then none
    else some (
        marker_if (is_text "identity" cfg.seed_role) role_identity
        ++ (marker_if (is_text "daemon" cfg.musebook_signing_mode) signs_identity
            ++ (marker_if (is_identity (seed_file_role lines)) header_identity
                ++ seed_path_markers cfg.seed_path)))

pub data Startup : Type 0 where
  started : List Marker → Startup
  contradicted refused : List Marker → Startup
  bad_config : Startup

abbrev pub allow_of : Allow → Option Bool
allow_of unset = some false
allow_of (is_bool b) = some b
allow_of is_other = none

abbrev pub has_path : Option String → Bool
has_path none = false
has_path (some path) = not (path == "")

-- `cfg.get("key_derivation", "kdf") == "kdf"`
abbrev pub is_kdf : Option String → Bool
is_kdf none = true
is_kdf (some s) = s == "kdf"

abbrev pub is_empty : List Marker → Bool
is_empty [] = true
is_empty (m ∷ ms) = false

unfoldable pub judge_markers : SeedConfig → Bool → Option (List Marker) → Startup
judge_markers cfg allow none = bad_config
judge_markers cfg allow (some ms) =
    if is_text "wallet" cfg.seed_role && not (is_empty ms)
    then contradicted ms
    else if not (is_kdf cfg.key_derivation)
    then started ms
    else if not (is_empty ms) && not allow
    then refused ms
    else started ms

unfoldable pub check_wallet_root : SeedConfig → List String → Startup
unfolding judge_markers identity_seed_markers
check_wallet_root cfg lines = elim (allow_of cfg.allow) [
  | none ↦ bad_config
  | some allow ↦
      if not (has_path cfg.seed_path)
      then started []
      else judge_markers cfg allow (identity_seed_markers cfg lines)
]
