-- ===== src/SeedRole/Refusal.antt =====
-- What a start of the daemon shows of its seed.
use mathlib.Core.Option.{some-injective}
use spellbook.Prelude.{
  String, ◌≡◌, ◌≢◌, refl, ap, ◌∙◌, sym, ◌⊎◌, inl, inr, Bool, true, false, Option-cases, Option,
  none, some, List, [], ◌∷◌, ◌++◌, ◌||◌, ◌==◌, text_IsKey, arith, eq_iff, if◌then◌else◌,
}
use spellbook.Prelude.Options.{not-true, if_false}
use spellbook.Prelude.Text.{lower}
use spellbook.SeedRole.Paths.{occurs_in, ends_with, base_name}
use mathlib.Core.List.{append-nil}
use spellbook.SeedRole.{
  identity, seed_file_role, Marker, SeedConfig, unset, is_bool, is_text, is_identity, bad_role,
  marker_if, seed_path_markers, identity_seed_markers, started, allow_of, has_path, is_kdf,
  judge_markers, check_wallet_root,
}

judge-started :
    (cfg : SeedConfig) (allow : Bool) (found : Option (List Marker)) (ms : List Marker)
    → judge_markers cfg allow found ≡ started ms
    → (found ≡ some ms)
      × ((is_text "wallet" cfg.seed_role ≡ true)
            ⊎ ((is_kdf cfg.key_derivation ≡ true) × (allow ≡ false))
          → ms ≡ [])
unfolding judge_markers
judge-started cfg allow none ms h = cc
judge-started cfg allow (some []) ms h = (ground arith, λ c. ground arith)
judge-started cfg allow (some (m ∷ found)) ms h = (ground arith, λ c. ground arith)

-- The file's path names no identity seed.
abbrev pub IsPlain : Option String → Type 0
IsPlain none = Unit {0}
IsPlain (some path) =
    (occurs_in "musebook" (lower path) ≡ false)
    × (base_name (lower path) ≢ ".env")
    × (ends_with ".env" (base_name (lower path)) ≡ false)
    × (occurs_in "agent_ed25519" (base_name (lower path)) ≡ false)

-- Nothing in the config, the file's header and its path marks an identity seed.
pub record IsClean (cfg : SeedConfig) (lines : List String) : Type 0 where
  pub role : cfg.seed_role ≢ some "identity"
  pub mode : cfg.musebook_signing_mode ≢ some "daemon"
  pub header : seed_file_role lines ≢ some identity
  pub path : IsPlain cfg.seed_path

-- The config calls the seed the wallet's; or the KDF, which is the default, roots the wallets, and the
-- override is absent or false.
abbrev pub IsGuarded : SeedConfig → Type 0
IsGuarded cfg =
    (cfg.seed_role ≡ some "wallet")
    ⊎ (((cfg.key_derivation ≡ none) ⊎ (cfg.key_derivation ≡ some "kdf"))
        × ((cfg.allow ≡ unset) ⊎ (cfg.allow ≡ is_bool false)))

marker_if-nil :
    (t : Bool) (m : Marker) (ms : List Marker) → marker_if t m ++ ms ≡ [] → (t ≡ false) × (ms ≡ [])
marker_if-nil true m ms h = cc
marker_if-nil false m ms h = (refl, h)

unless-some :
    {A : Type 0} (t : Bool) (x : Option A) (a : A)
    → (if t then none else x) ≡ some a
    → (t ≡ false) × (x ≡ some a)
unless-some true x a h = cc
unless-some false x a h = (refl, h)

is_text-false : (s : String) (o : Option String) → is_text s o ≡ false → o ≢ some s
is_text-false s none h e = cc
is_text-false s (some t) h e = ground (arith, eq_iff s t)

path-IsPlain : (o : Option String) → has_path o ≡ true → seed_path_markers o ≡ [] → IsPlain o
unfolding seed_path_markers
path-IsPlain none p h = tt
path-IsPlain (some path) p h =
    let norm = lower path in
    let base = base_name norm in
    let full : (path == "") ≡ false = not-true _ p in
    let (musebook, h) = marker_if-nil (occurs_in "musebook" norm) _ _ (if_false _ _ _ _ full h) in
    let (env, h) = marker_if-nil (base == ".env" || ends_with ".env" base) _ _ h in
    let (key, _) = marker_if-nil (occurs_in "agent_ed25519" base) _ [] (append-nil _ ∙ h) in
    (musebook, λ e. ground (arith, eq_iff base ".env"), ground (arith, env), key)

markers-IsClean :
    (cfg : SeedConfig) (lines : List String)
    → has_path cfg.seed_path ≡ true
    → identity_seed_markers cfg lines ≡ some []
    → IsClean cfg lines
unfolding identity_seed_markers
markers-IsClean cfg lines p h =
    let (_, h) = unless-some (bad_role cfg.seed_role) _ _ h in
    let h = some-injective _ _ h in
    let (role, h) = marker_if-nil (is_text "identity" cfg.seed_role) _ _ h in
    let (mode, h) = marker_if-nil (is_text "daemon" cfg.musebook_signing_mode) _ _ h in
    let (header, h) = marker_if-nil (is_identity (seed_file_role lines)) _ _ h in
    record {
      role = is_text-false "identity" cfg.seed_role role;
      mode = is_text-false "daemon" cfg.musebook_signing_mode mode;
      header = λ e. cc (rw e at header);
      path = path-IsPlain cfg.seed_path p h;
    }

root-started :
    (cfg : SeedConfig) (lines : List String) (ms : List Marker)
    → has_path cfg.seed_path ≡ true
    → check_wallet_root cfg lines ≡ started ms
    → (identity_seed_markers cfg lines ≡ some ms)
      × ((is_text "wallet" cfg.seed_role ≡ true)
            ⊎ ((is_kdf cfg.key_derivation ≡ true) × (allow_of cfg.allow ≡ some false))
          → ms ≡ [])
unfolding check_wallet_root
root-started cfg lines ms path h = elim (Option-cases (allow_of cfg.allow)) [
  | inl bad ↦ absurd (ground arith)
  | inr (allow, good) ↦
      let judged : judge_markers cfg allow (identity_seed_markers cfg lines) ≡ started ms =
        ground arith in
      let (found, clean) = judge-started cfg allow (identity_seed_markers cfg lines) ms judged in
      (
        found,
        λ c. clean (elim c [
          | inl role ↦ inl role
          | inr (kdf, off) ↦ inr (kdf, some-injective allow false (sym good ∙ off))
        ]),
      )
]

-- A daemon that starts with a seed file, where the config calls the seed the wallet's, or where the
-- KDF, which is the default, roots the wallets and the override is absent or false, has no sign of an
-- identity seed: not in the config's role and signing mode, the file's header, or its path.
pub check_wallet_root_starts :
    (cfg : SeedConfig) (lines : List String) (ms : List Marker)
    → has_path cfg.seed_path ≡ true
    → IsGuarded cfg
    → check_wallet_root cfg lines ≡ started ms
    → (ms ≡ []) × IsClean cfg lines
check_wallet_root_starts cfg lines ms path g h =
    let (found, clean) = root-started cfg lines ms path h in
    let none_found = clean (elim g [
      | inl wallet ↦ inl (rw wallet refl)
      | inr (kdf, allow) ↦ inr (
        elim kdf [ inl e ↦ rw e refl | inr e ↦ rw e refl ],
        elim allow [ inl e ↦ rw e refl | inr e ↦ rw e refl ],
      )
    ]) in
    (none_found, markers-IsClean cfg lines path (found ∙ ap some none_found))
