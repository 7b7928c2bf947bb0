-- ===== src/Dex/Tokens/Addresses.antt =====
-- The texts that dex.py takes for addresses.
use spellbook.Prelude.{
  ℕ, ◌≡◌, refl, ap, ◌∙◌, Bool, true, false, ◌&&◌, none, some, [], ◌∷◌, ◌==◌, number_IsKey,
  nat_beq_iff, length, arith, if◌then◌else◌,
}
use spellbook.Prelude.Options.{both}
use spellbook.Prelude.Codes.{with_0x}
use spellbook.Streamable.Utf8.{Text}
use spellbook.Dex.Tokens.{is_address, all_hex}

-- `is_address` of a text whose prefix and length are known.
abbrev is_prefixed : Bool → ℕ → Text → Bool
is_prefixed t n s = elim (if t then some s else none) [
  | none ↦ false
  | some digits ↦ n == 42 && all_hex digits
]

is_prefixed-both :
    (t : Bool) (n : ℕ) (s : Text)
    → is_prefixed t n s ≡ true
    → (t ≡ true) × (n ≡ 42) × (all_hex s ≡ true)
is_prefixed-both true n s h = (refl, ground arith, ground arith)
is_prefixed-both false n s h = absurd cc

-- "0x" and forty digits.
pub is_address-digits :
    (a : Text)
    → is_address a ≡ true
    → (s : Text) × (a ≡ with_0x s) × (length s ≡ 40) × (all_hex s ≡ true)
unfolding is_address
is_address-digits [] h = absurd cc
is_address-digits (x ∷ []) h = absurd cc
is_address-digits (x ∷ y ∷ s) h =
    let (front, long, hex) = is_prefixed-both (x == 48 && y == 120) (length (x ∷ y ∷ s)) s h in
    let (zero_x, small_x) = both (x == 48) (y == 120) front in
    (
      s,
      ap (λ x. x ∷ y ∷ s) ((nat_beq_iff x 48).0 zero_x)
          ∙ ap (λ y. 48 ∷ y ∷ s) ((nat_beq_iff y 120).0 small_x),
      omega (arith, long),
      hex,
    )

-- The other way round.
pub with_0x-is_address :
    (s : Text) → length s ≡ 40 → all_hex s ≡ true → is_address (with_0x s) ≡ true
unfolding is_address
with_0x-is_address s long hex = ground (arith, long, hex)
