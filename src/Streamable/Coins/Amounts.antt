-- ===== src/Streamable/Coins/Amounts.antt =====
-- The amount that goes into a coin id: `int_to_bytes`.
use native.Mathlib.Nat.{pow-suc}
use spellbook.Prelude.{
  ℕ, zero, suc, ◌/◌, ◌^◌, ◌≤◌, ◌<◌, ◌≡◌, refl, ◌∙◌, sym, subst, true, false, [], ◌∷◌, arith, leb,
  ◌==◌, number_IsKey, Bool-cases, inl, inr,
}
use spellbook.Streamable.Bytes.{Bytes, be, from_be, from_be_onto, from_be-be}
use spellbook.Streamable.Coins.{byte_length, unsigned_form, int_to_bytes}

byte_length-fits : (fuel n : ℕ) → n ≤ fuel → n < 256 ^ byte_length fuel n
unfolding byte_length
byte_length-fits zero n le = omega arith
byte_length-fits (suc fuel) n le =
    elim (Bool-cases (n == 0)) as (λ _. n < 256 ^ byte_length (suc fuel) n) [
      | inl is_zero ↦
          subst (λ t. n < 256 ^ (elim t [ true ↦ 0 | false ↦ suc (byte_length fuel (n / 256)) ]))
            (sym is_zero) (ground arith)
      | inr more ↦
          subst (λ t. n < 256 ^ (elim t [ true ↦ 0 | false ↦ suc (byte_length fuel (n / 256)) ]))
            (sym more)
            (omega (
              arith,
              pow-suc 256 (byte_length fuel (n / 256)),
              byte_length-fits fuel (n / 256) (ground arith),
            ))
    ]

-- The high bit of the first byte is clear.
abbrev pub IsUnsigned : Bytes → Type 0
IsUnsigned [] = Unit {0}
IsUnsigned (b ∷ raw) = b < 128

unsigned_form-value : (raw : Bytes) → from_be (unsigned_form raw) ≡ from_be raw
unfolding unsigned_form from_be from_be_onto
unsigned_form-value [] = refl
unsigned_form-value (b ∷ raw) = elim (Bool-cases (leb 128 b)) [
  | inl high ↦ rw high refl
  | inr low ↦ rw low refl
]

unsigned_form-IsUnsigned : (raw : Bytes) → IsUnsigned (unsigned_form raw)
unfolding unsigned_form
unsigned_form-IsUnsigned [] = tt
unsigned_form-IsUnsigned (b ∷ raw) = elim (Bool-cases (leb 128 b)) [
  | inl high ↦ rw high (omega arith)
  | inr low ↦ rw low (ground arith)
]

-- The bytes of an amount are its big-endian value, and the high bit of the first of them is clear.
pub int_to_bytes-IsUnsigned : (n : ℕ) → (from_be (int_to_bytes n) ≡ n) × IsUnsigned (int_to_bytes n)
unfolding int_to_bytes
int_to_bytes-IsUnsigned n = elim (Bool-cases (n == 0)) [
  | inl is_zero ↦ rw is_zero (unfold from_be from_be_onto in ground arith, tt)
  | inr more ↦ rw more (
    unsigned_form-value (be (byte_length n n) n)
        ∙ from_be-be (byte_length n n) n (byte_length-fits n n (omega arith)),
    unsigned_form-IsUnsigned (be (byte_length n n) n),
  )
]
