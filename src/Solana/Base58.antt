-- ===== src/Solana/Base58.antt =====
-- `b58encode` and `b58decode` of src/spellbook/solana.py. A text is its code points.
pub mod Digits
pub mod RoundTrip
use spellbook.Prelude.{
  ℕ, zero, suc, ◌+◌, ◌*◌, ◌/◌, ◌%◌, Option, none, some, List, [], ◌∷◌, ◌++◌, ◌==◌, number_IsKey,
  get_elem?, map, if◌then◌else◌, Bool, true, false,
}
use spellbook.Prelude.Codes.{codes}
use spellbook.Prelude.Options.{◌>>=◌}
use spellbook.Streamable.Bytes.{Bytes}
use spellbook.Streamable.Utf8.{Text}

abbrev pub b58_alphabet : Text
b58_alphabet = codes "123456789ABCDEFGHJKLMNPQRSTUVWXYZabcdefghijkmnopqrstuvwxyz"

-- The digits of a number, without a leading zero: the loop of `b58encode`, and the bytes of
-- `n.to_bytes((n.bit_length() + 7) // 8, "big")`.
unfoldable pub digits_from : ℕ → ℕ → ℕ → List ℕ
digits_from base zero n = []
digits_from base (suc fuel) n = elim (n == 0) [
  | true ↦ []
  | false ↦ digits_from base fuel (n / base) ++ n % base ∷ []
]

unfoldable pub digits : ℕ → ℕ → List ℕ
unfolding digits_from
digits base n = digits_from base n n

-- The number of some digits after `n`.
unfoldable pub value_onto : ℕ → ℕ → List ℕ → ℕ
value_onto base n [] = n
value_onto base n (d ∷ ds) = value_onto base (n * base + d) ds

-- How many of the first items are `z`.
unfoldable pub leading : ℕ → List ℕ → ℕ
leading z [] = 0
leading z (x ∷ xs) = if x == z then suc (leading z xs) else 0

abbrev pub copies : ℕ → ℕ → List ℕ
copies zero z = []
copies (suc n) z = z ∷ copies n z

-- `_B58_ALPHABET[r]`
unfoldable pub b58_char : ℕ → ℕ
b58_char d = elim (get_elem? b58_alphabet d) [ none ↦ 0 | some c ↦ c ]

abbrev pub index_from : ℕ → Text → ℕ → Option ℕ
index_from i [] c = none
index_from i (a ∷ s) c = if a == c then some i else index_from (suc i) s c

-- `_B58_INDEX.get(c)`
unfoldable pub b58_index : ℕ → Option ℕ
b58_index c = index_from 0 b58_alphabet c

unfoldable pub b58encode : Bytes → Text
unfolding digits value_onto leading b58_char
b58encode b = copies (leading 0 b) 49 ++ map b58_char (digits 58 (value_onto 256 0 b))

unfoldable pub b58_number : ℕ → Text → Option ℕ
unfolding b58_index
b58_number n [] = some n
b58_number n (c ∷ s) = b58_index c >>= λ i. b58_number (n * 58 + i) s

unfoldable pub b58decode : Text → Option Bytes
unfolding b58_number digits leading
b58decode [] = none
b58decode (c ∷ s) =
    b58_number 0 (c ∷ s) >>= λ n. some (copies (leading 49 (c ∷ s)) 0 ++ digits 256 n)
