-- ===== src/Examples/Solana.antt =====
-- Base58 at concrete bytes.
use spellbook.Prelude.{◌≡◌, refl, some, [], ◌∷◌, arith}
use spellbook.Prelude.Codes.{codes}
use spellbook.Solana.Base58.{
  b58encode, b58decode, digits, digits_from, value_onto, leading, b58_char,
}
use spellbook.Solana.Base58.RoundTrip.{b58decode-b58encode}

b58decode-b58encode_example :
    b58decode (b58encode (0 ∷ 0 ∷ 1 ∷ 44 ∷ [])) ≡ some (0 ∷ 0 ∷ 1 ∷ 44 ∷ [])
b58decode-b58encode_example =
    b58decode-b58encode (0 ∷ 0 ∷ 1 ∷ 44 ∷ [])
      (omega arith, (omega arith, (omega arith, (omega arith, tt)))) (omega arith)

-- 300 is five times 58 and ten more.
three_hundred : b58encode (0 ∷ 0 ∷ 1 ∷ 44 ∷ []) ≡ codes "116B"
unfolding b58encode digits digits_from value_onto leading b58_char
three_hundred = refl
