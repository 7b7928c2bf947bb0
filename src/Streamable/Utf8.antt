-- ===== src/Streamable/Utf8.antt =====
-- The UTF-8 that relay/streamable.py writes and reads its texts in: Python's `str.encode` and
-- `bytes.decode`. A text is the list of its code points.
pub mod Laws
use spellbook.Prelude.{
  ℕ, zero, suc, ◌+◌, ◌-◌, ◌*◌, ◌/◌, ◌%◌, Bool, ◌&&◌, ◌||◌, Option, none, some, List, [], ◌∷◌, ltb,
  leb, length, if◌then◌else◌,
}
use spellbook.Streamable.Bytes.{Bytes, Parser, ◌>>=◌, ◌>>◌, pure, require, Encoded, ◌<>◌}
use spellbook.Streamable.Values.{enc_uint, dec_uint, lift, join}
use spellbook.Streamable.Bytes.{read}

abbrev pub Text : Type 0
Text = List ℕ

-- A code point; a surrogate has no encoding.
unfoldable pub enc_char : ℕ → Encoded
enc_char c =
    if ltb c 128
    then some (c ∷ [])
    else if ltb c 2048
    then some ((192 + c / 64) ∷ (128 + c % 64) ∷ [])
    else if leb 55296 c && ltb c 57344
    then none
    else if ltb c 65536
    then some ((224 + c / 4096) ∷ (128 + c / 64 % 64) ∷ (128 + c % 64) ∷ [])
    else if ltb c 1114112
    then some
        ((240 + c / 262144) ∷ (128 + c / 4096 % 64) ∷ (128 + c / 64 % 64) ∷ (128 + c % 64) ∷ [])
    else none

-- `s.encode("utf-8")`
unfoldable pub utf8_encode : Text → Encoded
utf8_encode s = join enc_char s

-- The six bits of a continuation byte.
unfoldable pub tail_bits : Parser ℕ
tail_bits [] = none
tail_bits (b ∷ s) = if leb 128 b && ltb b 192 then some (b - 128, s) else none

-- The shortest form of a code point that is no surrogate.
unfoldable pub char_in : ℕ → ℕ → ℕ → Parser ℕ
char_in low high c = require (leb low c && ltb c high && (ltb c 55296 || leb 57344 c)) >> pure c

unfoldable pub dec_char : Parser ℕ
dec_char [] = none
dec_char (b ∷ s) =
    if ltb b 128
    then some (b, s)
    else if ltb b 192
    then none
    else if ltb b 224
    then (tail_bits >>= λ x. char_in 128 2048 ((b - 192) * 64 + x)) s
    else if ltb b 240
    then (tail_bits >>= λ x. tail_bits >>= λ y. char_in 2048 65536 ((b - 224) * 4096 + x * 64 + y))
        s
    else if ltb b 248
    then (tail_bits >>= λ x. tail_bits >>= λ y.
          tail_bits >>= λ z. char_in 65536 1114112 ((b - 240) * 262144 + x * 4096 + y * 64 + z))
        s
    else none

unfoldable pub dec_chars : ℕ → Bytes → Option Text
dec_chars fuel [] = some []
dec_chars zero (b ∷ s) = none
dec_chars (suc fuel) (b ∷ s) = elim (dec_char (b ∷ s)) [
  | none ↦ none
  | some (c, rest) ↦ elim (dec_chars fuel rest) [ none ↦ none | some cs ↦ some (c ∷ cs) ]
]

-- `raw.decode("utf-8")`: a character takes a byte at least.
unfoldable pub utf8_decode : Bytes → Option Text
utf8_decode raw = dec_chars (length raw) raw

-- `enc_u32(len(raw)) + raw`
unfoldable pub counted : Encoded → Encoded
counted none = none
counted (some raw) = enc_uint 4 (length raw) <> some raw

unfoldable pub enc_str : Text → Encoded
enc_str s = counted (utf8_encode s)

unfoldable pub dec_str : Parser Text
dec_str = dec_uint 4 >>= λ n. read n >>= λ raw. lift (utf8_decode raw)
