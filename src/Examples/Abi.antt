-- ===== src/Examples/Abi.antt =====
-- The contract ABI at concrete types and values.
use spellbook.Prelude.{◌≡◌, refl, ◌++◌, ◌-◌, ◌^◌, ℕ, true, false, none, some, [], ◌∷◌}
use spellbook.Streamable.Bytes.{Bytes, be}
use spellbook.Streamable.Values.{enc_uint}
use spellbook.Streamable.Utf8.{Text}
use spellbook.Prelude.Codes.{from_hex, hex_digit, decimal_from, to_hex, hex_char}
use spellbook.Abi.Values.{
  uint, bytes, pos, negsuc, number, str, raw, items, Values, nil, cons, coerce_bytes, uint_of,
  int_of,
}
use spellbook.Abi.Types.{
  uint_text, bytes_text, parse_type, parse_types, strip_dims, dim_of, kind_of, sized_kind, width,
  is_dynamic,
}
use spellbook.Abi.Encode.{
  zeros, word, encode_args, encode_pairs, encode_value, encode_elems, encode_each, encode_sequence,
  sequence_from, encode_single, encode_dynamic_bytes,
}
use spellbook.Abi.Decode.{hex_value, decode_abi, signed_of}
use spellbook.Abi.Singles.{canonical_single}
use spellbook.Abi.Layout.{canonical_each}
use spellbook.Abi.RoundTrip.{canonical}
use spellbook.Abi.Arguments.{canonical_args, decode_abi-encode_args}

abbrev bytes_list : Text
bytes_list = bytes_text ++ 91 ∷ 93 ∷ []

abbrev uint8 : Text
uint8 = uint_text ++ 56 ∷ []

types_parse : parse_types (bytes_list ∷ uint8 ∷ []) ≡ some ((bytes, none ∷ []) ∷ (uint 8, []) ∷ [])
unfolding parse_types parse_type strip_dims dim_of kind_of sized_kind width decimal_from
types_parse = refl

-- (["0x61"], "7")
abbrev args : Values
args = cons (items (cons (str (48 ∷ 120 ∷ 54 ∷ 49 ∷ [])) nil)) (cons (str (55 ∷ [])) nil)

abbrev small_word : ℕ → Bytes
small_word n = zeros 31 ++ n ∷ []

abbrev calldata : Bytes
calldata =
    small_word 64
    ++ (small_word 7 ++ (small_word 1 ++ (small_word 32 ++ (small_word 1 ++ 97 ∷ zeros 31))))

args_encode : encode_args (bytes_list ∷ uint8 ∷ []) args ≡ some calldata
unfolding encode_args parse_types parse_type strip_dims dim_of kind_of sized_kind width decimal_from
    encode_pairs encode_value encode_elems encode_each encode_sequence sequence_from encode_single
    encode_dynamic_bytes word enc_uint be coerce_bytes from_hex hex_digit uint_of is_dynamic
args_encode = refl

args_canonical :
    canonical_args ((bytes, none ∷ []) ∷ (uint 8, []) ∷ []) args
    ≡ some (cons (items (cons (str (48 ∷ 120 ∷ 54 ∷ 49 ∷ [])) nil)) (cons (number (pos 7)) nil))
unfolding canonical_args canonical canonical_each canonical_single coerce_bytes from_hex hex_digit
    uint_of decimal_from hex_value to_hex hex_char
args_canonical = refl

decode_abi-encode_args_example :
    decode_abi (bytes_list ∷ uint8 ∷ []) (raw calldata)
    ≡ some (cons (items (cons (str (48 ∷ 120 ∷ 54 ∷ 49 ∷ [])) nil)) (cons (number (pos 7)) nil))
unfolding is_dynamic
decode_abi-encode_args_example =
    decode_abi-encode_args (bytes_list ∷ uint8 ∷ []) ((bytes, none ∷ []) ∷ (uint 8, []) ∷ []) args
      calldata (cons (items (cons (str (48 ∷ 120 ∷ 54 ∷ 49 ∷ [])) nil)) (cons (number (pos 7)) nil))
      types_parse (refl, (refl, tt)) args_encode args_canonical

-- "--5" is read as 5.
two_minuses : int_of 8 (str (45 ∷ 45 ∷ 53 ∷ [])) ≡ some (pos 5)
unfolding int_of decimal_from
two_minuses = refl

-- The word 0x80 is decoded as 128 - 2^256 for the type int8.
dirty_int8 : signed_of 8 128 ≡ negsuc (2 ^ 256 - 129)
unfolding signed_of
dirty_int8 = refl

-- Before a dynamic argument, a static array of two words leaves the offset at 64, where its second
-- word ends, though the head is of three words.
static_array_offset :
    encode_sequence ((small_word 1 ++ small_word 2, false) ∷ (small_word 0, true) ∷ [])
    ≡ some (small_word 1 ++ (small_word 2 ++ (small_word 64 ++ small_word 0)))
unfolding encode_sequence sequence_from word enc_uint be
static_array_offset = refl
