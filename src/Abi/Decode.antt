-- ===== src/Abi/Decode.antt =====
-- The decoders of src/spellbook/abi.py. A position is an offset in the whole data.
pub mod Spans
use spellbook.Prelude.{
  ℕ, zero, suc, ◌+◌, ◌-◌, ◌*◌, ◌/◌, ◌^◌, Bool, true, false, not, Option, none, some, List, [], ◌∷◌,
  length, take, drop, leb, ltb, ◌==◌, number_IsKey, bytes_IsKey, if◌then◌else◌,
}
use spellbook.Prelude.Options.{◌>>=◌, ◌>>◌, guard}
use spellbook.Streamable.Bytes.{Bytes, from_be}
use spellbook.Streamable.Utf8.{Text, utf8_decode}
use spellbook.Prelude.Codes.{to_hex, with_0x}
use spellbook.Abi.Values.{
  Kind, address, bool, uint, int, bytes_n, bytes, string, Dims, ℤ, pos, negsuc, Value, number, flag,
  str, raw, items, Values, nil, cons, coerce_bytes,
}
use spellbook.Abi.Types.{is_dynamic, parse_types}
use spellbook.Abi.Encode.{zeros}
use Spans.{read_word, read_number, array_span, elem_span}

-- `"0x" + raw.hex()`
unfoldable pub hex_value : Bytes → Value
unfolding to_hex
hex_value b = str (with_0x (to_hex b))

-- `v - (1 << 256) if v >= 1 << (size - 1) else v`, of a word.
unfoldable pub signed_of : ℕ → ℕ → ℤ
signed_of bits v = if leb (2 ^ (bits - 1)) v then negsuc (2 ^ 256 - 1 - v) else pos v

-- `_decode_word`
unfoldable pub decode_word : Kind → Bytes → Option Value
unfolding hex_value signed_of from_be
decode_word (uint bits) w =
    let v = from_be w in if ltb v (2 ^ bits) then some (number (pos v)) else none
decode_word (int bits) w = some (number (signed_of bits (from_be w)))
decode_word address w = if take 12 w == zeros 12 then some (hex_value (drop 12 w)) else none
decode_word bool w =
    let v = from_be w in
    if v == 0 then some (flag false) else if v == 1 then some (flag true) else none
decode_word (bytes_n n) w = some (hex_value (take n w))
decode_word bytes w = none
decode_word string w = none

-- The bytes behind a length, as a value of their kind.
unfoldable pub variable_of : Kind → Bytes → Option Value
unfolding hex_value utf8_decode
variable_of string b = utf8_decode b >>= λ s. some (str s)
variable_of bytes b = some (hex_value b)
variable_of _ b = none

-- The branch of `_decode_at` for `bytes` and `string`.
unfoldable pub decode_variable : Kind → Bytes → ℕ → Option (Value × ℕ)
unfolding read_number variable_of
decode_variable kind blob at = do
  ln ← read_number blob at
  guard (leb ln (length (take ln (drop (at + 32) blob))))
  v ← variable_of kind (take ln (drop (at + 32) blob))
  some (v, at + (32 + (ln + 31) / 32 * 32))

-- The part of `_decode_at` below the arrays.
unfoldable pub decode_single : Kind → Bytes → ℕ → Option (Value × ℕ)
unfolding decode_variable decode_word read_word
decode_single bytes blob at = decode_variable bytes blob at
decode_single string blob at = decode_variable string blob at
decode_single kind blob at = do w ← read_word blob at; v ← decode_word kind w; some (v, at + 32)

-- `ln` plain words.
unfoldable pub decode_words : Kind → Bytes → ℕ → ℕ → Option Values
unfolding decode_word read_word
decode_words kind blob at zero = some nil
decode_words kind blob at (suc ln) = do
  w ← read_word blob at
  v ← decode_word kind w
  vs ← decode_words kind blob (at + 32) ln
  some (cons v vs)

-- The loop of `_decode_static_array`, over the decoder of an element.
unfoldable pub decode_inline : (ℕ → Option (Value × ℕ)) → ℕ → ℕ → Option (Values × ℕ)
decode_inline f at zero = some (nil, at)
decode_inline f at (suc dim) = do
  (v, next) ← f at
  (vs, end) ← decode_inline f next dim
  some (cons v vs, end)

-- The heads of `_decode_dyn_elems`.
unfoldable pub read_heads : Bytes → ℕ → ℕ → Option (List ℕ)
unfolding read_number
read_heads blob at zero = some []
read_heads blob at (suc ln) = do
  off ← read_number blob at
  heads ← read_heads blob (at + 32) ln
  some (off ∷ heads)

unfoldable pub decode_heads : (ℕ → Option (Value × ℕ)) → ℕ → List ℕ → Option Values
decode_heads f seq [] = some nil
decode_heads f seq (off ∷ heads) = do
  (v, next) ← f (seq + off)
  vs ← decode_heads f seq heads
  some (cons v vs)

-- `_decode_dyn_elems`, over the decoder of an element.
unfoldable pub decode_dyn_elems : (ℕ → Option (Value × ℕ)) → Bytes → ℕ → ℕ → Option Values
unfolding read_heads decode_heads
decode_dyn_elems f blob seq ln = read_heads blob seq ln >>= λ heads. decode_heads f seq heads

-- `_decode_at`
unfoldable pub decode_at : Kind → Dims → Bytes → ℕ → Option (Value × ℕ)
unfolding is_dynamic read_number array_span elem_span decode_single decode_words decode_inline
    decode_dyn_elems
decode_at kind [] blob at = decode_single kind blob at
decode_at kind (none ∷ dims) blob at = do
  ln ← read_number blob at
  vs ←
      if is_dynamic kind dims
      then decode_dyn_elems (decode_at kind dims blob) blob (at + 32) ln
      else decode_words kind blob (at + 32) ln
  span ← array_span (is_dynamic kind dims) (elem_span kind dims blob) blob (at + 32) ln
  some (items vs, at + 32 + span)
decode_at kind (some dim ∷ dims) blob at =
    if is_dynamic kind dims
    then (do
      vs ← decode_dyn_elems (decode_at kind dims blob) blob at dim
      span ← array_span true (elem_span kind dims blob) blob at dim
      some (items vs, at + span))
    else (do (vs, end) ← decode_inline (decode_at kind dims blob) at dim; some (items vs, end))

-- What the first loop of `_decode_sequence` makes of a type: a value, or the offset of one.
pub data Head : Type 0 where
  ready : Value → Head
  deferred : Kind → Dims → ℕ → Head

-- The first loop of `_decode_sequence`.
unfoldable pub read_sequence : List (Kind × Dims) → Bytes → ℕ → Option (List Head)
unfolding is_dynamic read_number decode_at
read_sequence [] blob at = some []
read_sequence ((kind, dims) ∷ types) blob at =
    if is_dynamic kind dims
    then (do
      off ← read_number blob at
      heads ← read_sequence types blob (at + 32)
      some (deferred kind dims off ∷ heads))
    else (do
      (v, next) ← decode_at kind dims blob at
      heads ← read_sequence types blob next
      some (ready v ∷ heads))

-- Its second loop.
unfoldable pub resolve : Bytes → ℕ → List Head → Option Values
unfolding decode_at
resolve blob base [] = some nil
resolve blob base (ready v ∷ heads) = resolve blob base heads >>= λ vs. some (cons v vs)
resolve blob base (deferred kind dims off ∷ heads) = do
  (v, next) ← decode_at kind dims blob (base + off)
  vs ← resolve blob base heads
  some (cons v vs)

-- `_decode_sequence`
unfoldable pub decode_sequence : List (Kind × Dims) → Bytes → ℕ → ℕ → Option Values
unfolding read_sequence resolve
decode_sequence types blob at base =
    read_sequence types blob at >>= λ heads. resolve blob base heads

-- `decode_abi`
unfoldable pub decode_abi : List Text → Value → Option Values
unfolding coerce_bytes parse_types decode_sequence
decode_abi types data_hex = do
  b ← coerce_bytes data_hex
  parsed ← parse_types types
  decode_sequence parsed b 0 0
