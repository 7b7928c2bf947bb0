-- ===== src/Abi/Encode.antt =====
-- The encoders of src/spellbook/abi.py. `none` is an error: an AbiError, or what Python itself raises.
use spellbook.Prelude.{
  ℕ, zero, suc, ◌+◌, ◌-◌, ◌*◌, ◌%◌, ◌^◌, Bool, true, false, not, Option, none, some, List, [], ◌∷◌,
  ◌++◌, length, take, leb, ◌==◌, number_IsKey, if◌then◌else◌,
}
use spellbook.Prelude.Options.{◌>>=◌, ◌>>◌, guard}
use spellbook.Streamable.Bytes.{Bytes}
use spellbook.Streamable.Values.{enc_uint}
use spellbook.Streamable.Utf8.{Text, utf8_encode}
use spellbook.Prelude.Codes.{from_hex, after_0x, to_hex, with_0x}
use spellbook.Abi.Values.{
  Kind, address, bool, uint, int, bytes_n, bytes, string, Dims, ℤ, pos, negsuc, Value, flag, str,
  items, Values, nil, cons, count, coerce_bytes, uint_of, int_of,
}
use spellbook.Abi.Types.{is_dynamic, parse_types}

-- `n.to_bytes(32, "big")`
unfoldable pub word : ℕ → Option Bytes
unfolding enc_uint
word n = enc_uint 32 n

abbrev pub zeros : ℕ → Bytes
zeros zero = []
zeros (suc n) = 0 ∷ zeros n

-- `v % (1 << 256)`
unfoldable pub twos_complement : ℤ → ℕ
twos_complement (pos n) = n % 2 ^ 256
twos_complement (negsuc n) = 2 ^ 256 - 1 - n % 2 ^ 256

-- The bytes of an address text.
unfoldable pub address_bytes : Value → Option Bytes
unfolding from_hex
address_bytes (str s) = if length s == 42 then (after_0x s >>= λ digits. from_hex digits) else none
address_bytes _ = none

-- `_encode_address`
unfoldable pub encode_address : Value → Option Bytes
unfolding address_bytes
encode_address v = address_bytes v >>= λ b. some (zeros 12 ++ b)

-- `_encode_bytes_n`
unfoldable pub encode_bytes_n : Value → ℕ → Option Bytes
unfolding coerce_bytes
encode_bytes_n v n =
    coerce_bytes v >>= λ b. if length b == n then some (b ++ zeros (32 - n)) else none

-- `_encode_dynamic_bytes`
unfoldable pub encode_dynamic_bytes : Bytes → Option Bytes
unfolding word
encode_dynamic_bytes b =
    word (length b) >>= λ w. some (w ++ (b ++ zeros ((32 - length b % 32) % 32)))

-- The part of `_encode_value` below the arrays.
unfoldable pub encode_single : Kind → Value → Option Bytes
unfolding word uint_of int_of encode_address encode_bytes_n encode_dynamic_bytes coerce_bytes
    twos_complement utf8_encode
encode_single (uint bits) v = uint_of bits v >>= λ n. word n
encode_single (int bits) v = int_of bits v >>= λ z. word (twos_complement z)
encode_single address v = encode_address v
encode_single bool (flag b) = word (if b then 1 else 0)
encode_single bool _ = none
encode_single (bytes_n n) v = encode_bytes_n v n
encode_single bytes v = coerce_bytes v >>= λ b. encode_dynamic_bytes b
encode_single string (str s) = utf8_encode s >>= λ b. encode_dynamic_bytes b
encode_single string _ = none

-- The heads and the tails of `_encode_sequence`, from the offset of the next tail on.
unfoldable pub sequence_from : ℕ → List (Bytes × Bool) → Option (Bytes × Bytes)
unfolding word
sequence_from offset [] = some ([], [])
sequence_from offset ((e, true) ∷ pairs) = do
  w ← word offset
  (head, tail) ← sequence_from (offset + length e) pairs
  some (w ++ head, e ++ tail)
sequence_from offset ((e, false) ∷ pairs) = do
  (head, tail) ← sequence_from offset pairs
  some (e ++ head, tail)

-- `_encode_sequence`
unfoldable pub encode_sequence : List (Bytes × Bool) → Option Bytes
unfolding sequence_from
encode_sequence pairs = sequence_from (32 * length pairs) pairs >>= λ s. some (s.0 ++ s.1)

unfoldable pub encode_each : (Value → Option Bytes) → Bool → Values → Option (List (Bytes × Bool))
encode_each f sub_dyn nil = some []
encode_each f sub_dyn (cons v vs) = do
  e ← f v
  rest ← encode_each f sub_dyn vs
  some ((e, sub_dyn) ∷ rest)

-- `b"".join(elems)`
unfoldable pub join_elems : List (Bytes × Bool) → Bytes
join_elems [] = []
join_elems (e ∷ es) = e.0 ++ join_elems es

-- The elements of an array, below its length.
unfoldable pub encode_elems : Option ℕ → Bool → List (Bytes × Bool) → Option Bytes
unfolding encode_sequence join_elems word
encode_elems none sub_dyn pairs = do
  body ← encode_sequence pairs
  w ← word (length pairs)
  some (w ++ body)
encode_elems (some n) true pairs = encode_sequence pairs
encode_elems (some n) false pairs = some (join_elems pairs)

abbrev pub fits_dim : Option ℕ → ℕ → Bool
fits_dim none n = true
fits_dim (some dim) n = n == dim

-- `_encode_value`
unfoldable pub encode_value : Kind → Dims → Value → Option Bytes
unfolding encode_single encode_each encode_elems is_dynamic
encode_value kind [] v = encode_single kind v
encode_value kind (dim ∷ dims) (items vs) = do
  guard (fits_dim dim (count vs))
  pairs ← encode_each (encode_value kind dims) (is_dynamic kind dims) vs
  encode_elems dim (is_dynamic kind dims) pairs
encode_value kind (dim ∷ dims) _ = none

-- The loop of `encode_args`, on types and values of one number.
unfoldable pub encode_pairs : List (Kind × Dims) → Values → Option (List (Bytes × Bool))
unfolding encode_value is_dynamic
encode_pairs [] nil = some []
encode_pairs ((kind, dims) ∷ types) (cons v vs) = do
  e ← encode_value kind dims v
  rest ← encode_pairs types vs
  some ((e, is_dynamic kind dims) ∷ rest)
encode_pairs _ _ = none

-- `encode_args`
unfoldable pub encode_args : List Text → Values → Option Bytes
unfolding parse_types encode_pairs encode_sequence
encode_args types values = do
  guard (length types == count values)
  parsed ← parse_types types
  pairs ← encode_pairs parsed values
  encode_sequence pairs

-- The texts with a comma between them.
unfoldable pub commas : List Text → Text
commas [] = []
commas (t ∷ []) = t
commas (t ∷ u ∷ ts) = t ++ 44 ∷ commas (u ∷ ts)

-- `encode_function_call`, from the name and the types on; `keccak` is the digest of a library.
unfoldable pub encode_function_call : (Bytes → Bytes) → Text → List Text → Values → Option Text
unfolding encode_args utf8_encode commas parse_types to_hex
encode_function_call keccak [] types args = none
encode_function_call keccak (c ∷ name) types args = do
  checked ← parse_types types
  sig ← utf8_encode ((c ∷ name) ++ 40 ∷ (commas types ++ 41 ∷ []))
  body ← encode_args types args
  some (with_0x (to_hex (take 4 (keccak sig) ++ body)))

-- `encode_constructor`, from the types on.
unfoldable pub encode_constructor : Value → List Text → Values → Option Text
unfolding encode_args coerce_bytes parse_types to_hex
encode_constructor bytecode types args = do
  code ← coerce_bytes bytecode
  guard (not (length code == 0))
  guard (leb (length code) 49152)
  checked ← parse_types types
  body ← encode_args types args
  some (with_0x (to_hex (code ++ body)))
