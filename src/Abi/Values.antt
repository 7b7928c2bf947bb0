-- ===== src/Abi/Values.antt =====
-- The types and values of src/spellbook/abi.py, and how a value is read as a number or as bytes.
use spellbook.Prelude.{
  ℕ, zero, suc, ◌-◌, ◌^◌, Bool, ◌&&◌, Option, none, some, List, [], ◌∷◌, ltb, ◌==◌, number_IsKey,
  if◌then◌else◌,
}
use spellbook.Prelude.Codes.{is_decimal, decimal_from, from_hex, after_0x, strip}
use spellbook.Streamable.Bytes.{Bytes}
use spellbook.Streamable.Utf8.{Text}

-- `kind` and `size` of `_parse_type`.
pub data Kind : Type 0 where
  address bool : Kind
  uint int bytes_n : ℕ → Kind
  bytes string : Kind

-- A dynamic dimension is `none`. The outermost stands first.
abbrev pub Dims : Type 0
Dims = List (Option ℕ)

-- `negsuc n` is -(n + 1).
pub data ℤ : Type 0 where
  pos negsuc : ℕ → ℤ

-- A value that has come over the socket, or that was decoded.
mutual
  pub data Value : Type 0 where
    number : ℤ → Value
    flag : Bool → Value
    str : Text → Value
    raw : Bytes → Value
    items : Values → Value

  pub data Values : Type 0 where
    nil : Values
    cons : Value → Values → Values

abbrev pub count : Values → ℕ
count nil = 0
count (cons v vs) = suc (count vs)

-- `_coerce_bytes`
unfoldable pub coerce_bytes : Value → Option Bytes
unfolding from_hex
coerce_bytes (raw b) = some b
coerce_bytes (str s) = elim (after_0x s) [ none ↦ none | some digits ↦ from_hex digits ]
coerce_bytes _ = none

-- The range check of `_encode_uint`, and its reading of a decimal text.
unfoldable pub uint_of : ℕ → Value → Option ℕ
unfolding decimal_from
uint_of bits (number (pos n)) = if ltb n (2 ^ bits) then some n else none
uint_of bits (str s) =
    let n = decimal_from 0 s in if is_decimal s && ltb n (2 ^ bits) then some n else none
uint_of bits _ = none

-- `s.lstrip("-")` and how many it strips.
abbrev pub minuses : Text → ℕ × Text
minuses [] = (0, [])
minuses (c ∷ s) = if c == 45 then (suc (minuses s).0, (minuses s).1) else (0, c ∷ s)

abbrev pub negate : ℕ → ℤ
negate zero = pos 0
negate (suc n) = negsuc n

-- `-int(s[1:]) if neg else int(s)` of digits after minus signs: `int` itself takes one sign.
abbrev pub signed : ℕ → ℕ → Option ℤ
signed zero n = some (pos n)
signed (suc zero) n = some (negate n)
signed (suc (suc zero)) n = some (pos n)
signed (suc (suc (suc k))) n = none

abbrev pub in_range : ℕ → ℤ → Bool
in_range bits (pos n) = ltb n (2 ^ (bits - 1))
in_range bits (negsuc n) = ltb n (2 ^ (bits - 1))

-- The same of `_encode_int`.
unfoldable pub int_of : ℕ → Value → Option ℤ
unfolding decimal_from
int_of bits (number z) = if in_range bits z then some z else none
int_of bits (str s) =
    let (signs, digits) = minuses (strip s) in
    elim (signed signs (decimal_from 0 digits)) [
      | none ↦ none
      | some z ↦ if is_decimal digits && in_range bits z then some z else none
    ]
int_of bits _ = none
