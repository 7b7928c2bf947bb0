-- ===== src/Abi/Types.antt =====
-- The type strings of src/spellbook/abi.py: `_parse_type`, `_width` and `_is_dynamic`.
use spellbook.Prelude.{
  ℕ, ◌%◌, Bool, true, false, ◌&&◌, Option, none, some, List, [], ◌∷◌, leb, ltb, ◌==◌, number_IsKey,
  bytes_IsKey, if◌then◌else◌,
}
use spellbook.Prelude.Options.{◌>>=◌}
use spellbook.Streamable.Utf8.{Text}
use spellbook.Prelude.Codes.{is_decimal, decimal_from}
use spellbook.Abi.Values.{Kind, address, bool, uint, int, bytes_n, bytes, string, Dims}
use mathlib.Core.List.{reverse}

-- "uint", "int", "bytes", "address", "bool", "string".
abbrev pub uint_text : Text
uint_text = 117 ∷ 105 ∷ 110 ∷ 116 ∷ []

abbrev pub int_text : Text
int_text = 105 ∷ 110 ∷ 116 ∷ []

abbrev pub bytes_text : Text
bytes_text = 98 ∷ 121 ∷ 116 ∷ 101 ∷ 115 ∷ []

abbrev pub address_text : Text
address_text = 97 ∷ 100 ∷ 100 ∷ 114 ∷ 101 ∷ 115 ∷ 115 ∷ []

abbrev pub bool_text : Text
bool_text = 98 ∷ 111 ∷ 111 ∷ 108 ∷ []

abbrev pub string_text : Text
string_text = 115 ∷ 116 ∷ 114 ∷ 105 ∷ 110 ∷ 103 ∷ []

-- What follows a prefix, if the text has it.
abbrev pub after : Text → Text → Option Text
after [] s = some s
after (p ∷ ps) (c ∷ s) = if p == c then after ps s else none
after (p ∷ ps) [] = none

-- `_width`, of the digits after the name.
unfoldable pub width : Text → ℕ → ℕ → ℕ → Option ℕ
unfolding decimal_from
width digits low high step =
    let n = decimal_from 0 digits in
    if is_decimal digits && (leb low n && leb n high && n % step == 0) then some n else none

-- The dimension between two brackets: none at all is a dynamic one.
unfoldable pub dim_of : Text → Option (Option ℕ)
unfolding decimal_from
dim_of [] = some none
dim_of (c ∷ s) =
    let n = decimal_from 0 (c ∷ s) in if is_decimal (c ∷ s) && ltb 0 n then some (some n) else none

-- The loop of `_parse_type`, on the text read from its end. Inside a pair of brackets, the first
-- argument is what stands before the closing one.
unfoldable pub strip_dims : Option Text → Text → Option (Dims × Text)
unfolding dim_of
strip_dims none [] = some ([], [])
strip_dims none (c ∷ s) = if c == 93 then strip_dims (some []) s else some ([], reverse (c ∷ s))
strip_dims (some digits) [] = none
strip_dims (some digits) (c ∷ s) =
    if c == 91
    then (do dim ← dim_of digits; (dims, base) ← strip_dims none s; some (dim ∷ dims, base))
    else strip_dims (some (c ∷ digits)) s

-- A name with a width.
unfoldable pub sized_kind : Text → Option Kind
unfolding width
sized_kind base = elim (after uint_text base) [
  | some digits ↦ width digits 8 256 8 >>= λ n. some (uint n)
  | none ↦ elim (after int_text base) [
    | some digits ↦ width digits 8 256 8 >>= λ n. some (int n)
    | none ↦ elim (after bytes_text base) [
      | some digits ↦ width digits 1 32 1 >>= λ n. some (bytes_n n)
      | none ↦ none
    ]
  ]
]

unfoldable pub kind_of : Text → Option Kind
unfolding sized_kind
kind_of base =
    if base == address_text
    then some address
    else if base == bool_text
    then some bool
    else if base == string_text
    then some string
    else if base == bytes_text
    then some bytes
    else if base == uint_text
    then some (uint 256)
    else if base == int_text
    then some (int 256)
    else sized_kind base

-- `_parse_type`
unfoldable pub parse_type : Text → Option (Kind × Dims)
unfolding strip_dims kind_of
parse_type [] = none
parse_type (c ∷ s) = do
  (dims, base) ← strip_dims none (reverse (c ∷ s))
  kind ← kind_of base
  some (kind, dims)

unfoldable pub parse_types : List Text → Option (List (Kind × Dims))
unfolding parse_type
parse_types [] = some []
parse_types (t ∷ ts) = do ty ← parse_type t; rest ← parse_types ts; some (ty ∷ rest)

abbrev pub is_variable : Kind → Bool
is_variable bytes = true
is_variable string = true
is_variable _ = false

-- `_is_dynamic`
unfoldable pub is_dynamic : Kind → Dims → Bool
is_dynamic kind [] = is_variable kind
is_dynamic kind (none ∷ dims) = true
is_dynamic kind (some n ∷ dims) = is_dynamic kind dims
