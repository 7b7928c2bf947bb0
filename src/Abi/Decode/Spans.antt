-- ===== src/Abi/Decode/Spans.antt =====
-- `_read_word`, `_array_span` and `_elem_span` of src/spellbook/abi.py.
use spellbook.Prelude.{
  ℕ, zero, suc, ◌+◌, ◌*◌, ◌/◌, Bool, Option, none, some, [], ◌∷◌, length, take, drop, ltb,
  if◌then◌else◌,
}
use spellbook.Prelude.Options.{◌>>=◌}
use spellbook.Streamable.Bytes.{Bytes, from_be}
use spellbook.Abi.Values.{Kind, Dims}
use spellbook.Abi.Types.{is_dynamic, is_variable}

-- `_read_word`
unfoldable pub read_word : Bytes → ℕ → Option Bytes
read_word blob at = let w = take 32 (drop at blob) in if ltb (length w) 32 then none else some w

-- `int.from_bytes(_read_word(data, pos), "big")`
unfoldable pub read_number : Bytes → ℕ → Option ℕ
unfolding read_word from_be
read_number blob at = read_word blob at >>= λ w. some (from_be w)

abbrev pub max : ℕ → ℕ → ℕ
max a b = if ltb a b then b else a

-- The loop of `_array_span`, over the span of an element.
unfoldable pub span_from : (ℕ → Option ℕ) → Bytes → ℕ → ℕ → ℕ → ℕ → Option ℕ
unfolding read_number
span_from span blob seq at zero end = some end
span_from span blob seq at (suc ln) end = do
  off ← read_number blob at
  elem ← span (seq + off)
  span_from span blob seq (at + 32) ln (max end (off + elem))

-- `_array_span`: `dynamic` says what the elements are.
unfoldable pub array_span : Bool → (ℕ → Option ℕ) → Bytes → ℕ → ℕ → Option ℕ
unfolding span_from
array_span dynamic span blob seq ln =
    if dynamic then span_from span blob seq seq ln (ln * 32) else some (ln * 32)

-- `_elem_span`
unfoldable pub elem_span : Kind → Dims → Bytes → ℕ → Option ℕ
unfolding is_dynamic read_number array_span
elem_span kind [] blob at =
    if is_variable kind
    then (read_number blob at >>= λ ln. some (32 + (ln + 31) / 32 * 32))
    else some 32
elem_span kind (none ∷ dims) blob at = do
  ln ← read_number blob at
  span ← array_span (is_dynamic kind dims) (elem_span kind dims blob) blob (at + 32) ln
  some (32 + span)
elem_span kind (some dim ∷ dims) blob at =
    array_span (is_dynamic kind dims) (elem_span kind dims blob) blob at dim
