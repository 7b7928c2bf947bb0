-- ===== src/Abi/RoundTrip.antt =====
-- What src/spellbook/abi.py encodes, it decodes again.
use mathlib.Core.Option.{some-injective}
use spellbook.Prelude.{
  ℕ, ◌≡◌, subst, ◌∙◌, inl, inr, Bool, true, false, ◌&&◌, ◌||◌, Bool-cases, Option, none, some, ◌==◌,
  number_IsKey, List, [], ◌∷◌, arith,
}
use spellbook.Prelude.Options.{◌>>=◌, bind-some, guard-some}
use spellbook.Streamable.Bytes.{Bytes}
use spellbook.Abi.Values.{Kind, Dims, Value, number, flag, raw, str, items, Values, count}
use spellbook.Abi.Types.{is_dynamic, is_variable}
use spellbook.Abi.Encode.{
  join_elems, encode_single, encode_each, encode_elems, encode_value, fits_dim,
}
use spellbook.Abi.Singles.{in_bounds, canonical_single, decode_word-encode_single}
use spellbook.Abi.Layout.{AllRead, canonical_each, encode_each-AllRead}
use spellbook.Abi.Arrays.{Encodes, IsWordOf}
use spellbook.Abi.Nested.{
  dynamic_list-Encodes, dynamic_row-Encodes, inline_row-Encodes, word_list-Encodes,
}
use spellbook.Abi.Positions.{fixed-Encodes, variable_single-Encodes}

-- The value that the decoder gives for a value that was encoded.
unfoldable pub canonical : Kind → Dims → Value → Option Value
unfolding canonical_single canonical_each
canonical kind [] v = canonical_single kind v
canonical kind (dim ∷ dims) (items vs) =
    canonical_each (canonical kind dims) vs >>= λ cs. some (items cs)
canonical kind (dim ∷ dims) _ = none

abbrev pub is_scalar : Dims → Bool
is_scalar [] = true
is_scalar (dim ∷ dims) = false

-- A dynamic array has elements that are dynamic or single words.
abbrev pub is_readable : Kind → Dims → Bool
is_readable kind [] = in_bounds kind
is_readable kind (none ∷ dims) = is_readable kind dims && (is_scalar dims || is_dynamic kind dims)
is_readable kind (some dim ∷ dims) = is_readable kind dims

-- What the encoding of an array is made of.
array_parts :
    (kind : Kind) (dim : Option ℕ) (dims : Dims) (v : Value) (b : Bytes) (c : Value)
    → encode_value kind (dim ∷ dims) v ≡ some b
    → canonical kind (dim ∷ dims) v ≡ some c
    → (vs cs : Values) × (ps : List (Bytes × Bool)) × (fits_dim dim (count vs) ≡ true)
      × (encode_each (encode_value kind dims) (is_dynamic kind dims) vs ≡ some ps)
      × (canonical_each (canonical kind dims) vs ≡ some cs)
      × (encode_elems dim (is_dynamic kind dims) ps ≡ some b)
      × (items cs ≡ c)
unfolding encode_value canonical
array_parts kind dim dims (items vs) b c h k =
    let (fits, more) = guard-some (fits_dim dim (count vs)) _ b h in
    let (ps, vs_ps, ps_b) =
      bind-some (encode_each (encode_value kind dims) (is_dynamic kind dims) vs) _ b more in
    let (cs, vs_cs, cs_c) = bind-some (canonical_each (canonical kind dims) vs) _ c k in
    (vs, cs, ps, fits, vs_ps, vs_cs, ps_b, some-injective (items cs) c cs_c)
array_parts kind dim dims (number z) b c h k = absurd cc
array_parts kind dim dims (flag x) b c h k = absurd cc
array_parts kind dim dims (str s) b c h k = absurd cc
array_parts kind dim dims (raw r) b c h k = absurd cc

single-Encodes :
    (kind : Kind) (blob : Bytes) (v : Value) (b : Bytes) (c : Value)
    → in_bounds kind ≡ true
    → encode_single kind v ≡ some b
    → canonical_single kind v ≡ some c
    → Encodes kind [] blob b c
single-Encodes kind blob v b c ok h k = elim (Bool-cases (is_variable kind)) [
  | inl var ↦ variable_single-Encodes kind blob v b c var h k
  | inr fixed ↦
      fixed-Encodes kind blob b c fixed (decode_word-encode_single kind v b c ok fixed h k)
]

-- An element with its encoder and its canonical form.
abbrev EncodesAll : Kind → Dims → Bytes → Type 0
EncodesAll kind dims blob =
    (v : Value) (b : Bytes) (c : Value)
    → encode_value kind dims v ≡ some b
    → canonical kind dims v ≡ some c
    → Encodes kind dims blob b c

same_count : {m n : ℕ} → (m == n) ≡ true → m ≡ n
same_count h = ground arith

list-Encodes_dynamic :
    (kind : Kind) (dims : Dims) (blob : Bytes)
    → is_dynamic kind dims ≡ true
    → EncodesAll kind dims blob
    → EncodesAll kind (none ∷ dims) blob
list-Encodes_dynamic kind dims blob dyn ih v b c h k =
    let (vs, cs, ps, fits, vs_ps, vs_cs, ps_b, c_eq) = array_parts kind none dims v b c h k in
    let (all, n) =
      encode_each-AllRead (Encodes kind dims blob) (encode_value kind dims) (canonical kind dims) ih
        (is_dynamic kind dims) vs ps cs vs_ps vs_cs in
    subst (Encodes kind (none ∷ dims) blob b) c_eq (
      dynamic_list-Encodes kind dims blob ps cs b dyn
        (subst (λ t. AllRead (Encodes kind dims blob) t ps cs) dyn all)
        (subst (λ t. encode_elems none t ps ≡ some b) dyn ps_b))

list-Encodes_words :
    (kind : Kind) (blob : Bytes)
    → is_dynamic kind [] ≡ false
    → in_bounds kind ≡ true
    → EncodesAll kind (none ∷ []) blob
list-Encodes_words kind blob fixed ok v b c h k =
    let (vs, cs, ps, fits, vs_ps, vs_cs, ps_b, c_eq) = array_parts kind none [] v b c h k in
    let (all, n) =
      encode_each-AllRead (IsWordOf kind) (encode_value kind []) (canonical kind [])
        (λ v e c h k.
          unfold is_dynamic encode_value canonical in
          decode_word-encode_single kind v e c ok fixed h k)
        (is_dynamic kind []) vs ps cs vs_ps vs_cs in
    subst (Encodes kind (none ∷ []) blob b) c_eq (
      word_list-Encodes kind blob ps cs b fixed
        (subst (λ t. AllRead (IsWordOf kind) t ps cs) fixed all)
        (subst (λ t. encode_elems none t ps ≡ some b) fixed ps_b))

list-Encodes :
    (kind : Kind) (dims : Dims) (blob : Bytes)
    → EncodesAll kind dims blob
    → is_readable kind (none ∷ dims) ≡ true
    → EncodesAll kind (none ∷ dims) blob
list-Encodes kind [] blob ih ok = elim (Bool-cases (is_dynamic kind [])) [
  | inl dyn ↦ list-Encodes_dynamic kind [] blob dyn ih
  | inr fixed ↦ list-Encodes_words kind blob fixed (ground arith)
]
list-Encodes kind (d ∷ dims) blob ih ok =
    list-Encodes_dynamic kind (d ∷ dims) blob (ground arith) ih

row-Encodes :
    (kind : Kind) (dims : Dims) (dim : ℕ) (blob : Bytes)
    → EncodesAll kind dims blob
    → EncodesAll kind (some dim ∷ dims) blob
unfolding encode_elems
row-Encodes kind dims dim blob ih v b c h k =
    let (vs, cs, ps, fits, vs_ps, vs_cs, ps_b, c_eq) = array_parts kind (some dim) dims v b c h k in
    let (all, n) =
      encode_each-AllRead (Encodes kind dims blob) (encode_value kind dims) (canonical kind dims) ih
        (is_dynamic kind dims) vs ps cs vs_ps vs_cs in
    let fits_n = n ∙ same_count fits in
    subst (Encodes kind (some dim ∷ dims) blob b) c_eq (elim (Bool-cases (is_dynamic kind dims)) [
      | inl dyn ↦
          dynamic_row-Encodes kind dims blob ps cs b dyn dim fits_n
            (subst (λ t. AllRead (Encodes kind dims blob) t ps cs) dyn all)
            (subst (λ t. encode_elems (some dim) t ps ≡ some b) dyn ps_b)
      | inr fixed ↦
          inline_row-Encodes kind dims blob ps cs b fixed dim fits_n
            (subst (λ t. AllRead (Encodes kind dims blob) t ps cs) fixed all)
            (some-injective (join_elems ps) b
              (subst (λ t. encode_elems (some dim) t ps ≡ some b) fixed ps_b))
    ])

-- An encoded value is decoded, in its canonical form, wherever its bytes stand.
pub encode_value-Encodes :
    (kind : Kind) (dims : Dims) (blob : Bytes)
    → is_readable kind dims ≡ true
    → EncodesAll kind dims blob
unfolding encode_value canonical
encode_value-Encodes kind [] blob ok v b c h k = single-Encodes kind blob v b c ok h k
encode_value-Encodes kind (none ∷ dims) blob ok v b c h k =
    list-Encodes kind dims blob (encode_value-Encodes kind dims blob (ground arith)) ok v b c h k
encode_value-Encodes kind (some dim ∷ dims) blob ok v b c h k =
    row-Encodes kind dims dim blob (encode_value-Encodes kind dims blob ok) v b c h k
