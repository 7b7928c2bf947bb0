-- ===== src/Abi/Widths.antt =====
-- The widths that `_parse_type` of src/spellbook/abi.py lets through.
use mathlib.Core.Option.{some-injective}
use spellbook.Prelude.{
  All, ℕ, ◌≤◌, ◌≡◌, refl, sym, ap, ◌∙◌, subst, Bool, true, false, Option, none, some, List, [], ◌∷◌,
  ◌==◌, number_IsKey, bytes_IsKey, arith, if◌then◌else◌,
}
use spellbook.Prelude.Options.{◌>>=◌, bind-some}
use spellbook.Streamable.Utf8.{Text}
use spellbook.Abi.Values.{Kind, uint, int, bytes_n, address, bool, string, bytes, Dims}
use spellbook.Abi.Types.{
  uint_text, int_text, bytes_text, address_text, bool_text, string_text, after, width, strip_dims,
  sized_kind, kind_of, parse_type, parse_types,
}
use spellbook.Abi.Singles.{in_bounds}
use mathlib.Core.List.{reverse}

width-bounds :
    (digits : Text) (low high step n : ℕ)
    → width digits low high step ≡ some n
    → (low ≤ n) × (n ≤ high)
unfolding width
width-bounds digits low high step n h = (ground arith, ground arith)

-- A kind that is one of a width.
width-kind :
    (digits : Text) (low high step : ℕ) (f : ℕ → Kind) (kind : Kind)
    → ((n : ℕ) → low ≤ n → n ≤ high → in_bounds (f n) ≡ true)
    → (width digits low high step >>= λ n. some (f n)) ≡ some kind
    → in_bounds kind ≡ true
width-kind digits low high step f kind ok h =
    let (n, w, e) = bind-some (width digits low high step) (λ n. some (f n)) kind h in
    let (above, within) = width-bounds digits low high step n w in
    ap in_bounds (sym (some-injective (f n) kind e)) ∙ ok n above within

bytes_kind :
    (digits : Option Text) (kind : Kind)
    → (elim digits [ none ↦ none | some d ↦ width d 1 32 1 >>= λ n. some (bytes_n n) ]) ≡ some kind
    → in_bounds kind ≡ true
bytes_kind none kind h = absurd cc
bytes_kind (some d) kind h = width-kind d 1 32 1 bytes_n kind (λ n low high. ground arith) h

int_kind :
    (digits others : Option Text) (kind : Kind)
    → (elim digits [
      | some d ↦ width d 8 256 8 >>= λ n. some (int n)
      | none ↦ elim others [ none ↦ none | some d ↦ width d 1 32 1 >>= λ n. some (bytes_n n) ]
    ])
      ≡ some kind
    → in_bounds kind ≡ true
int_kind (some d) others kind h = width-kind d 8 256 8 int kind (λ n low high. ground arith) h
int_kind none others kind h = bytes_kind others kind h

uint_kind :
    (digits ints others : Option Text) (kind : Kind)
    → (elim digits [
      | some d ↦ width d 8 256 8 >>= λ n. some (uint n)
      | none ↦ elim ints [
        | some d ↦ width d 8 256 8 >>= λ n. some (int n)
        | none ↦ elim others [ none ↦ none | some d ↦ width d 1 32 1 >>= λ n. some (bytes_n n) ]
      ]
    ])
      ≡ some kind
    → in_bounds kind ≡ true
uint_kind (some d) ints others kind h =
    width-kind d 8 256 8 uint kind (λ n low high. ground arith) h
uint_kind none ints others kind h = int_kind ints others kind h

sized_kind-in_bounds :
    (base : Text) (kind : Kind) → sized_kind base ≡ some kind → in_bounds kind ≡ true
unfolding sized_kind
sized_kind-in_bounds base kind h =
    uint_kind (after uint_text base) (after int_text base) (after bytes_text base) kind h

-- The first of a row of tests decides.
test_kind :
    (t : Bool) (k kind : Kind) (o : Option Kind)
    → in_bounds k ≡ true
    → (o ≡ some kind → in_bounds kind ≡ true)
    → (if t then some k else o) ≡ some kind
    → in_bounds kind ≡ true
test_kind true k kind o ok rest h = ap in_bounds (sym (some-injective k kind h)) ∙ ok
test_kind false k kind o ok rest h = rest h

kind_of-in_bounds : (base : Text) (kind : Kind) → kind_of base ≡ some kind → in_bounds kind ≡ true
unfolding kind_of
kind_of-in_bounds base kind = test_kind (base == address_text) address kind _ refl (
    test_kind (base == bool_text) bool kind _ refl (
      test_kind (base == string_text) string kind _ refl (
        test_kind (base == bytes_text) bytes kind _ refl (
          test_kind (base == uint_text) (uint 256) kind _ refl (
            test_kind (base == int_text) (int 256) kind _ refl (sized_kind-in_bounds base kind))))))

abbrev pub IsBounded : Kind × Dims → Type 0
IsBounded ty = in_bounds ty.0 ≡ true

parse_type-IsBounded : (t : Text) (ty : Kind × Dims) → parse_type t ≡ some ty → IsBounded ty
unfolding parse_type
parse_type-IsBounded [] ty h = absurd cc
parse_type-IsBounded (c ∷ s) ty h =
    let ((dims, base), stripped, more) = bind-some (strip_dims none (reverse (c ∷ s))) _ ty h in
    let (kind, base_kind, e) = bind-some (kind_of base) (λ kind. some (kind, dims)) ty more in
    subst IsBounded (some-injective (kind, dims) ty e) (kind_of-in_bounds base kind base_kind)

-- Every type that is parsed has a width that its kind can have.
pub parse_types-IsBounded :
    (ts : List Text) (types : List (Kind × Dims))
    → parse_types ts ≡ some types
    → All IsBounded types
unfolding parse_types
parse_types-IsBounded [] types h = subst (All IsBounded) (some-injective [] types h) tt
parse_types-IsBounded (t ∷ ts) types h =
    let (ty, t_ty, more) = bind-some (parse_type t) _ types h in
    let (rest, ts_rest, e) = bind-some (parse_types ts) (λ rest. some (ty ∷ rest)) types more in
    subst (All IsBounded) (some-injective (ty ∷ rest) types e)
      (parse_type-IsBounded t ty t_ty, parse_types-IsBounded ts rest ts_rest)
