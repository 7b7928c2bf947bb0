-- ===== src/Abi/Arguments.antt =====
-- The arguments of a call in src/spellbook/abi.py, there and back.
use mathlib.Core.Option.{some-injective}
use spellbook.Prelude.{
  All, ℕ, ◌+◌, ◌≡◌, refl, ap, subst, ◌∙◌, Bool, true, false, ◌&&◌, ◌||◌, Option, none, some, ◌==◌,
  number_IsKey, List, [], ◌∷◌, length, arith, if◌then◌else◌,
}
use spellbook.Prelude.Options.{◌>>=◌, bind-some, bind_of, bind_same, guard-some}
use spellbook.Streamable.Bytes.{Bytes}
use spellbook.Streamable.Utf8.{Text}
use spellbook.Abi.Values.{Kind, Dims, Value, raw, Values, nil, cons, count, coerce_bytes}
use spellbook.Abi.Types.{parse_types, is_dynamic}
use spellbook.Abi.Encode.{encode_value, encode_sequence, encode_pairs, encode_args}
use spellbook.Abi.Decode.{
  decode_at, Head, ready, deferred, read_sequence, resolve, decode_sequence, decode_abi,
}
use spellbook.Abi.Decode.Spans.{read_number}
use spellbook.Abi.Stands.{StandsAt-whole}
use spellbook.Abi.Singles.{in_bounds, decode_word-encode_single}
use spellbook.Abi.Widths.{IsBounded, parse_types-IsBounded}
use spellbook.Abi.Layout.{Placed, IsOneWord, encode_sequence-Placed}
use spellbook.Abi.Arrays.{Encodes}
use spellbook.Abi.RoundTrip.{canonical, is_scalar, is_readable, encode_value-Encodes}

-- The dynamic arrays of a type are of words or of dynamic elements.
abbrev is_shaped : Kind → Dims → Bool
is_shaped kind [] = true
is_shaped kind (none ∷ dims) = is_shaped kind dims && (is_scalar dims || is_dynamic kind dims)
is_shaped kind (some dim ∷ dims) = is_shaped kind dims

-- The head of an argument of the type is one word.
abbrev pub IsPlain : Kind × Dims → Type 0
IsPlain (kind, dims) = is_shaped kind dims && (is_scalar dims || is_dynamic kind dims) ≡ true

-- The same of a type whose width there is.
abbrev IsArgument : Kind × Dims → Type 0
IsArgument (kind, dims) = is_readable kind dims && (is_scalar dims || is_dynamic kind dims) ≡ true

is_shaped-is_readable :
    (kind : Kind) (dims : Dims)
    → in_bounds kind ≡ true
    → is_shaped kind dims ≡ true
    → is_readable kind dims ≡ true
is_shaped-is_readable kind [] ok h = ok
is_shaped-is_readable kind (none ∷ dims) ok h =
    ground (arith, is_shaped-is_readable kind dims ok (ground arith))
is_shaped-is_readable kind (some dim ∷ dims) ok h = is_shaped-is_readable kind dims ok h

IsPlain-IsArgument :
    (types : List (Kind × Dims)) → All IsBounded types → All IsPlain types → All IsArgument types
IsPlain-IsArgument [] ok h = tt
IsPlain-IsArgument ((kind, dims) ∷ types) ok h = (
  ground (arith, is_shaped-is_readable kind dims ok.0 (ground arith)),
  IsPlain-IsArgument types ok.1 h.1,
)

unfoldable pub canonical_args : List (Kind × Dims) → Values → Option Values
unfolding canonical
canonical_args [] nil = some nil
canonical_args ((kind, dims) ∷ types) (cons v vs) = do
  c ← canonical kind dims v
  cs ← canonical_args types vs
  some (cons c cs)
canonical_args _ _ = none

-- Each type with the bytes of its argument and what they are decoded to.
abbrev ArgsRead : Bytes → List (Kind × Dims) → List (Bytes × Bool) → Values → Type 0
ArgsRead blob [] [] nil = Unit {0}
ArgsRead blob ((kind, dims) ∷ types) ((e, dyn) ∷ ps) (cons c cs) =
    (is_dynamic kind dims ≡ dyn)
    × Encodes kind dims blob e c
    × IsOneWord (e, dyn)
    × ArgsRead blob types ps cs
ArgsRead blob _ _ _ = ⊥

encode_value-IsOneWord :
    (kind : Kind) (dims : Dims) (v : Value) (e : Bytes) (c : Value)
    → IsArgument (kind, dims)
    → encode_value kind dims v ≡ some e
    → canonical kind dims v ≡ some c
    → IsOneWord (e, is_dynamic kind dims)
unfolding encode_value canonical is_dynamic
encode_value-IsOneWord kind [] v e c ok h k fixed =
    (decode_word-encode_single kind v e c (ground arith) fixed h k).0
encode_value-IsOneWord kind (d ∷ dims) v e c ok h k fixed = absurd (ground arith)

encode_pairs-ArgsRead :
    (blob : Bytes) (types : List (Kind × Dims)) (values : Values) (ps : List (Bytes × Bool))
    (cs : Values)
    → All IsArgument types
    → encode_pairs types values ≡ some ps
    → canonical_args types values ≡ some cs
    → ArgsRead blob types ps cs
unfolding encode_pairs canonical_args
encode_pairs-ArgsRead blob [] nil ps cs ok h k =
    subst (λ ps. ArgsRead blob [] ps cs) (some-injective [] ps h)
      (subst (ArgsRead blob [] []) (some-injective nil cs k) tt)
encode_pairs-ArgsRead blob [] (cons v vs) ps cs ok h k = absurd cc
encode_pairs-ArgsRead blob (t ∷ types) nil ps cs ok h k = absurd cc
encode_pairs-ArgsRead blob ((kind, dims) ∷ types) (cons v vs) ps cs ok h k =
    let (e, v_e, more) = bind-some (encode_value kind dims v) _ ps h in
    let (rest, vs_rest, ps_eq) = bind-some (encode_pairs types vs) _ ps more in
    let (c, v_c, others) = bind-some (canonical kind dims v) _ cs k in
    let (ds, vs_ds, cs_eq) = bind-some (canonical_args types vs) _ cs others in
    subst (λ ps. ArgsRead blob ((kind, dims) ∷ types) ps cs)
      (some-injective ((e, is_dynamic kind dims) ∷ rest) ps ps_eq)
      (subst (ArgsRead blob ((kind, dims) ∷ types) ((e, is_dynamic kind dims) ∷ rest))
        (some-injective (cons c ds) cs cs_eq)
        (
          refl,
          encode_value-Encodes kind dims blob (ground arith) v e c v_e v_c,
          encode_value-IsOneWord kind dims v e c ok.0 v_e v_c,
          encode_pairs-ArgsRead blob types vs rest ds ok.1 vs_rest vs_ds,
        ))

ArgsRead-IsOneWord :
    (blob : Bytes) (types : List (Kind × Dims)) (ps : List (Bytes × Bool)) (cs : Values)
    → ArgsRead blob types ps cs
    → All IsOneWord ps
ArgsRead-IsOneWord blob [] [] cs args = tt
ArgsRead-IsOneWord blob [] (p ∷ ps) cs args = absurd args
ArgsRead-IsOneWord blob (t ∷ types) [] cs args = tt
ArgsRead-IsOneWord blob (t ∷ types) (p ∷ ps) nil args = absurd args
ArgsRead-IsOneWord blob (t ∷ types) (p ∷ ps) (cons c cs) (dyn, enc, one, args) =
    (one, ArgsRead-IsOneWord blob types ps cs args)

read_sequence-ArgsRead :
    (blob : Bytes) (base at : ℕ) (types : List (Kind × Dims)) (ps : List (Bytes × Bool))
    (cs : Values)
    → ArgsRead blob types ps cs
    → Placed blob base at ps
    → (heads : List Head) × (read_sequence types blob at ≡ some heads)
      × (resolve blob base heads ≡ some cs)
unfolding read_sequence resolve
read_sequence-ArgsRead blob base at [] [] nil args placed = ([], refl, refl)
read_sequence-ArgsRead blob base at [] [] (cons c cs) args placed = absurd args
read_sequence-ArgsRead blob base at [] (p ∷ ps) cs args placed = absurd args
read_sequence-ArgsRead blob base at (t ∷ types) [] cs args placed = absurd args
read_sequence-ArgsRead blob base at (t ∷ types) (p ∷ ps) nil args placed = absurd args
read_sequence-ArgsRead blob base at ((kind, dims) ∷ types) ((e, true) ∷ ps) (cons c cs)
      (dyn, enc, one, args) (off, at_off, stands, placed) =
    let elem = enc (base + off) stands in
    let (heads, read, resolved) =
      read_sequence-ArgsRead blob base (at + 32) types ps cs args placed in
    (
      deferred kind dims off ∷ heads,
      ap
            (λ t.
              if t
              then (read_number blob at >>= λ off. read_sequence types blob (at + 32) >>= λ heads.
                  some (deferred kind dims off ∷ heads))
              else (decode_at kind dims blob at >>= λ r.
                  read_sequence types blob r.1 >>= λ heads. some (ready r.0 ∷ heads)))
            dyn
          ∙ bind_of (read_number blob at) _ off at_off
          ∙ bind_of (read_sequence types blob (at + 32)) _ heads read,
      bind_of (decode_at kind dims blob (base + off)) _ (c, elem.next) elem.decoded
          ∙ bind_of (resolve blob base heads) _ cs resolved,
    )
read_sequence-ArgsRead blob base at ((kind, dims) ∷ types) ((e, false) ∷ ps) (cons c cs)
      (fixed, enc, one, args) (stands, placed) =
    let elem = enc at stands in
    let (heads, read, resolved) =
      read_sequence-ArgsRead blob base (at + length e) types ps cs args placed in
    (
      ready c ∷ heads,
      ap
            (λ t.
              if t
              then (read_number blob at >>= λ off. read_sequence types blob (at + 32) >>= λ heads.
                  some (deferred kind dims off ∷ heads))
              else (decode_at kind dims blob at >>= λ r.
                  read_sequence types blob r.1 >>= λ heads. some (ready r.0 ∷ heads)))
            fixed
          ∙ bind_of (decode_at kind dims blob at) _ (c, elem.next) elem.decoded
          ∙ bind_of (read_sequence types blob elem.next) _ heads
              (ap (read_sequence types blob) (elem.inline fixed) ∙ read),
      bind_of (resolve blob base heads) _ cs resolved,
    )

-- Arguments whose heads are single words are decoded again, each in its canonical form.
pub decode_sequence-encode_pairs :
    (types : List (Kind × Dims)) (values : Values) (ps : List (Bytes × Bool)) (b : Bytes)
    (cs : Values)
    → All IsArgument types
    → encode_pairs types values ≡ some ps
    → encode_sequence ps ≡ some b
    → canonical_args types values ≡ some cs
    → decode_sequence types b 0 0 ≡ some cs
unfolding decode_sequence
decode_sequence-encode_pairs types values ps b cs ok h ps_b k =
    let args = encode_pairs-ArgsRead b types values ps cs ok h k in
    let (heads, read, resolved) = read_sequence-ArgsRead b 0 0 types ps cs args (
      encode_sequence-Placed b 0 ps b (ArgsRead-IsOneWord b types ps cs args) ps_b
        (StandsAt-whole b)) in
    bind_of (read_sequence types b 0) _ heads read ∙ resolved

-- What `encode_args` gives for arguments that have a canonical form, whose heads are single words and
-- whose dynamic arrays are of words or of dynamic elements, `decode_abi` decodes to these canonical
-- forms. An address has one where its digits are those of 20 bytes.
pub decode_abi-encode_args :
    (types : List Text) (parsed : List (Kind × Dims)) (values : Values) (b : Bytes) (cs : Values)
    → parse_types types ≡ some parsed
    → All IsPlain parsed
    → encode_args types values ≡ some b
    → canonical_args parsed values ≡ some cs
    → decode_abi types (raw b) ≡ some cs
unfolding encode_args decode_abi coerce_bytes
decode_abi-encode_args types parsed values b cs p ok h k =
    let (counted, more) = guard-some (length types == count values) _ b h in
    let pairs = bind_same (parse_types types) _ parsed b p more in
    let (ps, v_ps, ps_b) = bind-some (encode_pairs parsed values) encode_sequence b pairs in
    let bounded = IsPlain-IsArgument parsed (parse_types-IsBounded types parsed p) ok in
    bind_of (parse_types types) _ parsed p
    ∙ decode_sequence-encode_pairs parsed values ps b cs bounded v_ps ps_b k
