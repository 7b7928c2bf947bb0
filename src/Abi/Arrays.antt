-- ===== src/Abi/Arrays.antt =====
-- The loops of the decoder of src/spellbook/abi.py over the elements of an array.
use spellbook.Prelude.{
  All, ℕ, ◌+◌, ◌≡◌, refl, ap, subst, ◌∙◌, Bool, true, false, some, List, [], ◌∷◌, length,
  length-append, arith,
}
use spellbook.Prelude.Options.{◌>>=◌, bind_of}
use spellbook.Streamable.Bytes.{Bytes}
use spellbook.Abi.Values.{Kind, Dims, Value, Values, nil, cons}
use spellbook.Abi.Types.{is_dynamic}
use spellbook.Abi.Encode.{join_elems}
use spellbook.Abi.Decode.{
  decode_at, decode_word, decode_words, decode_inline, read_heads, decode_heads,
}
use spellbook.Abi.Decode.Spans.{read_number, read_word, span_from, elem_span, max}
use spellbook.Abi.Stands.{StandsAt, StandsAt-left, StandsAt-right, read_word-StandsAt}
use spellbook.Abi.Layout.{Placed, IsOneWord, AllRead}

-- What is decoded at a position where some bytes stand, and where it ends.
pub record ReadsAs (kind : Kind) (dims : Dims) (blob : Bytes) (at : ℕ) (b : Bytes) (c : Value)
    : Type 0 where
  pub next : ℕ
  pub decoded : decode_at kind dims blob at ≡ some (c, next)
  pub inline : is_dynamic kind dims ≡ false → next ≡ at + length b
  pub span : ℕ
  pub spanned : elem_span kind dims blob at ≡ some span

-- The bytes are those of a value, wherever they stand.
abbrev pub Encodes : Kind → Dims → Bytes → Bytes → Value → Type 0
Encodes kind dims blob b c = (at : ℕ) → StandsAt blob at b → ReadsAs kind dims blob at b c

module _ (kind : Kind) (dims : Dims) (blob : Bytes) where
  pub decode_dyn_elems-AllRead :
      (base at : ℕ) (ps : List (Bytes × Bool)) (cs : Values)
      → AllRead (Encodes kind dims blob) true ps cs
      → Placed blob base at ps
      → (heads : List ℕ) × (read_heads blob at (length ps) ≡ some heads)
        × (decode_heads (decode_at kind dims blob) base heads ≡ some cs)
  unfolding read_heads decode_heads
  decode_dyn_elems-AllRead base at [] nil all placed = ([], refl, refl)
  decode_dyn_elems-AllRead base at [] (cons c cs) all placed = absurd all
  decode_dyn_elems-AllRead base at (p ∷ ps) nil all placed = absurd all
  decode_dyn_elems-AllRead base at ((e, false) ∷ ps) (cons c cs) all placed = absurd cc
  decode_dyn_elems-AllRead base at ((e, true) ∷ ps) (cons c cs) (d, q, all)
        (off, at_off, stands, placed) =
      let elem = q (base + off) stands in
      let (heads, read, decoded) = decode_dyn_elems-AllRead base (at + 32) ps cs all placed in
      (
        off ∷ heads,
        bind_of (read_number blob at) _ off at_off
            ∙ bind_of (read_heads blob (at + 32) (length ps)) _ heads read,
        bind_of (decode_at kind dims blob (base + off)) _ (c, elem.next) elem.decoded
            ∙ bind_of (decode_heads (decode_at kind dims blob) base heads) _ cs decoded,
      )

  pub span_from-AllRead :
      (base at : ℕ) (ps : List (Bytes × Bool)) (cs : Values) (end : ℕ)
      → AllRead (Encodes kind dims blob) true ps cs
      → Placed blob base at ps
      → (span : ℕ) × (span_from (elem_span kind dims blob) blob base at (length ps) end ≡ some span)
  unfolding span_from
  span_from-AllRead base at [] nil end all placed = (end, refl)
  span_from-AllRead base at [] (cons c cs) end all placed = absurd all
  span_from-AllRead base at (p ∷ ps) nil end all placed = absurd all
  span_from-AllRead base at ((e, false) ∷ ps) (cons c cs) end all placed = absurd cc
  span_from-AllRead base at ((e, true) ∷ ps) (cons c cs) end (d, q, all)
        (off, at_off, stands, placed) =
      let elem = q (base + off) stands in
      let (span, spanned) =
        span_from-AllRead base (at + 32) ps cs (max end (off + elem.span)) all placed in
      (
        span,
        bind_of (read_number blob at) _ off at_off
            ∙ bind_of (elem_span kind dims blob (base + off)) _ elem.span elem.spanned
            ∙ spanned,
      )

  pub decode_inline-AllRead :
      is_dynamic kind dims ≡ false
      → (at : ℕ) (ps : List (Bytes × Bool)) (cs : Values)
      → AllRead (Encodes kind dims blob) false ps cs
      → StandsAt blob at (join_elems ps)
      → decode_inline (decode_at kind dims blob) at (length ps)
        ≡ some (cs, at + length (join_elems ps))
  unfolding decode_inline join_elems
  decode_inline-AllRead fixed at [] nil all stands = ap (λ n. some (nil, n)) (omega arith)
  decode_inline-AllRead fixed at [] (cons c cs) all stands = absurd all
  decode_inline-AllRead fixed at (p ∷ ps) nil all stands = absurd all
  decode_inline-AllRead fixed at ((e, dyn) ∷ ps) (cons c cs) (d, q, all) stands =
      let elem = q at (StandsAt-left blob at e (join_elems ps) stands) in
      let rest =
        decode_inline-AllRead fixed (at + length e) ps cs all
          (StandsAt-right blob at e (join_elems ps) stands) in
      bind_of (decode_at kind dims blob at) _ (c, elem.next) elem.decoded
      ∙ ap
          (λ n.
            decode_inline (decode_at kind dims blob) n (length ps) >>= λ r. some (cons c r.0, r.1))
          (elem.inline fixed)
      ∙ bind_of (decode_inline (decode_at kind dims blob) (at + length e) (length ps)) _
          (cs, at + length e + length (join_elems ps)) rest
      ∙ ap (λ n. some (cons c cs, n)) (omega (arith, length-append e (join_elems ps)))

-- A word that holds a value of a kind.
abbrev pub IsWordOf : Kind → Bytes → Value → Type 0
IsWordOf kind e c = (length e ≡ 32) × (decode_word kind e ≡ some c)

pub decode_words-AllRead :
    (kind : Kind) (blob : Bytes) (base at : ℕ) (ps : List (Bytes × Bool)) (cs : Values)
    → AllRead (IsWordOf kind) false ps cs
    → Placed blob base at ps
    → decode_words kind blob at (length ps) ≡ some cs
unfolding decode_words
decode_words-AllRead kind blob base at [] nil all placed = refl
decode_words-AllRead kind blob base at [] (cons c cs) all placed = absurd all
decode_words-AllRead kind blob base at (p ∷ ps) nil all placed = absurd all
decode_words-AllRead kind blob base at ((e, true) ∷ ps) (cons c cs) all placed = absurd cc
decode_words-AllRead kind blob base at ((e, false) ∷ ps) (cons c cs) (d, (e_32, e_c), all)
      (stands, placed) =
    let rest =
      decode_words-AllRead kind blob base (at + 32) ps cs all
        (subst (λ n. Placed blob base (at + n) ps) e_32 placed) in
    bind_of (read_word blob at) _ e (read_word-StandsAt blob at e e_32 stands)
    ∙ bind_of (decode_word kind e) _ c e_c
    ∙ bind_of (decode_words kind blob (at + 32) (length ps)) _ cs rest

-- The heads of dynamic elements are words, and so are those of words.
pub AllRead-dynamic :
    (Q : Bytes → Value → Type 0) (ps : List (Bytes × Bool)) (cs : Values)
    → AllRead Q true ps cs
    → All IsOneWord ps
AllRead-dynamic Q [] cs all = tt
AllRead-dynamic Q (p ∷ ps) nil all = absurd all
AllRead-dynamic Q ((e, d) ∷ ps) (cons c cs) all =
    (λ d_false. absurd cc, AllRead-dynamic Q ps cs all.2)

pub AllRead-words :
    (kind : Kind) (ps : List (Bytes × Bool)) (cs : Values)
    → AllRead (IsWordOf kind) false ps cs
    → All IsOneWord ps
AllRead-words kind [] cs all = tt
AllRead-words kind (p ∷ ps) nil all = absurd all
AllRead-words kind ((e, d) ∷ ps) (cons c cs) all =
    (λ d_false. all.1.0, AllRead-words kind ps cs all.2)
