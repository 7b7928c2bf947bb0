-- ===== src/Abi/Nested.antt =====
-- An array of src/spellbook/abi.py whose elements are decoded where they stand.
use mathlib.Core.Option.{some-injective}
use spellbook.Prelude.{
  All, ℕ, ◌+◌, ◌*◌, ◌≡◌, sym, ap, subst, ◌∙◌, Bool, true, false, none, some, List, [], ◌∷◌, ◌++◌,
  length, if◌then◌else◌,
}
use spellbook.Prelude.Options.{◌>>=◌, bind-some, bind_of}
use spellbook.Streamable.Bytes.{Bytes}
use spellbook.Abi.Values.{Kind, Dims, items, Values}
use spellbook.Abi.Types.{is_dynamic}
use spellbook.Abi.Encode.{word, join_elems, encode_sequence, encode_elems}
use spellbook.Abi.Decode.{decode_at, decode_words, decode_inline, read_heads, decode_dyn_elems}
use spellbook.Abi.Decode.Spans.{read_number, array_span, elem_span}
use spellbook.Abi.Stands.{
  StandsAt, StandsAt-left, StandsAt-right, read_number-StandsAt, length-word,
}
use spellbook.Abi.Layout.{Placed, IsOneWord, AllRead, encode_sequence-Placed}
use spellbook.Abi.Arrays.{
  Encodes, IsWordOf, decode_dyn_elems-AllRead, span_from-AllRead, decode_inline-AllRead,
  decode_words-AllRead, AllRead-dynamic, AllRead-words,
}

-- A length and the elements after it.
module _ (blob : Bytes) (ps : List (Bytes × Bool)) (b : Bytes) (dyn : Bool) where
  counted_sequence :
      All IsOneWord ps
      → encode_elems none dyn ps ≡ some b
      → (at : ℕ) → StandsAt blob at b
      → (read_number blob at ≡ some (length ps)) × Placed blob (at + 32) (at + 32) ps
  unfolding encode_elems
  counted_sequence one h at stands =
      let (body, ps_body, more) = bind-some (encode_sequence ps) _ b h in
      let (w, n_w, b_eq) = bind-some (word (length ps)) _ b more in
      let whole = subst (StandsAt blob at) (sym (some-injective (w ++ body) b b_eq)) stands in
      (
        read_number-StandsAt blob at (length ps) w n_w (StandsAt-left blob at w body whole),
        encode_sequence-Placed blob (at + 32) ps body one ps_body (
            subst (λ n. StandsAt blob (at + n) body) (length-word (length ps) w n_w)
              (StandsAt-right blob at w body whole)),
      )

module _ (kind : Kind) (dims : Dims) (blob : Bytes) (ps : List (Bytes × Bool)) (cs : Values)
    (b : Bytes) where
  dynamic_section :
      AllRead (Encodes kind dims blob) true ps cs
      → (base : ℕ) → Placed blob base base ps
      → (decode_dyn_elems (decode_at kind dims blob) blob base (length ps) ≡ some cs)
        × ((span : ℕ) × (array_span true (elem_span kind dims blob) blob base (length ps)
              ≡ some span))
  unfolding decode_dyn_elems array_span
  dynamic_section all base placed =
      let (heads, read, decoded) =
        decode_dyn_elems-AllRead kind dims blob base base ps cs all placed in
      (
        bind_of (read_heads blob base (length ps)) _ heads read ∙ decoded,
        span_from-AllRead kind dims blob base base ps cs (length ps * 32) all placed,
      )

  -- A dynamic array of dynamic elements.
  pub dynamic_list-Encodes :
      is_dynamic kind dims ≡ true
      → AllRead (Encodes kind dims blob) true ps cs
      → encode_elems none true ps ≡ some b
      → Encodes kind (none ∷ dims) blob b (items cs)
  unfolding decode_at is_dynamic elem_span
  dynamic_list-Encodes dyn all h at stands =
      let (n, placed) =
        counted_sequence blob ps b true (AllRead-dynamic (Encodes kind dims blob) ps cs all) h at
          stands in
      let (decoded, (span, spanned)) = dynamic_section all (at + 32) placed in
      let span_at =
        ap (λ t. array_span t (elem_span kind dims blob) blob (at + 32) (length ps)) dyn
        ∙ spanned in
      record {
        next = at + 32 + span;
        decoded =
            bind_of (read_number blob at) _ (length ps) n
            ∙ bind_of _ _ cs (
                ap
                  (λ t.
                    if t
                    then decode_dyn_elems (decode_at kind dims blob) blob (at + 32) (length ps)
                    else decode_words kind blob (at + 32) (length ps))
                  dyn
                ∙ decoded)
            ∙ bind_of _ _ span span_at;
        inline = λ h. absurd cc;
        span = 32 + span;
        spanned = bind_of (read_number blob at) _ (length ps) n ∙ bind_of _ _ span span_at;
      }

  -- A static array of dynamic elements.
  pub dynamic_row-Encodes :
      is_dynamic kind dims ≡ true
      → (dim : ℕ) → length ps ≡ dim
      → AllRead (Encodes kind dims blob) true ps cs
      → encode_sequence ps ≡ some b
      → Encodes kind (some dim ∷ dims) blob b (items cs)
  unfolding decode_at is_dynamic elem_span
  dynamic_row-Encodes dyn dim n all h at stands =
      let placed =
        encode_sequence-Placed blob at ps b (AllRead-dynamic (Encodes kind dims blob) ps cs all) h
          stands in
      let (decoded, (span, spanned)) = dynamic_section all at placed in
      let span_at = ap (array_span true (elem_span kind dims blob) blob at) (sym n) ∙ spanned in
      record {
        next = at + span;
        decoded =
            ap
              (λ t.
                if t
                then (decode_dyn_elems (decode_at kind dims blob) blob at dim >>= λ vs.
                    array_span true (elem_span kind dims blob) blob at dim >>= λ span.
                    some (items vs, at + span))
                else (decode_inline (decode_at kind dims blob) at dim >>= λ r.
                    some (items r.0, r.1)))
              dyn
            ∙ bind_of _ _ cs
                (ap (decode_dyn_elems (decode_at kind dims blob) blob at) (sym n) ∙ decoded)
            ∙ bind_of _ _ span span_at;
        inline = λ h. absurd cc;
        span = span;
        spanned = ap (λ t. array_span t (elem_span kind dims blob) blob at dim) dyn ∙ span_at;
      }

  -- A static array of static elements.
  pub inline_row-Encodes :
      is_dynamic kind dims ≡ false
      → (dim : ℕ) → length ps ≡ dim
      → AllRead (Encodes kind dims blob) false ps cs
      → join_elems ps ≡ b
      → Encodes kind (some dim ∷ dims) blob b (items cs)
  unfolding decode_at is_dynamic elem_span array_span
  inline_row-Encodes fixed dim n all h at stands =
      let decoded =
        decode_inline-AllRead kind dims blob fixed at ps cs all
          (subst (StandsAt blob at) (sym h) stands) in
      record {
        next = at + length (join_elems ps);
        decoded =
            ap
              (λ t.
                if t
                then (decode_dyn_elems (decode_at kind dims blob) blob at dim >>= λ vs.
                    array_span true (elem_span kind dims blob) blob at dim >>= λ span.
                    some (items vs, at + span))
                else (decode_inline (decode_at kind dims blob) at dim >>= λ r.
                    some (items r.0, r.1)))
              fixed
            ∙ bind_of _ _ (cs, at + length (join_elems ps))
                (ap (decode_inline (decode_at kind dims blob) at) (sym n) ∙ decoded);
        inline = λ f. ap (λ b. at + length b) h;
        span = dim * 32;
        spanned = ap (λ t. array_span t (elem_span kind dims blob) blob at dim) fixed;
      }

-- A dynamic array of words.
pub word_list-Encodes :
    (kind : Kind) (blob : Bytes) (ps : List (Bytes × Bool)) (cs : Values) (b : Bytes)
    → is_dynamic kind [] ≡ false
    → AllRead (IsWordOf kind) false ps cs
    → encode_elems none false ps ≡ some b
    → Encodes kind (none ∷ []) blob b (items cs)
unfolding decode_at is_dynamic elem_span array_span
word_list-Encodes kind blob ps cs b fixed all h at stands =
    let (n, placed) = counted_sequence blob ps b false (AllRead-words kind ps cs all) h at stands in
    let span_at =
      ap (λ t. array_span t (elem_span kind [] blob) blob (at + 32) (length ps)) fixed in
    record {
      next = at + 32 + length ps * 32;
      decoded =
          bind_of (read_number blob at) _ (length ps) n
          ∙ bind_of _ _ cs (
              ap
                (λ t.
                  if t
                  then decode_dyn_elems (decode_at kind [] blob) blob (at + 32) (length ps)
                  else decode_words kind blob (at + 32) (length ps))
                fixed
              ∙ decode_words-AllRead kind blob (at + 32) (at + 32) ps cs all placed)
          ∙ bind_of _ _ (length ps * 32) span_at;
      inline = λ h. absurd cc;
      span = 32 + length ps * 32;
      spanned =
          bind_of (read_number blob at) _ (length ps) n ∙ bind_of _ _ (length ps * 32) span_at;
    }
