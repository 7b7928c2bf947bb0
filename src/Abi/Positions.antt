-- ===== src/Abi/Positions.antt =====
-- A value of src/spellbook/abi.py that is no array is decoded where its bytes stand.
use mathlib.Core.Option.{some-injective}
use spellbook.Prelude.{
  ℕ, ◌+◌, ◌*◌, ◌-◌, ◌/◌, ◌%◌, ◌≡◌, refl, sym, ap, subst, ◌∙◌, true, false, some, [], ◌++◌, length,
  take, drop, arith, leb, if◌then◌else◌,
}
use spellbook.Prelude.Options.{◌>>=◌, bind-some, bind_of, bind_same, guard}
use spellbook.Streamable.Bytes.{Bytes}
use spellbook.Streamable.Utf8.{utf8_encode, utf8_decode}
use spellbook.Streamable.Utf8.Laws.{utf8_decode-utf8_encode}
use spellbook.Abi.Values.{Kind, bytes, string, Value, str, coerce_bytes}
use spellbook.Abi.Types.{is_dynamic, is_variable}
use spellbook.Abi.Encode.{word, zeros, encode_dynamic_bytes, encode_single}
use spellbook.Abi.Decode.{
  hex_value, variable_of, decode_word, decode_variable, decode_single, decode_at,
}
use spellbook.Abi.Decode.Spans.{read_word, read_number, elem_span}
use spellbook.Abi.Stands.{
  StandsAt, StandsAt-left, StandsAt-right, take-StandsAt, read_word-StandsAt, read_number-StandsAt,
  length-word,
}
use spellbook.Abi.Singles.{canonical_single}
use spellbook.Abi.Arrays.{Encodes, IsWordOf}

decode_single-fixed :
    (kind : Kind) (blob : Bytes) (at : ℕ) (b : Bytes) (c : Value)
    → is_variable kind ≡ false
    → StandsAt blob at b
    → IsWordOf kind b c
    → decode_single kind blob at ≡ some (c, at + 32)
unfolding decode_single
decode_single-fixed bytes blob at b c fixed stands h = absurd cc
decode_single-fixed string blob at b c fixed stands h = absurd cc
decode_single-fixed kind blob at b c fixed stands h =
    bind_of (read_word blob at) _ b (read_word-StandsAt blob at b h.0 stands)
    ∙ bind_of (decode_word kind b) (λ v. some (v, at + 32)) c h.1

pub fixed-Encodes :
    (kind : Kind) (blob b : Bytes) (c : Value)
    → is_variable kind ≡ false
    → IsWordOf kind b c
    → Encodes kind [] blob b c
unfolding decode_at is_dynamic elem_span
fixed-Encodes kind blob b c fixed h at stands = record {
  next = at + 32;
  decoded = decode_single-fixed kind blob at b c fixed stands h;
  inline = λ f. ap (λ n. at + n) (sym h.0);
  span = 32;
  spanned =
      ap
        (λ t.
          if t then (read_number blob at >>= λ ln. some (32 + (ln + 31) / 32 * 32)) else some 32)
        fixed;
}

-- The length and the bytes that stand behind it.
dynamic_bytes :
    (blob r b : Bytes) (at : ℕ)
    → encode_dynamic_bytes r ≡ some b
    → StandsAt blob at b
    → (read_number blob at ≡ some (length r)) × (take (length r) (drop (at + 32) blob) ≡ r)
unfolding encode_dynamic_bytes
dynamic_bytes blob r b at h stands =
    let (w, n_w, b_eq) = bind-some (word (length r)) _ b h in
    let pad = zeros ((32 - length r % 32) % 32) in
    let whole = subst (StandsAt blob at) (sym (some-injective (w ++ (r ++ pad)) b b_eq)) stands in
    (
      read_number-StandsAt blob at (length r) w n_w (StandsAt-left blob at w (r ++ pad) whole),
      take-StandsAt blob (at + 32) r (
          StandsAt-left blob (at + 32) r _ (
            subst (λ n. StandsAt blob (at + n) (r ++ pad)) (length-word (length r) w n_w)
              (StandsAt-right blob at w (r ++ pad) whole))),
    )

guard-length : (r s : Bytes) → s ≡ r → guard (leb (length r) (length s)) ≡ some tt
guard-length r s h = rw h (ground arith)

decode_variable-dynamic_bytes :
    (kind : Kind) (blob r b : Bytes) (c : Value) (at : ℕ)
    → variable_of kind r ≡ some c
    → encode_dynamic_bytes r ≡ some b
    → StandsAt blob at b
    → decode_variable kind blob at ≡ some (c, at + (32 + (length r + 31) / 32 * 32))
unfolding decode_variable
decode_variable-dynamic_bytes kind blob r b c at v h stands =
    let (n, taken) = dynamic_bytes blob r b at h stands in
    bind_of (read_number blob at) _ (length r) n
    ∙ bind_of _ _ tt (guard-length r _ taken)
    ∙ bind_of _ _ c (ap (variable_of kind) taken ∙ v)

variable-Encodes :
    (kind : Kind) (blob r b : Bytes) (c : Value)
    → is_variable kind ≡ true
    → variable_of kind r ≡ some c
    → encode_dynamic_bytes r ≡ some b
    → Encodes kind [] blob b c
unfolding decode_at is_dynamic elem_span decode_single
variable-Encodes bytes blob r b c var v h at stands = record {
  next = at + (32 + (length r + 31) / 32 * 32);
  decoded = decode_variable-dynamic_bytes bytes blob r b c at v h stands;
  inline = λ h. absurd cc;
  span = 32 + (length r + 31) / 32 * 32;
  spanned = bind_of (read_number blob at) _ (length r) (dynamic_bytes blob r b at h stands).0;
}
variable-Encodes string blob r b c var v h at stands = record {
  next = at + (32 + (length r + 31) / 32 * 32);
  decoded = decode_variable-dynamic_bytes string blob r b c at v h stands;
  inline = λ h. absurd cc;
  span = 32 + (length r + 31) / 32 * 32;
  spanned = bind_of (read_number blob at) _ (length r) (dynamic_bytes blob r b at h stands).0;
}
variable-Encodes _ blob r b c var v h at stands = absurd cc

pub variable_single-Encodes :
    (kind : Kind) (blob : Bytes) (v : Value) (b : Bytes) (c : Value)
    → is_variable kind ≡ true
    → encode_single kind v ≡ some b
    → canonical_single kind v ≡ some c
    → Encodes kind [] blob b c
unfolding encode_single canonical_single variable_of
variable_single-Encodes bytes blob v b c var h k =
    let (r, v_r, r_b) = bind-some (coerce_bytes v) encode_dynamic_bytes b h in
    variable-Encodes bytes blob r b c refl
      (unfold variable_of in bind_same (coerce_bytes v) (λ b. some (hex_value b)) r c v_r k) r_b
variable_single-Encodes string blob (str s) b c var h k =
    let (r, s_r, r_b) = bind-some (utf8_encode s) encode_dynamic_bytes b h in
    variable-Encodes string blob r b c refl
      (unfold variable_of in bind_of (utf8_decode r) _ s (utf8_decode-utf8_encode s r s_r) ∙ k) r_b
variable_single-Encodes string blob _ b c var h k = absurd cc
variable_single-Encodes _ blob v b c var h k = absurd cc
