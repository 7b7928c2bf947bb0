-- ===== src/Streamable/Utf8/Laws.antt =====
-- Texts are read back from their UTF-8.
use mathlib.Core.Option.{some-injective}
use spellbook.Prelude.{
  ℕ, zero, suc, ◌+◌, ◌*◌, ◌/◌, ◌%◌, ◌<◌, ◌≤◌, ◌⊎◌, ◌≡◌, refl, ap, subst, ◌∙◌, ◌&&◌, none, some, [],
  ◌∷◌, ◌++◌, ltb, leb, length, length-append, arith,
}
use spellbook.Streamable.Bytes.{Bytes, ◌>>=◌, Encoded, <>-eq-some}
use spellbook.Streamable.Values.{lift, join}
use spellbook.Streamable.Reads.{Reads, Reads-then, Reads-check}
use spellbook.Streamable.RoundTrips.{Reads-if, Reads-none, Reads-some, read-Reads, uint-Reads}
use spellbook.Streamable.Utf8.{
  Text, enc_char, utf8_encode, tail_bits, char_in, dec_char, dec_chars, utf8_decode, counted,
  enc_str, dec_str,
}

dec_one : (c : ℕ) (s : Bytes) → c < 128 → dec_char (c ∷ s) ≡ some (c, s)
unfolding dec_char
dec_one c s h = ground arith

dec_two :
    (b x c : ℕ) (s : Bytes)
    → b < 32
    → x < 64
    → b * 64 + x ≡ c
    → 128 ≤ c
    → dec_char ((192 + b) ∷ (128 + x) ∷ s) ≡ some (c, s)
unfolding dec_char ◌>>=◌ tail_bits char_in
dec_two b x c s hb hx e h = ground arith

dec_three :
    (b x y c : ℕ) (s : Bytes)
    → b < 16
    → x < 64
    → y < 64
    → b * 4096 + x * 64 + y ≡ c
    → 2048 ≤ c
    → (c < 55296) ⊎ (57344 ≤ c)
    → dec_char ((224 + b) ∷ (128 + x) ∷ (128 + y) ∷ s) ≡ some (c, s)
unfolding dec_char ◌>>=◌ tail_bits char_in
dec_three b x y c s hb hx hy e h gap = ground arith

dec_four :
    (b x y z c : ℕ) (s : Bytes)
    → b < 8
    → x < 64
    → y < 64
    → z < 64
    → b * 262144 + x * 4096 + y * 64 + z ≡ c
    → 65536 ≤ c
    → c < 1114112
    → dec_char ((240 + b) ∷ (128 + x) ∷ (128 + y) ∷ (128 + z) ∷ s) ≡ some (c, s)
unfolding dec_char ◌>>=◌ tail_bits char_in
dec_four b x y z c s hb hx hy hz e low high = ground arith

pub char-Reads : (c : ℕ) → Reads (enc_char c) dec_char c
unfolding enc_char
char-Reads c =
    Reads-if (ltb c 128) (λ h. Reads-some _ (λ rest. dec_one c rest (ground arith)))
      (λ not_one.
        Reads-if (ltb c 2048)
          (λ h. Reads-some _ (λ rest.
            dec_two (c / 64) (c % 64) c rest (ground arith) (ground arith) (omega arith)
              (ground arith)))
          (λ not_two.
            Reads-if (leb 55296 c && ltb c 57344) (λ h. Reads-none)
              (λ not_surrogate.
                Reads-if (ltb c 65536)
                  (λ h. Reads-some _ (λ rest.
                    dec_three (c / 4096) (c / 64 % 64) (c % 64) c rest (ground arith) (omega arith)
                      (omega arith) (omega arith) (ground arith) (ground arith)))
                  (λ not_three.
                    Reads-if (ltb c 1114112)
                      (λ h. Reads-some _ (λ rest.
                        dec_four (c / 262144) (c / 4096 % 64) (c / 64 % 64) (c % 64) c rest
                          (ground arith) (omega arith) (omega arith) (omega arith) (omega arith)
                          (ground arith) (ground arith)))
                      (λ h. Reads-none)))))

-- A character takes a byte at least.
char-length : (c : ℕ) (p : Bytes) → enc_char c ≡ some p → 1 ≤ length p
unfolding enc_char
char-length c p h = ground arith

dec_chars-turn :
    (fuel : ℕ) (p q : Bytes) (c : ℕ) (cs : Text)
    → 1 ≤ length p
    → dec_char (p ++ q) ≡ some (c, q)
    → dec_chars fuel q ≡ some cs
    → dec_chars (suc fuel) (p ++ q) ≡ some (c ∷ cs)
unfolding dec_chars
dec_chars-turn fuel [] q c cs pos h k = absurd (omega arith)
dec_chars-turn fuel (b ∷ p) q c cs pos h k =
    ap
      (λ r. elim r [
        | none ↦ none
        | some (c, rest) ↦ elim (dec_chars fuel rest) [ none ↦ none | some cs ↦ some (c ∷ cs) ]
      ])
      h
    ∙ ap (λ r. elim r [ none ↦ none | some cs ↦ some (c ∷ cs) ]) k

dec_chars-encode :
    (s : Text) (raw : Bytes)
    → join enc_char s ≡ some raw
    → (fuel : ℕ) → length raw ≤ fuel
    → dec_chars fuel raw ≡ some s
unfolding join
dec_chars-encode [] raw h fuel le =
    subst (λ raw. dec_chars fuel raw ≡ some []) (some-injective [] raw h) (unfold dec_chars in refl)
dec_chars-encode (c ∷ s) raw h zero le =
    let (p, q, c_p, s_q, raw_eq) = <>-eq-some (enc_char c) (join enc_char s) raw h in
    let pos = char-length c p c_p in absurd (omega (arith, ap length raw_eq, length-append p q))
dec_chars-encode (c ∷ s) raw h (suc fuel) le =
    let (p, q, c_p, s_q, raw_eq) = <>-eq-some (enc_char c) (join enc_char s) raw h in
    let pos = char-length c p c_p in
    let rest = dec_chars-encode s q s_q fuel (omega (arith, ap length raw_eq, length-append p q)) in
    ap (dec_chars (suc fuel)) raw_eq
    ∙ dec_chars-turn fuel p q c s pos ((char-Reads c).reads p c_p q) rest

-- A text that encodes to UTF-8 is decoded back from it.
pub utf8_decode-utf8_encode :
    (s : Text) (raw : Bytes) → utf8_encode s ≡ some raw → utf8_decode raw ≡ some s
unfolding utf8_decode utf8_encode
utf8_decode-utf8_encode s raw h = dec_chars-encode s raw h (length raw) (omega arith)

counted-Reads :
    (x : Encoded) (s : Text)
    → ((raw : Bytes) → x ≡ some raw → utf8_decode raw ≡ some s)
    → Reads (counted x) dec_str s
unfolding counted dec_str
counted-Reads none s h = Reads-none
counted-Reads (some raw) s h = Reads-then _ (uint-Reads 4 (length raw)) (
    Reads-check _ (read-Reads raw (length raw) refl)
      (λ rest. ap (λ o. lift o rest) (h raw refl) ∙ unfold lift in refl))

-- A text is read back from its frame.
pub str-Reads : (s : Text) → Reads (enc_str s) dec_str s
unfolding enc_str
str-Reads s = counted-Reads (utf8_encode s) s (utf8_decode-utf8_encode s)
