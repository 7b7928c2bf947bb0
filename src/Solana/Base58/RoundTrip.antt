-- ===== src/Solana/Base58/RoundTrip.antt =====
-- What `b58encode` of src/spellbook/solana.py writes, `b58decode` reads.
use mathlib.Core.Option.{some-injective}
use spellbook.Prelude.{
  All, ℕ, zero, suc, ◌+◌, ◌*◌, ◌<◌, ◌≤◌, ◌≡◌, refl, sym, ap, subst, ◌∙◌, Bool, true, false, ◌&&◌,
  Bool-cases, inl, inr, Option, none, some, List, [], ◌∷◌, ◌++◌, map, length, ◌==◌, number_IsKey,
  arith,
}
use spellbook.Prelude.Options.{bind_of}
use spellbook.Streamable.Bytes.{Bytes}
use spellbook.Streamable.Utf8.{Text}
use spellbook.Solana.Base58.{
  digits_from, digits, value_onto, leading, copies, b58_char, b58_index, b58encode, b58_number,
  b58decode,
}
use spellbook.Solana.Base58.Digits.{
  digits-value_onto, digits-one, value_onto-digits, digits_from-below, digits_from-first,
}

abbrev same : Bool → Bool → Bool
same true b = b
same false true = false
same false false = true

abbrev finds : ℕ → Option ℕ → Bool
finds d none = false
finds d (some i) = i == d

-- A digit's character is found again, and is "1" for the digit 0 alone.
abbrev is_read : ℕ → Bool
is_read d = finds d (b58_index (b58_char d)) && same (b58_char d == 49) (d == 0)

abbrev all_below : ℕ → (ℕ → Bool) → Bool
all_below zero p = true
all_below (suc n) p = p n && all_below n p

all_below-holds : (n : ℕ) (p : ℕ → Bool) (k : ℕ) → all_below n p ≡ true → k < n → p k ≡ true
all_below-holds zero p k h lt = absurd (omega arith)
all_below-holds (suc n) p k h lt = elim (Bool-cases (k == n)) [
  | inl last ↦ subst (λ m. p m ≡ true) (sym (same_num last)) (ground arith)
  | inr other ↦ all_below-holds n p k (ground arith) (ground arith)
]
  where
    same_num : {m n : ℕ} → (m == n) ≡ true → m ≡ n
    same_num h = ground arith

digits_read : all_below 58 is_read ≡ true
unfolding b58_index b58_char
digits_read = refl

finds-some : (d : ℕ) (o : Option ℕ) → finds d o ≡ true → o ≡ some d
finds-some d none h = absurd cc
finds-some d (some i) h = ap some (ground arith)

same-eq : (a b : Bool) → same a b ≡ true → a ≡ b
same-eq true true h = refl
same-eq true false h = absurd cc
same-eq false true h = absurd cc
same-eq false false h = refl

digit_read : (d : ℕ) → d < 58 → (b58_index (b58_char d) ≡ some d) × ((b58_char d == 49) ≡ (d == 0))
digit_read d h =
    let read = all_below-holds 58 is_read d digits_read h in
    (finds-some d (b58_index (b58_char d)) (ground arith), same-eq _ _ (ground arith))

b58_number-map :
    (n : ℕ) (ds : List ℕ)
    → All (λ d. d < 58) ds
    → b58_number n (map b58_char ds) ≡ some (value_onto 58 n ds)
unfolding b58_number value_onto
b58_number-map n [] h = refl
b58_number-map n (d ∷ ds) h =
    bind_of (b58_index (b58_char d)) (λ i. b58_number (n * 58 + i) (map b58_char ds)) d
      (digit_read d h.0).0
    ∙ b58_number-map (n * 58 + d) ds h.1

b58_number-copies : (k : ℕ) (s : Text) → b58_number 0 (copies k 49 ++ s) ≡ b58_number 0 s
unfolding b58_number b58_index
b58_number-copies zero s = refl
b58_number-copies (suc k) s = b58_number-copies k s

leading-map : (ds : List ℕ) → All (λ d. d < 58) ds → leading 49 (map b58_char ds) ≡ leading 0 ds
unfolding leading
leading-map [] h = refl
leading-map (d ∷ ds) h = rw ((digit_read d h.0).1, leading-map ds h.1) refl

leading-copies : (z k : ℕ) (xs : List ℕ) → leading z (copies k z ++ xs) ≡ k + leading z xs
unfolding leading
leading-copies z zero xs = omega arith
leading-copies z (suc k) xs = ground (arith, leading-copies z k xs)

leading-suc : (x : ℕ) (b : Bytes) → leading 0 (suc x ∷ b) ≡ 0
unfolding leading
leading-suc x b = ground arith

-- The zeros in front come back with the digits of the number.
zeros-digits :
    (b : Bytes)
    → All (λ x. x < 256) b
    → copies (leading 0 b) 0 ++ digits 256 (value_onto 256 0 b) ≡ b
unfolding leading value_onto digits digits_from
zeros-digits [] h = refl
zeros-digits (zero ∷ b) h = ap (λ r. 0 ∷ r) (zeros-digits b h.1)
zeros-digits (suc x ∷ b) h =
    ap (λ k. copies k 0 ++ digits 256 (value_onto 256 (0 * 256 + suc x) b)) (leading-suc x b)
    ∙ ap (λ n. digits 256 (value_onto 256 n b)) first_number
    ∙ digits-value_onto 256 (omega arith) (suc x) b h.1 (omega arith)
    ∙ ap (λ ds. ds ++ b) (digits-one 256 (omega arith) (suc x) (omega arith) h.0)
  where
    first_number : 0 * 256 + suc x ≡ suc x
    first_number = omega arith

b58decode-some :
    (s : Text) (n : ℕ) (b : Bytes)
    → 1 ≤ length b
    → b58_number 0 s ≡ some n
    → copies (leading 49 s) 0 ++ digits 256 n ≡ b
    → b58decode s ≡ some b
unfolding b58decode
b58decode-some [] n b some_byte h e =
    absurd (no_bytes n (unfold b58_number in some-injective 0 n h) (unfold leading in e))
  where
    no_bytes : (n : ℕ) → 0 ≡ n → digits 256 n ≡ b → ⊥
    no_bytes n zero_n none_left =
        let empty : digits 256 0 ≡ b = ap (digits 256) zero_n ∙ none_left in
        let nothing : 0 ≡ length b = unfold digits digits_from in ap length empty in omega arith
b58decode-some (c ∷ s) n b some_byte h e =
    bind_of (b58_number 0 (c ∷ s)) (λ n. some (copies (leading 49 (c ∷ s)) 0 ++ digits 256 n)) n h
    ∙ ap some e

-- Bytes, of which there is one at least, are decoded again from their base58 text.
pub b58decode-b58encode :
    (b : Bytes) → All (λ x. x < 256) b → 1 ≤ length b → b58decode (b58encode b) ≡ some b
unfolding b58encode
b58decode-b58encode b bytes some_byte =
    let n : ℕ = value_onto 256 0 b in
    let ds : List ℕ = digits 58 n in
    let below : All (λ d. d < 58) ds = unfold digits in digits_from-below 58 n n (omega arith) in
    let ones =
      leading-copies 49 (leading 0 b) (map b58_char ds)
      ∙ ap (λ k. leading 0 b + k)
          (leading-map ds below
            ∙ (unfold digits in digits_from-first 58 n n (omega arith) (omega arith))) in
    b58decode-some (b58encode b) n b some_byte
      (b58_number-copies (leading 0 b) (map b58_char ds)
        ∙ b58_number-map 0 ds below
        ∙ ap some (value_onto-digits 58 n (omega arith)))
      (ap (λ k. copies k 0 ++ digits 256 n) (ones ∙ omega arith) ∙ zeros-digits b bytes)
