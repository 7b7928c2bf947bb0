-- ===== src/Dex/Builders/Words.antt =====
-- The words that the builders of dex.py put together, and the encoder of abi.py.
use spellbook.Prelude.{
  All, ℕ, zero, suc, ◌+◌, ◌-◌, ◌*◌, ◌/◌, ◌%◌, ◌^◌, ◌<◌, ◌≡◌, refl, subst, true, false, Option, none,
  some, [], ◌∷◌, ◌++◌, number_IsKey, leb, ltb, length, All-append, arith, if◌then◌else◌,
}
use spellbook.Prelude.Options.{some-carry, if-some, both, if_false}
use spellbook.Prelude.Codes.{
  from_hex, hex_digit, to_hex, hex_char, is_space, is_digit, lower_text, lower_code, with_0x,
}
use spellbook.Streamable.Bytes.{Bytes, be}
use spellbook.Streamable.Values.{enc_uint}
use spellbook.Streamable.Utf8.{Text}
use spellbook.Abi.Values.{Kind, address, uint, pos, number, str, Value, uint_of}
use spellbook.Abi.Encode.{zeros, word, address_bytes, encode_address, encode_single}
use spellbook.Abi.Decode.{hex_value}
use spellbook.Abi.Types.{is_variable}
use spellbook.Abi.Singles.{canonical_single}
use spellbook.Dex.Tokens.{all_hex, is_hex_digit}
use spellbook.Dex.Words.{unsigned}
use spellbook.Dex.Calls.RoundTrip.{IsByte}

none-some : {A : Type 0} {a : A} → none ≡ some a → ⊥
none-some h = cc

abbrev digit_value : ℕ → ℕ
digit_value c = if is_digit c then c - 48 else if leb 97 c then c - 87 else c - 55

hex_digit-value : (c : ℕ) → is_hex_digit c ≡ true → hex_digit c ≡ some (digit_value c)
unfolding hex_digit
hex_digit-value c h = ground arith

hex_char-lower : (c : ℕ) → is_hex_digit c ≡ true → hex_char (digit_value c) ≡ lower_code c
unfolding hex_char
hex_char-lower c h = ground arith

digit_fits : (c : ℕ) → is_hex_digit c ≡ true → digit_value c < 16
digit_fits c h = ground arith

digit_solid : (c : ℕ) → is_hex_digit c ≡ true → is_space c ≡ false
digit_solid c h = ground arith

rest-some :
    (rest : Option Bytes) (n : ℕ) (bs : Bytes)
    → (elim rest as (λ _. Option Bytes) [ none ↦ none | some cs ↦ some (n ∷ cs) ]) ≡ some bs
    → (cs : Bytes) × (rest ≡ some cs) × (some (n ∷ cs) ≡ some bs)
rest-some none n bs h = absurd cc
rest-some (some cs) n bs h = (cs, refl, h)

-- Bytes that were read from hexadecimal digits are written as these, in lower case.
abbrev pub Reads : Text → Bytes → Type 0
Reads s bs = (to_hex bs ≡ lower_text s) × All IsByte bs × (2 * length bs ≡ length s)

from_hex-cons :
    (a b : ℕ) (s : Text) (bs : Bytes)
    → is_hex_digit a ≡ true
    → is_hex_digit b ≡ true
    → from_hex (a ∷ b ∷ s) ≡ some bs
    → (elim (from_hex s) as (λ _. Option Bytes) [
      | none ↦ none
      | some cs ↦ some ((digit_value a * 16 + digit_value b) ∷ cs)
    ])
      ≡ some bs
unfolding from_hex
from_hex-cons a b s bs h k ok =
    subst (λ e. e ≡ some bs) (rw (digit_solid a h, hex_digit-value a h, hex_digit-value b k) refl)
      ok

Reads-cons :
    (a b : ℕ) (s : Text) (cs : Bytes)
    → is_hex_digit a ≡ true
    → is_hex_digit b ≡ true
    → Reads s cs
    → Reads (a ∷ b ∷ s) ((digit_value a * 16 + digit_value b) ∷ cs)
unfolding to_hex
Reads-cons a b s cs h k r =
    let x = digit_fits a h in
    let y = digit_fits b k in
    let high : (digit_value a * 16 + digit_value b) / 16 ≡ digit_value a = omega (arith, y) in
    let low : (digit_value a * 16 + digit_value b) % 16 ≡ digit_value b = omega (arith, y) in
    (
      rw (high, low, hex_char-lower a h, hex_char-lower b k, r.0),
      (omega (arith, x, y), r.1),
      omega (arith, r.2),
    )

from_hex-none : (bs : Bytes) → from_hex [] ≡ some bs → Reads [] bs
unfolding from_hex to_hex
from_hex-none bs ok = some-carry (Reads []) ok (refl, tt, refl)

from_hex-odd : (a : ℕ) (bs : Bytes) → is_hex_digit a ≡ true → from_hex (a ∷ []) ≡ some bs → ⊥
unfolding from_hex
from_hex-odd a bs h ok = none-some (if_false _ _ _ _ (digit_solid a h) ok)

pub from_hex-Reads : (s : Text) (bs : Bytes) → all_hex s ≡ true → from_hex s ≡ some bs → Reads s bs
from_hex-Reads [] bs h ok = from_hex-none bs ok
from_hex-Reads (a ∷ []) bs h ok = absurd (from_hex-odd a bs (both (is_hex_digit a) true h).0 ok)
from_hex-Reads (a ∷ b ∷ s) bs h ok =
    let (ha, t) = both (is_hex_digit a) _ h in
    let (hb, hs) = both (is_hex_digit b) _ t in
    let (cs, read, same) = rest-some (from_hex s) _ bs (from_hex-cons a b s bs ha hb ok) in
    some-carry (Reads (a ∷ b ∷ s)) same (Reads-cons a b s cs ha hb (from_hex-Reads s cs hs read))

-- A value with its word, and what the word is decoded to.
pub record IsWord (kind : Kind) (v : Value) (w : Bytes) (c : Value) : Type 0 where
  pub static : is_variable kind ≡ false
  pub encodes : encode_single kind v ≡ some w
  pub decodes : canonical_single kind v ≡ some c
  pub bytes : All IsByte w

be-IsByte : (w v : ℕ) → All IsByte (be w v)
unfolding be
be-IsByte zero v = tt
be-IsByte (suc w) v = All-append IsByte (be w (v / 256)) _ (be-IsByte w (v / 256)) (omega arith, tt)

zeros-IsByte : (n : ℕ) → All IsByte (zeros n)
zeros-IsByte zero = tt
zeros-IsByte (suc n) = (omega arith, zeros-IsByte n)

number-IsWord :
    (bits n : ℕ)
    → ltb n (2 ^ bits) ≡ true
    → ltb n (2 ^ 256) ≡ true
    → IsWord (uint bits) (number (pos n)) (be 32 n) (number (pos n))
unfolding encode_single uint_of word enc_uint canonical_single
number-IsWord bits n h k = record {
  static = refl;
  encodes = rw (h, k) refl;
  decodes = rw h refl;
  bytes = be-IsByte 32 n;
}

pub u256-IsWord :
    (n : ℕ) (w : Bytes)
    → unsigned 256 n ≡ some w
    → IsWord (uint 256) (number (pos n)) w (number (pos n))
unfolding unsigned
u256-IsWord n w ok =
    let (fits, same) = if-some (ltb n (2 ^ 256)) _ w ok in
    some-carry (λ w. IsWord (uint 256) (number (pos n)) w (number (pos n))) same
      (number-IsWord 256 n fits fits)

wider : (n : ℕ) → ltb n (2 ^ 128) ≡ true → ltb n (2 ^ 256) ≡ true
wider n h = ground arith

pub u128-IsWord :
    (n : ℕ) (w : Bytes)
    → unsigned 128 n ≡ some w
    → IsWord (uint 128) (number (pos n)) w (number (pos n))
unfolding unsigned
u128-IsWord n w ok =
    let (fits, same) = if-some (ltb n (2 ^ 128)) _ w ok in
    some-carry (λ w. IsWord (uint 128) (number (pos n)) w (number (pos n))) same
      (number-IsWord 128 n fits (wider n fits))

pub address-IsWord :
    (s : Text) (b : Bytes)
    → length s ≡ 40
    → from_hex s ≡ some b
    → Reads s b
    → IsWord address (str (with_0x s)) (zeros 12 ++ b) (str (lower_text (with_0x s)))
unfolding encode_single encode_address address_bytes canonical_single hex_value
address-IsWord s b long read r =
    let short : length b ≡ 20 = omega (arith, r.2, long) in
    record {
      static = refl;
      encodes = rw (long, read) refl;
      decodes = rw (long, read, short, r.0) refl;
      bytes = All-append IsByte (zeros 12) b (zeros-IsByte 12) r.1;
    }
