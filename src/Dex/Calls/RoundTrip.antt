-- ===== src/Dex/Calls/RoundTrip.antt =====
-- The text of a call in dex.py, there and back: a selector and an encoding of its arguments.
use spellbook.Prelude.{
  All, ℕ, ◌+◌, ◌*◌, ◌/◌, ◌%◌, ◌<◌, ◌≡◌, refl, sym, subst, ◌∙◌, true, false, ◌&&◌, ◌||◌, Option,
  some, List, [], ◌∷◌, ◌++◌, ◌==◌, number_IsKey, bytes_IsKey, bytes_same_iff, leb, length, take,
  drop, length-append, take-append, drop-append, arith,
}
use spellbook.Prelude.Options.{◌>>=◌, ◌>>◌, guard, bind_of}
use spellbook.Prelude.Codes.{
  from_hex, hex_digit, to_hex, hex_char, is_space, is_digit, lower_text, lower_code, with_0x,
}
use spellbook.Streamable.Bytes.{Bytes}
use spellbook.Streamable.Utf8.{Text}
use spellbook.Abi.Values.{Kind, Dims, str, raw, Values, coerce_bytes}
use spellbook.Abi.Types.{parse_types}
use spellbook.Abi.Encode.{encode_args}
use spellbook.Abi.Decode.{decode_sequence, decode_abi}
use spellbook.Abi.Arguments.{IsPlain, canonical_args, decode_abi-encode_args}
use spellbook.Dex.Words.{calldata_text}
use spellbook.Dex.Calls.{all_lower_hex, split_selector, lp_selector, abi_decode}

abbrev pub IsByte : ℕ → Type 0
IsByte b = b < 256

hex_digit-hex_char : (n : ℕ) → n < 16 → hex_digit (hex_char n) ≡ some n
unfolding hex_digit hex_char
hex_digit-hex_char n h = ground arith

hex_char_solid : (n : ℕ) → n < 16 → is_space (hex_char n) ≡ false
unfolding hex_char
hex_char_solid n h = ground arith

byte_sum : (b : ℕ) → b / 16 * 16 + b % 16 ≡ b
byte_sum b = omega arith

pub from_hex-to_hex : (bs : Bytes) → All IsByte bs → from_hex (to_hex bs) ≡ some bs
unfolding from_hex to_hex
from_hex-to_hex [] h = refl
from_hex-to_hex (b ∷ bs) h = rw (
  hex_char_solid (b / 16) (omega (arith, h.0)),
  hex_digit-hex_char (b / 16) (omega (arith, h.0)),
  hex_digit-hex_char (b % 16) (omega arith),
  from_hex-to_hex bs h.1,
  byte_sum b,
)

lower_hex_char : (n : ℕ) → n < 16 → all_lower_hex (hex_char n ∷ []) ≡ true
unfolding hex_char
lower_hex_char n h = ground arith

all_lower_hex-to_hex : (bs : Bytes) → All IsByte bs → all_lower_hex (to_hex bs) ≡ true
unfolding to_hex
all_lower_hex-to_hex [] h = refl
all_lower_hex-to_hex (b ∷ bs) h = ground (
  arith,
  lower_hex_char (b / 16) (omega (arith, h.0)),
  lower_hex_char (b % 16) (omega arith),
  all_lower_hex-to_hex bs h.1,
)

all_lower_hex-append :
    (s t : Text) → all_lower_hex s ≡ true → all_lower_hex t ≡ true → all_lower_hex (s ++ t) ≡ true
all_lower_hex-append [] t h k = k
all_lower_hex-append (c ∷ s) t h k = ground (arith, all_lower_hex-append s t (ground arith) k)

lower_code-same : (c : ℕ) → (is_digit c || leb 97 c && leb c 102) ≡ true → lower_code c ≡ c
lower_code-same c h = ground arith

lower_text-same : (s : Text) → all_lower_hex s ≡ true → lower_text s ≡ s
lower_text-same [] h = refl
lower_text-same (c ∷ s) h = rw (lower_code-same c (ground arith), lower_text-same s (ground arith))

length-to_hex : (bs : Bytes) → length (to_hex bs) ≡ 2 * length bs
unfolding to_hex
length-to_hex [] = refl
length-to_hex (b ∷ bs) = omega (arith, length-to_hex bs)

fits :
    (sel : Text) (bs : Bytes)
    → length sel ≡ 8
    → (leb 8 (length (sel ++ to_hex bs)) ≡ true) × ((length (sel ++ to_hex bs) % 2 == 0) ≡ true)
fits sel bs h = (
  ground (arith, length-append sel (to_hex bs), length-to_hex bs),
  ground (arith, length-append sel (to_hex bs), length-to_hex bs),
)

-- A text that needs no lowering and is long enough is cut behind its selector.
split_selector-cut :
    (s : Text)
    → lower_text s ≡ s
    → all_lower_hex s ≡ true
    → leb 8 (length s) ≡ true
    → (length s % 2 == 0) ≡ true
    → split_selector (with_0x s) ≡ some (take 8 s, with_0x (drop 8 s))
unfolding split_selector
split_selector-cut s same all long even = rw (same, all, long, even)

take_selector : (sel t : Text) → length sel ≡ 8 → take 8 (sel ++ t) ≡ sel
take_selector sel t h = subst (λ n. take n (sel ++ t) ≡ sel) h (take-append sel t)

drop_selector : (sel t : Text) → length sel ≡ 8 → drop 8 (sel ++ t) ≡ t
drop_selector sel t h = subst (λ n. drop n (sel ++ t) ≡ t) h (drop-append sel t)

-- A call's text is taken apart into its selector and the digits of its arguments.
pub split_selector-calldata_text :
    (sel : Text) (bs : Bytes)
    → length sel ≡ 8
    → all_lower_hex sel ≡ true
    → All IsByte bs
    → split_selector (calldata_text sel bs) ≡ some (sel, with_0x (to_hex bs))
unfolding calldata_text
split_selector-calldata_text sel bs eight low bytes =
    let all = all_lower_hex-append sel (to_hex bs) low (all_lower_hex-to_hex bs bytes) in
    let (long, even) = fits sel bs eight in
    split_selector-cut (sel ++ to_hex bs) (lower_text-same (sel ++ to_hex bs) all) all long even
    ∙ rw (take_selector sel (to_hex bs) eight, drop_selector sel (to_hex bs) eight)

coerce_bytes-to_hex :
    (bs : Bytes) → All IsByte bs → coerce_bytes (str (with_0x (to_hex bs))) ≡ some bs
unfolding coerce_bytes
coerce_bytes-to_hex bs h = from_hex-to_hex bs h

coerce_bytes-raw : (bs : Bytes) → coerce_bytes (raw bs) ≡ some bs
unfolding coerce_bytes
coerce_bytes-raw bs = refl

-- The digits of an encoding decode as the encoding does.
abi_decode-to_hex :
    (types : List Text) (bs : Bytes)
    → All IsByte bs
    → abi_decode types (with_0x (to_hex bs)) ≡ decode_abi types (raw bs)
unfolding abi_decode decode_abi
abi_decode-to_hex types bs h =
    let decode : Bytes → Option Values =
      λ b. parse_types types >>= λ parsed. decode_sequence parsed b 0 0 in
    bind_of (coerce_bytes (str (with_0x (to_hex bs)))) decode bs (coerce_bytes-to_hex bs h)
    ∙ sym (bind_of (coerce_bytes (raw bs)) decode bs (coerce_bytes-raw bs))

same_guard : (sel args : Text) → (guard (sel == sel) >> some args) ≡ some args
same_guard sel args = rw ((bytes_same_iff sel sel).1 refl)

lp_selector-same :
    (sel args text : Text)
    → split_selector text ≡ some (sel, args)
    → lp_selector text sel ≡ some args
unfolding lp_selector
lp_selector-same sel args text h =
    bind_of (split_selector text) _ (sel, args) h ∙ same_guard sel args

-- A call of plain types that is put together from its selector and the encoding of its arguments has
-- that selector, and its arguments decode to the values that were encoded, in their decoded form.
pub lp_selector-calldata_text :
    (sel : Text) (types : List Text) (parsed : List (Kind × Dims)) (values : Values) (bs : Bytes)
    (decoded : Values)
    → length sel ≡ 8
    → all_lower_hex sel ≡ true
    → parse_types types ≡ some parsed
    → All IsPlain parsed
    → encode_args types values ≡ some bs
    → All IsByte bs
    → canonical_args parsed values ≡ some decoded
    → (lp_selector (calldata_text sel bs) sel >>= abi_decode types) ≡ some decoded
lp_selector-calldata_text sel types parsed values bs decoded eight low p plain e bytes c =
    let args =
      lp_selector-same sel (with_0x (to_hex bs)) (calldata_text sel bs)
        (split_selector-calldata_text sel bs eight low bytes) in
    bind_of (lp_selector (calldata_text sel bs) sel) (abi_decode types) (with_0x (to_hex bs)) args
    ∙ (abi_decode-to_hex types bs bytes
        ∙ decode_abi-encode_args types parsed values bs decoded p plain e c)
