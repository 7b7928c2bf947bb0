-- ===== src/Dex/Builders/Decoded.antt =====
-- What the builders of dex.py make is decoded to what it was built of.
use mathlib.Core.List.{append-nil}
use spellbook.Prelude.{
  All, ℕ, ◌*◌, ◌≡◌, refl, sym, ap, subst, ◌∙◌, Bool, true, false, Option, some, List, [], ◌∷◌, ◌++◌,
  ◌==◌, number_IsKey, length, drop, All-append,
}
use spellbook.Prelude.Options.{◌>>=◌, bind-some, guard-some, some-carry, bind_of, guard_of}
use spellbook.Prelude.Codes.{lower_text, from_hex}
use spellbook.Streamable.Bytes.{Bytes}
use spellbook.Streamable.Utf8.{Text}
use spellbook.Abi.Values.{Kind, Dims, address, str, Values, nil, cons, count}
use spellbook.Abi.Types.{parse_types, is_dynamic}
use spellbook.Abi.Encode.{
  zeros, encode_args, encode_pairs, encode_value, encode_sequence, sequence_from,
}
use spellbook.Abi.RoundTrip.{canonical}
use spellbook.Abi.Arguments.{IsPlain, canonical_args}
use spellbook.Dex.Tokens.{is_address, require_address}
use spellbook.Dex.Tokens.Addresses.{is_address-digits}
use spellbook.Dex.Words.{addr, concat}
use spellbook.Dex.Calls.{all_lower_hex, lp_selector, abi_decode}
use spellbook.Dex.Calls.RoundTrip.{IsByte, lp_selector-calldata_text}
use spellbook.Dex.Builders.{words, static_call}
use spellbook.Dex.Builders.Words.{IsWord, address-IsWord, from_hex-Reads}

pub addr-IsWord :
    (a : Text) (w : Bytes) → addr a ≡ some w → IsWord address (str a) w (str (lower_text a))
unfolding addr require_address
addr-IsWord a w ok =
    let (one, ok) = guard-some (is_address a) _ w ok in
    let (b, read, same) = bind-some (from_hex (drop 2 a)) _ w ok in
    let (s, is_0x, long, hex) = is_address-digits a one in
    let read : from_hex s ≡ some b = subst (λ a. from_hex (drop 2 a) ≡ some b) is_0x read in
    some-carry (λ w. IsWord address (str a) w (str (lower_text a))) same
      (subst (λ a. IsWord address (str a) (zeros 12 ++ b) (str (lower_text a))) (sym is_0x)
        (address-IsWord s b long read (from_hex-Reads s b hex read)))

-- The values of a call with their words.
abbrev AllWords : List Kind → Values → List Bytes → Values → Type 0
AllWords [] nil [] nil = Unit {0}
AllWords (k ∷ ks) (cons v vs) (w ∷ ws) (cons c cs) = IsWord k v w c × AllWords ks vs ws cs
AllWords _ _ _ _ = ⊥

-- The words that a builder makes, as far as it makes them.
abbrev pub Made : List (Option Bytes) → List Kind → Values → Values → Type 0
Made [] [] nil nil = Unit {0}
Made (o ∷ os) (k ∷ ks) (cons v vs) (cons c cs) =
    ((w : Bytes) → o ≡ some w → IsWord k v w c) × Made os ks vs cs
Made _ _ _ _ = ⊥

abbrev pub statics : List Kind → List (Kind × Dims)
statics [] = []
statics (k ∷ ks) = (k, []) ∷ statics ks

statics-IsPlain : (ks : List Kind) → All IsPlain (statics ks)
statics-IsPlain [] = tt
statics-IsPlain (k ∷ ks) = (refl, statics-IsPlain ks)

abbrev unmarked : List Bytes → List (Bytes × Bool)
unmarked [] = []
unmarked (w ∷ ws) = (w, false) ∷ unmarked ws

sequence_from-unmarked :
    (off : ℕ) (ws : List Bytes) → sequence_from off (unmarked ws) ≡ some (concat ws, [])
unfolding sequence_from
sequence_from-unmarked off [] = refl
sequence_from-unmarked off (w ∷ ws) = rw (sequence_from-unmarked off ws)

encode_sequence-unmarked : (ws : List Bytes) → encode_sequence (unmarked ws) ≡ some (concat ws)
unfolding encode_sequence
encode_sequence-unmarked ws =
    rw (sequence_from-unmarked (32 * length (unmarked ws)) ws) (ap some (append-nil (concat ws)))

encode_pairs-words :
    (ks : List Kind) (vs : Values) (ws : List Bytes) (cs : Values)
    → AllWords ks vs ws cs
    → encode_pairs (statics ks) vs ≡ some (unmarked ws)
unfolding encode_pairs encode_value is_dynamic
encode_pairs-words [] nil [] nil h = refl
encode_pairs-words (k ∷ ks) (cons v vs) (w ∷ ws) (cons c cs) h =
    rw (h.0.encodes, h.0.static, encode_pairs-words ks vs ws cs h.1)
encode_pairs-words _ _ _ _ h = absurd h

canonical_args-words :
    (ks : List Kind) (vs : Values) (ws : List Bytes) (cs : Values)
    → AllWords ks vs ws cs
    → canonical_args (statics ks) vs ≡ some cs
unfolding canonical_args canonical
canonical_args-words [] nil [] nil h = refl
canonical_args-words (k ∷ ks) (cons v vs) (w ∷ ws) (cons c cs) h =
    rw (h.0.decodes, canonical_args-words ks vs ws cs h.1)
canonical_args-words _ _ _ _ h = absurd h

concat-IsByte :
    (ks : List Kind) (vs : Values) (ws : List Bytes) (cs : Values)
    → AllWords ks vs ws cs
    → All IsByte (concat ws)
concat-IsByte [] nil [] nil h = tt
concat-IsByte (k ∷ ks) (cons v vs) (w ∷ ws) (cons c cs) h =
    All-append IsByte w (concat ws) h.0.bytes (concat-IsByte ks vs ws cs h.1)
concat-IsByte _ _ _ _ h = absurd h

words-AllWords :
    (os : List (Option Bytes)) (ks : List Kind) (vs : Values) (ws : List Bytes) (cs : Values)
    → Made os ks vs cs
    → words os ≡ some ws
    → AllWords ks vs ws cs
unfolding words
words-AllWords [] [] nil ws nil made ok = some-carry (λ ws. AllWords [] nil ws nil) ok tt
words-AllWords (o ∷ os) (k ∷ ks) (cons v vs) ws (cons c cs) made ok =
    let (w, here, ok) = bind-some o _ ws ok in
    let (rest, there, same) = bind-some (words os) _ ws ok in
    some-carry (λ ws. AllWords (k ∷ ks) (cons v vs) ws (cons c cs)) same
      (made.0 w here, words-AllWords os ks vs rest cs made.1 there)
words-AllWords _ _ _ _ _ made ok = absurd made

encode_args-words :
    (types : List Text) (ks : List Kind) (vs : Values) (ws : List Bytes) (cs : Values)
    → parse_types types ≡ some (statics ks)
    → (length types == count vs) ≡ true
    → AllWords ks vs ws cs
    → encode_args types vs ≡ some (concat ws)
unfolding encode_args
encode_args-words types ks vs ws cs parse same h =
    guard_of (length types == count vs) _ same
    ∙ (bind_of (parse_types types) _ (statics ks) parse
        ∙ (bind_of (encode_pairs (statics ks) vs) _ (unmarked ws) (encode_pairs-words ks vs ws cs h)
            ∙ encode_sequence-unmarked ws))

-- A call that a builder makes of static words is decoded to the values that these stand for.
pub static_call-decodes :
    (sel : Text) (os : List (Option Bytes)) (text : Text) (types : List Text) (ks : List Kind)
    (vs cs : Values)
    → length sel ≡ 8
    → all_lower_hex sel ≡ true
    → parse_types types ≡ some (statics ks)
    → (length types == count vs) ≡ true
    → Made os ks vs cs
    → static_call sel os ≡ some text
    → (lp_selector text sel >>= abi_decode types) ≡ some cs
unfolding static_call
static_call-decodes sel os text types ks vs cs eight low parse same made ok =
    let (ws, put, is_text) = bind-some (words os) _ text ok in
    let all = words-AllWords os ks vs ws cs made put in
    some-carry (λ text. (lp_selector text sel >>= abi_decode types) ≡ some cs) is_text
      (lp_selector-calldata_text sel types (statics ks) vs (concat ws) cs eight low parse
        (statics-IsPlain ks) (encode_args-words types ks vs ws cs parse same all)
        (concat-IsByte ks vs ws cs all) (canonical_args-words ks vs ws cs all))
