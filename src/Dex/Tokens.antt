-- ===== src/Dex/Tokens.antt =====
-- The tokens, the venues and the checks of dex.py that its other parts share. A text that is no
-- address, or a number that is none, is refused where the code refuses it.
pub mod Addresses
use spellbook.Prelude.{
  ℕ, Bool, true, false, ◌&&◌, ◌||◌, Option, none, some, List, [], ◌∷◌, length, drop, ltb, leb, ◌==◌,
  number_IsKey, bytes_IsKey, contains, if◌then◌else◌,
}
use spellbook.Prelude.Options.{guard}
use spellbook.Prelude.Codes.{codes, is_digit, lower_text, strip, after_0x}
use spellbook.Prelude.Dict.{Dict, get}
use spellbook.Streamable.Utf8.{Text}

abbrev pub native_sentinel : Text
native_sentinel = codes "0xeeeeeeeeeeeeeeeeeeeeeeeeeeeeeeeeeeeeeeee"

abbrev pub native_zero : Text
native_zero = codes "0x0000000000000000000000000000000000000000"

-- `_is_native_token`
unfoldable pub is_native_token : Text → Bool
is_native_token token = let t = lower_text token in t == native_sentinel || t == native_zero

-- `_same_token`
unfoldable pub same_token : Text → Text → Bool
unfolding is_native_token
same_token a b =
    if is_native_token a || is_native_token b
    then is_native_token a && is_native_token b
    else lower_text a == lower_text b

-- The canonical names: `VENUE_MATCHA`, `VENUE_UNISWAP`, `VENUE_CAST`.
pub data Venue : Type 0 where
  matcha uniswap cast : Venue

abbrev pub venue_aliases : Dict Text Venue
venue_aliases =
    (codes "0x", matcha)
    ∷ (codes "matcha", matcha)
    ∷ (codes "uniswap", uniswap)
    ∷ (codes "cast", cast)
    ∷ []

unfoldable pub normalize_venue : Text → Option Venue
normalize_venue name = get (lower_text (strip name)) venue_aliases

abbrev pub zerox_chains : List ℕ
zerox_chains =
    1 ∷ 2741 ∷ 42161 ∷ 5042 ∷ 43114 ∷ 8453 ∷ 80094 ∷ 56 ∷ 999 ∷ 57073 ∷ 59144 ∷ 5000 ∷ 143 ∷ 10
    ∷ 9745 ∷ 137 ∷ 4663 ∷ 534352 ∷ 146 ∷ 4217 ∷ 130 ∷ 480 ∷ []

abbrev pub uniswap_chains : List ℕ
uniswap_chains =
    1 ∷ 10 ∷ 56 ∷ 130 ∷ 137 ∷ 143 ∷ 196 ∷ 324 ∷ 480 ∷ 1868 ∷ 4217 ∷ 4326 ∷ 4663 ∷ 5042 ∷ 8453
    ∷ 42161 ∷ 42220 ∷ 43114 ∷ 57073 ∷ 59144 ∷ 7777777 ∷ 1301 ∷ 84532 ∷ 11155111 ∷ []

abbrev pub cast_chains : List ℕ
cast_chains = 8453 ∷ 4663 ∷ []

-- `VENUE_CHAINS`
abbrev pub venue_chains : Venue → List ℕ
venue_chains matcha = zerox_chains
venue_chains uniswap = uniswap_chains
venue_chains cast = cast_chains

unfoldable pub venue_serves_chain : Venue → ℕ → Bool
venue_serves_chain venue chain_id = contains chain_id (venue_chains venue)

-- `c in "0123456789abcdefABCDEF"`
abbrev pub is_hex_digit : ℕ → Bool
is_hex_digit c = is_digit c || leb 97 c && leb c 102 || leb 65 c && leb c 70

abbrev pub all_hex : Text → Bool
all_hex [] = true
all_hex (c ∷ s) = is_hex_digit c && all_hex s

-- `_is_address`
unfoldable pub is_address : Text → Bool
is_address s = elim (after_0x s) [ none ↦ false | some digits ↦ length s == 42 && all_hex digits ]

-- `_require_address`
unfoldable pub require_address : Text → Option (Unit {0})
unfolding is_address
require_address s = guard (is_address s)

-- `_require_positive_int`
unfoldable pub require_positive_int : ℕ → Option (Unit {0})
require_positive_int n = guard (ltb 0 n)

-- `int(address, 16) == 0`
abbrev pub all_zeros : Text → Bool
all_zeros [] = true
all_zeros (c ∷ s) = c == 48 && all_zeros s

unfoldable pub is_zero_address : Text → Bool
is_zero_address s = all_zeros (drop 2 s)
