-- ===== src/Dex/Calls.antt =====
-- How dex.py takes a call's text apart: the selector, and the arguments behind it.
pub mod RoundTrip
pub mod Splits
use spellbook.Prelude.{
  ◌%◌, Bool, true, ◌&&◌, ◌||◌, Option, none, some, List, [], ◌∷◌, ◌==◌, leb, length, take, drop,
  number_IsKey, bytes_IsKey,
}
use spellbook.Prelude.Options.{◌>>=◌, ◌>>◌, guard}
use spellbook.Prelude.Codes.{codes, from_hex, after_0x, with_0x, is_digit, lower_text}
use spellbook.Streamable.Bytes.{Bytes}
use spellbook.Streamable.Utf8.{Text}
use spellbook.Abi.Values.{str, Values, nil, cons}
use spellbook.Abi.Decode.{decode_abi}

-- The selectors, by the function's name in the contract.
abbrev pub allowance_holder_exec : Text
allowance_holder_exec = codes "2213bc0b"

abbrev pub settler_execute : Text
settler_execute = codes "1fff991f"

abbrev pub ur_execute : Text
ur_execute = codes "24856bc3"

abbrev pub ur_execute_deadline : Text
ur_execute_deadline = codes "3593564c"

abbrev pub v2_add_liquidity : Text
v2_add_liquidity = codes "e8e33700"

abbrev pub v2_remove_liquidity : Text
v2_remove_liquidity = codes "baa2abde"

abbrev pub v3_mint : Text
v3_mint = codes "88316456"

abbrev pub v3_decrease_liquidity : Text
v3_decrease_liquidity = codes "0c49ccbe"

abbrev pub v3_collect : Text
v3_collect = codes "fc6f7865"

abbrev pub v3_multicall : Text
v3_multicall = codes "ac9650d8"

abbrev pub v4_modify_liquidities : Text
v4_modify_liquidities = codes "dd46508f"

-- `c in "0123456789abcdef"`
abbrev pub all_lower_hex : Text → Bool
all_lower_hex [] = true
all_lower_hex (c ∷ s) = (is_digit c || leb 97 c && leb c 102) && all_lower_hex s

-- `_split_selector`
unfoldable pub split_selector : Text → Option (Text × Text)
split_selector text = do
  digits ← after_0x text
  let h = lower_text digits
  guard (leb 8 (length h) && (length h % 2 == 0 && all_lower_hex h))
  some (take 8 h, with_0x (drop 8 h))

-- `_lp_selector`
unfoldable pub lp_selector : Text → Text → Option Text
unfolding split_selector
lp_selector text want = do (sel, args) ← split_selector text; guard (sel == want); some args

-- `_abi_decode`
unfoldable pub abi_decode : List Text → Text → Option Values
unfolding decode_abi
abi_decode types text = decode_abi types (str text)

-- The names of the types.
abbrev pub address_type : Text
address_type = codes "address"

abbrev pub bytes_type : Text
bytes_type = codes "bytes"

abbrev pub bytes_list_type : Text
bytes_list_type = codes "bytes[]"

abbrev pub uint256_type : Text
uint256_type = codes "uint256"

abbrev pub uint128_type : Text
uint128_type = codes "uint128"

abbrev pub uint24_type : Text
uint24_type = codes "uint24"

abbrev pub int24_type : Text
int24_type = codes "int24"

-- The bytes that a decoded `bytes` stands for: `bytes.fromhex(v[2:])`.
unfoldable pub bytes_of : Text → Option Bytes
unfolding from_hex
bytes_of text = from_hex (drop 2 text)

-- The texts of a decoded list.
unfoldable pub texts_of : Values → Option (List Text)
texts_of nil = some []
texts_of (cons (str s) vs) = texts_of vs >>= λ ss. some (s ∷ ss)
texts_of _ = none
