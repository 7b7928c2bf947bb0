-- ===== src/Dex/Builders.antt =====
-- The calldata builders of dex.py for ERC-20, Uniswap v2 and v3, and Permit2. A number is not below
-- zero, save a tick.
pub mod Words
pub mod Decoded
pub mod Accepted
use spellbook.Prelude.{
  ℕ, ◌-◌, ◌^◌, ◌%◌, Bool, true, false, not, ◌&&◌, Option, none, some, List, [], ◌∷◌, ◌==◌, leb, ltb,
  length, drop, number_IsKey, bytes_IsKey, contains, if◌then◌else◌,
}
use spellbook.Prelude.Options.{◌>>=◌, ◌>>◌, guard}
use spellbook.Prelude.Codes.{codes, lower_text, from_hex, after_0x, with_0x}
use spellbook.Streamable.Bytes.{Bytes}
use spellbook.Streamable.Utf8.{Text}
use spellbook.Abi.Values.{ℤ, pos, negsuc}
use spellbook.Dex.Tokens.{require_positive_int}
use spellbook.Dex.Words.{
  unsigned, u256, u24, u128, u160, u48, i24, addr, enc_bytes_array, enc_addr_array, concat, fixed,
  dynamic, head_tail, calldata_text,
}
use spellbook.Dex.Calls.{
  v2_add_liquidity, v2_remove_liquidity, v3_mint, v3_decrease_liquidity, v3_collect, v3_multicall,
}

-- Python's `<` on texts.
abbrev pub text_ltb : Text → Text → Bool
text_ltb [] [] = false
text_ltb [] (d ∷ t) = true
text_ltb (c ∷ s) [] = false
text_ltb (c ∷ s) (d ∷ t) = if c == d then text_ltb s t else ltb c d

-- `<` on whole numbers.
abbrev pub int_ltb : ℤ → ℤ → Bool
int_ltb (pos m) (pos n) = ltb m n
int_ltb (pos m) (negsuc n) = false
int_ltb (negsuc m) (pos n) = true
int_ltb (negsuc m) (negsuc n) = ltb n m

-- The words of a call, one after the other: each a result that may fail.
unfoldable pub words : List (Option Bytes) → Option (List Bytes)
words [] = some []
words (w ∷ ws) = do b ← w; bs ← words ws; some (b ∷ bs)

-- `_calldata(selector, _enc_tuple(words))`
unfoldable pub static_call : Text → List (Option Bytes) → Option Text
unfolding words calldata_text
static_call selector ws = words ws >>= λ bs. some (calldata_text selector (concat bs))

unfoldable pub build_approve : Text → ℕ → Option Text
unfolding require_positive_int static_call
build_approve spender amt = do
  require_positive_int amt
  static_call (codes "095ea7b3") (addr spender ∷ u256 amt ∷ [])

unfoldable pub build_allowance : Text → Text → Option Text
unfolding static_call
build_allowance owner spender = static_call (codes "dd62ed3e") (addr owner ∷ addr spender ∷ [])

-- `build_v2_swap_calldata`
unfoldable pub build_v2_swap : ℕ → ℕ → List Text → Text → ℕ → Option Text
unfolding require_positive_int enc_addr_array addr unsigned head_tail calldata_text
build_v2_swap amount_in amount_out_min path to deadline = do
  require_positive_int amount_in
  guard (leb 2 (length path))
  require_positive_int deadline
  a_in ← u256 amount_in
  a_min ← u256 amount_out_min
  rcpt ← addr to
  end ← u256 deadline
  tail ← enc_addr_array path
  payload ← head_tail (fixed a_in ∷ fixed a_min ∷ dynamic ∷ fixed rcpt ∷ fixed end ∷ []) (tail ∷ [])
  some (calldata_text (codes "38ed1739") payload)

-- `build_v2_add_liquidity_calldata`
unfoldable pub build_v2_add_liquidity : Text → Text → ℕ → ℕ → ℕ → ℕ → Text → ℕ → Option Text
unfolding require_positive_int static_call
build_v2_add_liquidity token_a token_b a_desired b_desired a_min b_min to deadline = do
  require_positive_int a_desired
  require_positive_int b_desired
  require_positive_int deadline
  static_call v2_add_liquidity (
      addr token_a
      ∷ addr token_b
      ∷ u256 a_desired
      ∷ u256 b_desired
      ∷ u256 a_min
      ∷ u256 b_min
      ∷ addr to
      ∷ u256 deadline
      ∷ [])

abbrev pub v3_fees : List ℕ
v3_fees = 100 ∷ 500 ∷ 3000 ∷ 10000 ∷ []

-- `build_v3_exact_input_single_calldata`
unfoldable pub build_v3_exact_input_single : Text → Text → ℕ → Text → ℕ → ℕ → ℕ → ℕ → Option Text
unfolding require_positive_int static_call
build_v3_exact_input_single token_in token_out fee recipient amount_in amount_out_min deadline
      sqrt_price_limit_x96 =
    do
      guard (contains fee v3_fees)
      require_positive_int amount_in
      require_positive_int deadline
      static_call (codes "414bf389") (
          addr token_in
          ∷ addr token_out
          ∷ u24 fee
          ∷ addr recipient
          ∷ u256 deadline
          ∷ u256 amount_in
          ∷ u256 amount_out_min
          ∷ u256 sqrt_price_limit_x96
          ∷ [])

-- `build_v3_mint_calldata`
unfoldable pub build_v3_mint : Text → Text → ℕ → ℤ → ℤ → ℕ → ℕ → ℕ → ℕ → Text → ℕ → Option Text
unfolding require_positive_int static_call
build_v3_mint token0 token1 fee tick_lower tick_upper desired0 desired1 min0 min1 recipient
      deadline =
    do
      guard (text_ltb (lower_text token0) (lower_text token1))
      guard (contains fee v3_fees)
      guard (int_ltb tick_lower tick_upper)
      require_positive_int desired0
      require_positive_int desired1
      require_positive_int deadline
      static_call v3_mint (
          addr token0
          ∷ addr token1
          ∷ u24 fee
          ∷ i24 tick_lower
          ∷ i24 tick_upper
          ∷ u256 desired0
          ∷ u256 desired1
          ∷ u256 min0
          ∷ u256 min1
          ∷ addr recipient
          ∷ u256 deadline
          ∷ [])

-- `build_v2_remove_liquidity_calldata`
unfoldable pub build_v2_remove_liquidity : Text → Text → ℕ → ℕ → ℕ → Text → ℕ → Option Text
unfolding require_positive_int static_call
build_v2_remove_liquidity token_a token_b liquidity a_min b_min to deadline = do
  require_positive_int liquidity
  require_positive_int deadline
  static_call v2_remove_liquidity (
      addr token_a
      ∷ addr token_b
      ∷ u256 liquidity
      ∷ u256 a_min
      ∷ u256 b_min
      ∷ addr to
      ∷ u256 deadline
      ∷ [])

-- `build_v3_decrease_liquidity_calldata`
unfoldable pub build_v3_decrease_liquidity : ℕ → ℕ → ℕ → ℕ → ℕ → Option Text
unfolding require_positive_int static_call
build_v3_decrease_liquidity token_id liquidity min0 min1 deadline = do
  require_positive_int token_id
  require_positive_int liquidity
  require_positive_int deadline
  static_call v3_decrease_liquidity
      (u256 token_id ∷ u128 liquidity ∷ u256 min0 ∷ u256 min1 ∷ u256 deadline ∷ [])

-- `build_v3_collect_calldata`
unfoldable pub build_v3_collect : ℕ → Text → ℕ → ℕ → Option Text
unfolding require_positive_int static_call
build_v3_collect token_id recipient max0 max1 = do
  require_positive_int token_id
  static_call v3_collect (u256 token_id ∷ addr recipient ∷ u128 max0 ∷ u128 max1 ∷ [])

-- A text without the "0x" in front, if it has one.
unfoldable pub bare : Text → Text
bare c = elim (after_0x c) [ none ↦ c | some s ↦ s ]

-- A call's bytes: of eight digits at least, with "0x" in front or without.
unfoldable pub payload_of : Text → Option Bytes
unfolding from_hex bare
payload_of c = do let h = bare c; guard (leb 8 (length h) && length h % 2 == 0); from_hex h

unfoldable pub payloads_of : List Text → Option (List Bytes)
unfolding payload_of
payloads_of [] = some []
payloads_of (c ∷ calls) = do b ← payload_of c; bs ← payloads_of calls; some (b ∷ bs)

-- `build_v3_multicall_calldata`
unfoldable pub build_v3_multicall : List Text → Option Text
unfolding payloads_of enc_bytes_array head_tail calldata_text
build_v3_multicall calls = do
  guard (not (length calls == 0))
  payloads ← payloads_of calls
  tail ← enc_bytes_array payloads
  payload ← head_tail (dynamic ∷ []) (tail ∷ [])
  some (calldata_text v3_multicall payload)

-- `build_v3_remove_and_collect_calldata`
unfoldable pub build_v3_remove_and_collect : ℕ → ℕ → ℕ → ℕ → Text → ℕ → Option Text
unfolding build_v3_decrease_liquidity build_v3_collect build_v3_multicall
build_v3_remove_and_collect token_id liquidity min0 min1 recipient deadline = do
  dec ← build_v3_decrease_liquidity token_id liquidity min0 min1 deadline
  col ← build_v3_collect token_id recipient (2 ^ 128 - 1) (2 ^ 128 - 1)
  build_v3_multicall (dec ∷ col ∷ [])

unfoldable pub build_permit2_allowance : Text → Text → Text → Option Text
unfolding static_call
build_permit2_allowance owner token spender =
    static_call (codes "927da105") (addr owner ∷ addr token ∷ addr spender ∷ [])

unfoldable pub build_permit2_approve : Text → Text → ℕ → ℕ → Option Text
unfolding require_positive_int static_call
build_permit2_approve token spender amt expiration = do
  require_positive_int amt
  require_positive_int expiration
  static_call (codes "87517c45") (addr token ∷ addr spender ∷ u160 amt ∷ u48 expiration ∷ [])

unfoldable pub build_erc721_owner_of : ℕ → Option Text
unfolding require_positive_int static_call
build_erc721_owner_of token_id = do
  require_positive_int token_id
  static_call (codes "6352211e") (u256 token_id ∷ [])

-- `build_pool_manager_get_slot0_calldata`, and the state view's, which is the same.
unfoldable pub build_get_slot0 : Text → Option Text
unfolding bare from_hex calldata_text
build_get_slot0 pool_id = do
  guard (length (bare pool_id) == 64)
  b ← from_hex (bare pool_id)
  some (calldata_text (codes "c815641c") b)

-- `decode_address_return`, and `decode_erc721_owner_of`, which is the same.
unfoldable pub decode_address_return : Text → Option Text
unfolding bare
decode_address_return result = do
  guard (length (bare result) == 64)
  some (with_0x (drop 24 (bare result)))
