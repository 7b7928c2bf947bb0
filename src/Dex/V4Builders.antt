-- ===== src/Dex/V4Builders.antt =====
-- The builders of dex.py for the Uniswap v4 PositionManager.
use spellbook.Prelude.{
  ℕ, suc, ◌^◌, ◌%◌, Bool, true, not, ◌&&◌, ◌||◌, Option, some, List, [], ◌∷◌, ◌==◌, ltb, length,
  number_IsKey, bytes_IsKey, contains, if◌then◌else◌,
}
use spellbook.Prelude.Options.{◌>>=◌, ◌>>◌, guard}
use spellbook.Prelude.Codes.{lower_text}
use spellbook.Streamable.Bytes.{Bytes}
use spellbook.Streamable.Utf8.{Text}
use spellbook.Abi.Values.{ℤ, pos, negsuc, in_range}
use spellbook.Dex.Tokens.{native_zero, require_address, require_positive_int}
use spellbook.Dex.Words.{
  unsigned, u256, u24, u128, i24, addr, enc_bytes, enc_bytes_array, concat, fixed, dynamic,
  head_tail, calldata_text,
}
use spellbook.Dex.Calls.{v4_modify_liquidities}
use spellbook.Dex.Builders.{text_ltb, int_ltb, words}

-- `abs(z)`
abbrev pub magnitude : ℤ → ℕ
magnitude (pos n) = n
magnitude (negsuc n) = suc n

-- The arguments of a pool's key and a position's range.
pub record PoolRange : Type 0 where
  pub fee : ℕ
  pub tick_spacing : ℤ
  pub tick_lower : ℤ
  pub tick_upper : ℤ

-- `_require_v4_pool_key_args`. A tick stands on the spacing when its size does.
unfoldable pub require_v4_pool_key_args : PoolRange → Option (Unit {0})
require_v4_pool_key_args r = do
  guard (ltb r.fee (2 ^ 24))
  guard (ltb 0 (magnitude r.tick_spacing) && ltb (magnitude r.tick_spacing) (2 ^ 23))
  guard (in_range 24 r.tick_lower && in_range 24 r.tick_upper)
  guard (int_ltb r.tick_lower r.tick_upper)
  guard (
      magnitude r.tick_lower % magnitude r.tick_spacing == 0
      && magnitude r.tick_upper % magnitude r.tick_spacing == 0)

-- `_require_v4_currencies`
unfoldable pub require_v4_currencies : Text → Text → Bool → Option (Unit {0})
unfolding require_address
require_v4_currencies currency0 currency1 allow_native = do
  require_address currency0
  require_address currency1
  guard (
      if lower_text currency0 == native_zero || lower_text currency1 == native_zero
      then allow_native && lower_text currency0 == native_zero
      else true)
  guard (text_ltb (lower_text currency0) (lower_text currency1))

-- `build_v4_pool_key`
unfoldable pub build_v4_pool_key : Text → Text → ℕ → ℤ → Text → Bool → Option Bytes
unfolding require_v4_currencies words
build_v4_pool_key currency0 currency1 fee tick_spacing hooks allow_native = do
  require_v4_currencies currency0 currency1 allow_native
  bs ← words (addr currency0 ∷ addr currency1 ∷ u24 fee ∷ i24 tick_spacing ∷ addr hooks ∷ [])
  some (concat bs)

-- `V4_ACTIONS.values()`
abbrev pub v4_actions : List ℕ
v4_actions = 0 ∷ 1 ∷ 2 ∷ 3 ∷ 13 ∷ 17 ∷ 18 ∷ 19 ∷ 20 ∷ []

abbrev pub all_actions : Bytes → Bool
all_actions [] = true
all_actions (a ∷ actions) = contains a v4_actions && all_actions actions

-- `build_v4_modify_liquidities_calldata`
unfoldable pub build_v4_modify_liquidities : Bytes → List Bytes → ℕ → Option Text
unfolding require_positive_int enc_bytes enc_bytes_array unsigned head_tail calldata_text
build_v4_modify_liquidities actions params deadline = do
  guard (not (length actions == 0) && length actions == length params)
  guard (all_actions actions)
  require_positive_int deadline
  e ← enc_bytes actions
  es ← enc_bytes_array params
  unlock ← head_tail (dynamic ∷ dynamic ∷ []) (e ∷ es ∷ [])
  end ← u256 deadline
  tail ← enc_bytes unlock
  payload ← head_tail (dynamic ∷ fixed end ∷ []) (tail ∷ [])
  some (calldata_text v4_modify_liquidities payload)

-- Static words, and then some bytes.
unfoldable pub words_then : List (Option Bytes) → Bytes → Option Bytes
unfolding words enc_bytes head_tail
words_then ws payload = do
  bs ← words ws
  tail ← enc_bytes payload
  head_tail (fixed (concat bs) ∷ dynamic ∷ []) (tail ∷ [])

-- `build_v4_mint_params`
unfoldable pub build_v4_mint_params :
    Text → Text → PoolRange → Text → ℕ → ℕ → ℕ → Text → Bytes → Bool → Option Bytes
unfolding require_v4_currencies require_v4_pool_key_args require_positive_int build_v4_pool_key
    words_then
build_v4_mint_params currency0 currency1 r hooks liquidity max0 max1 owner hook_data allow_native =
    do
      require_v4_currencies currency0 currency1 allow_native
      require_v4_pool_key_args r
      require_positive_int liquidity
      key ← build_v4_pool_key currency0 currency1 r.fee r.tick_spacing hooks allow_native
      words_then
          (some key
            ∷ i24 r.tick_lower
            ∷ i24 r.tick_upper
            ∷ u256 liquidity
            ∷ u128 max0
            ∷ u128 max1
            ∷ addr owner
            ∷ [])
          hook_data

-- `build_v4_decrease_params`
unfoldable pub build_v4_decrease_params : ℕ → ℕ → ℕ → ℕ → Bytes → Option Bytes
unfolding require_positive_int words_then
build_v4_decrease_params token_id liquidity min0 min1 hook_data = do
  require_positive_int token_id
  words_then (u256 token_id ∷ u256 liquidity ∷ u128 min0 ∷ u128 min1 ∷ []) hook_data

-- `build_v4_increase_params`
unfoldable pub build_v4_increase_params : ℕ → ℕ → ℕ → ℕ → Bytes → Option Bytes
unfolding require_positive_int words_then
build_v4_increase_params token_id liquidity max0 max1 hook_data = do
  require_positive_int token_id
  require_positive_int liquidity
  words_then (u256 token_id ∷ u128 liquidity ∷ u128 max0 ∷ u128 max1 ∷ []) hook_data

-- `build_v4_settle_pair_params`
unfoldable pub build_v4_settle_pair_params : Text → Text → Bool → Option Bytes
unfolding require_v4_currencies words
build_v4_settle_pair_params currency0 currency1 allow_native = do
  require_v4_currencies currency0 currency1 allow_native
  bs ← words (addr currency0 ∷ addr currency1 ∷ [])
  some (concat bs)

-- `build_v4_take_pair_params`
unfoldable pub build_v4_take_pair_params : Text → Text → Text → Bool → Option Bytes
unfolding require_v4_currencies words
build_v4_take_pair_params currency0 currency1 recipient allow_native = do
  require_v4_currencies currency0 currency1 allow_native
  bs ← words (addr currency0 ∷ addr currency1 ∷ addr recipient ∷ [])
  some (concat bs)

-- `build_v4_burn_params`
unfoldable pub build_v4_burn_params : ℕ → Option Bytes
unfolding require_positive_int words_then
build_v4_burn_params token_id = do
  require_positive_int token_id
  words_then (u256 token_id ∷ u128 0 ∷ u128 0 ∷ []) []

-- `build_v4_lp_increase_calldata`
unfoldable pub build_v4_lp_increase : Text → Text → ℕ → ℕ → ℕ → ℕ → ℕ → Bool → Option Text
unfolding build_v4_increase_params build_v4_settle_pair_params build_v4_modify_liquidities
build_v4_lp_increase currency0 currency1 token_id liquidity max0 max1 deadline allow_native = do
  increase ← build_v4_increase_params token_id liquidity max0 max1 []
  settle ← build_v4_settle_pair_params currency0 currency1 allow_native
  build_v4_modify_liquidities (0 ∷ 13 ∷ []) (increase ∷ settle ∷ []) deadline

-- `build_v4_lp_add_calldata`
unfoldable pub build_v4_lp_add :
    Text → Text → PoolRange → Text → ℕ → ℕ → ℕ → Text → ℕ → Bool → Option Text
unfolding build_v4_mint_params build_v4_settle_pair_params build_v4_modify_liquidities
build_v4_lp_add currency0 currency1 r hooks liquidity max0 max1 recipient deadline allow_native = do
  mint ←
      build_v4_mint_params currency0 currency1 r hooks liquidity max0 max1 recipient [] allow_native
  settle ← build_v4_settle_pair_params currency0 currency1 allow_native
  build_v4_modify_liquidities (2 ∷ 13 ∷ []) (mint ∷ settle ∷ []) deadline

-- `build_v4_lp_remove_calldata`
unfoldable pub build_v4_lp_remove :
    ℕ → ℕ → ℕ → ℕ → Text → Text → Text → ℕ → Bool → Bool → Option Text
unfolding require_positive_int build_v4_decrease_params build_v4_take_pair_params
    build_v4_burn_params build_v4_modify_liquidities
build_v4_lp_remove token_id liquidity min0 min1 currency0 currency1 recipient deadline burn_nft
      allow_native =
    do
      require_positive_int liquidity
      dec ← build_v4_decrease_params token_id liquidity min0 min1 []
      pair ← build_v4_take_pair_params currency0 currency1 recipient allow_native
      burns ←
          if burn_nft then (do burn ← build_v4_burn_params token_id; some (burn ∷ [])) else some []
      build_v4_modify_liquidities (1 ∷ 17 ∷ (if burn_nft then 3 ∷ [] else [])) (dec ∷ pair ∷ burns)
          deadline

-- `build_v4_lp_claim_calldata`
unfoldable pub build_v4_lp_claim : ℕ → Text → Text → Text → ℕ → Bool → Option Text
unfolding build_v4_decrease_params build_v4_take_pair_params build_v4_modify_liquidities
build_v4_lp_claim token_id currency0 currency1 recipient deadline allow_native = do
  dec ← build_v4_decrease_params token_id 0 0 0 []
  pair ← build_v4_take_pair_params currency0 currency1 recipient allow_native
  build_v4_modify_liquidities (1 ∷ 17 ∷ []) (dec ∷ pair ∷ []) deadline
