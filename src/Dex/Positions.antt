-- ===== src/Dex/Positions.antt =====
-- How dex.py binds the calls on a position of Uniswap v3 that collect from it or remove it.
pub mod Sound
use spellbook.Prelude.{
  ℕ, Bool, ◌&&◌, List, Option, none, some, [], ◌∷◌, ◌==◌, leb, number_IsKey, bytes_IsKey,
}
use spellbook.Prelude.Options.{◌>>=◌, ◌>>◌, guard}
use spellbook.Prelude.Codes.{lower_text}
use spellbook.Streamable.Utf8.{Text}
use spellbook.Abi.Values.{pos, number, str, items, Values, nil, cons}
use spellbook.Dex.Calls.{
  v3_decrease_liquidity, v3_collect, v3_multicall, lp_selector, abi_decode, address_type,
  bytes_list_type, uint256_type, uint128_type,
}
use spellbook.Dex.Liquidity.{Exit}

-- The arguments of collect.
pub record Collect : Type 0 where
  pub token_id : ℕ
  pub recipient : Text
  pub max0 : ℕ
  pub max1 : ℕ

abbrev pub collect_of : Values → Option Collect
collect_of
      (cons
        (number (pos tid))
        (cons (str rcpt) (cons (number (pos m0)) (cons (number (pos m1)) nil)))) =
    some record { token_id = tid; recipient = rcpt; max0 = m0; max1 = m1 }
collect_of _ = none

abbrev pub collect_types : List Text
collect_types = uint256_type ∷ address_type ∷ uint128_type ∷ uint128_type ∷ []

-- `_v3_collect_args`
unfoldable pub v3_collect_args : Text → ℕ → Text → Option Collect
unfolding abi_decode
v3_collect_args args token_id wallet = do
  vs ← abi_decode collect_types args
  c ← collect_of vs
  guard (c.token_id == token_id)
  guard (c.recipient == lower_text wallet)
  some c

-- `decode_v3_collect_calldata`
unfoldable pub decode_v3_collect : Text → ℕ → Text → Option Collect
unfolding lp_selector v3_collect_args
decode_v3_collect text token_id wallet =
    lp_selector text v3_collect >>= λ args. v3_collect_args args token_id wallet

-- The arguments of decreaseLiquidity.
pub record Decrease : Type 0 where
  pub token_id : ℕ
  pub liquidity : ℕ
  pub min0 : ℕ
  pub min1 : ℕ
  pub deadline : ℕ

abbrev pub decrease_of : Values → Option Decrease
decrease_of
      (cons (number (pos tid)) (
        cons
          (number (pos liq))
          (cons (number (pos m0)) (cons (number (pos m1)) (cons (number (pos deadline)) nil))))) =
    some record { token_id = tid; liquidity = liq; min0 = m0; min1 = m1; deadline = deadline }
decrease_of _ = none

abbrev pub decrease_types : List Text
decrease_types = uint256_type ∷ uint128_type ∷ uint256_type ∷ uint256_type ∷ uint256_type ∷ []

-- The two calls of a multicall, and no other.
abbrev pub two_calls : Values → Option (Text × Text)
two_calls (cons (items (cons (str a) (cons (str b) nil))) nil) = some (a, b)
two_calls _ = none

-- The checks of a decrease.
abbrev pub is_exit : ℕ → ℕ → ℕ → ℕ → Exit → Bool
is_exit token_id liquidity min0 min1 exit =
    (token_id == exit.token_id && liquidity == exit.liquidity)
    && (leb exit.min0 min0 && leb exit.min1 min1)

-- `decode_v3_remove_calldata`
unfoldable pub decode_v3_remove : Text → Exit → Option (Decrease × Collect)
unfolding lp_selector abi_decode v3_collect_args
decode_v3_remove text exit = do
  args ← lp_selector text v3_multicall
  vs ← abi_decode (bytes_list_type ∷ []) args
  (first_call, second_call) ← two_calls vs
  dec_args ← lp_selector first_call v3_decrease_liquidity
  ds ← abi_decode decrease_types dec_args
  d ← decrease_of ds
  guard (is_exit d.token_id d.liquidity d.min0 d.min1 exit)
  col_args ← lp_selector second_call v3_collect
  c ← v3_collect_args col_args exit.token_id exit.wallet
  some (d, c)
