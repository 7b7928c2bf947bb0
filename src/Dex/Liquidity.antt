-- ===== src/Dex/Liquidity.antt =====
-- How dex.py binds the calls that add or remove liquidity of Uniswap v2 and v3 to what was approved.
-- The deadline of a call is read and shown, and bound to nothing.
use spellbook.Prelude.{
  ℕ, Bool, false, not, ◌&&◌, Option, none, some, List, [], ◌∷◌, ◌==◌, leb, number_IsKey,
  bytes_IsKey,
}
use spellbook.Prelude.Options.{◌>>=◌, ◌>>◌, guard}
use spellbook.Prelude.Codes.{lower_text}
use spellbook.Streamable.Utf8.{Text}
use spellbook.Abi.Values.{ℤ, pos, negsuc, number, str, Values, nil, cons}
use spellbook.Dex.Tokens.{is_native_token}
use spellbook.Dex.Calls.{
  v2_add_liquidity, v2_remove_liquidity, v3_mint, lp_selector, abi_decode, address_type,
  uint256_type, uint24_type, int24_type,
}

-- `_lp_erc20_legs`
unfoldable pub are_erc20 : Text → Text → Bool
unfolding is_native_token
are_erc20 a b = not (is_native_token a) && not (is_native_token b)

-- `==` on whole numbers.
abbrev pub same_int : ℤ → ℤ → Bool
same_int (pos m) (pos n) = m == n
same_int (negsuc m) (negsuc n) = m == n
same_int _ _ = false

-- The arguments of Router02.addLiquidity.
pub record V2Add : Type 0 where
  pub token_a : Text
  pub token_b : Text
  pub a_desired : ℕ
  pub b_desired : ℕ
  pub a_min : ℕ
  pub b_min : ℕ
  pub to : Text
  pub deadline : ℕ

abbrev pub v2_add_of : Values → Option V2Add
v2_add_of
      (cons (str ta) (
        cons (str tb) (
          cons (number (pos a_des)) (
            cons (number (pos b_des)) (
              cons (number (pos a_min)) (
                cons (number (pos b_min)) (cons (str to) (cons (number (pos deadline)) nil)))))))) =
    some record {
      token_a = ta;
      token_b = tb;
      a_desired = a_des;
      b_desired = b_des;
      a_min = a_min;
      b_min = b_min;
      to = to;
      deadline = deadline;
    }
v2_add_of _ = none

abbrev pub v2_add_types : List Text
v2_add_types =
    address_type ∷ address_type ∷ uint256_type ∷ uint256_type ∷ uint256_type ∷ uint256_type
    ∷ address_type ∷ uint256_type ∷ []

-- Two tokens that an addition was approved for, with a cap and a minimum of each.
pub record Legs : Type 0 where
  pub token_a : Text
  pub token_b : Text
  pub a_cap : ℕ
  pub b_cap : ℕ
  pub a_min : ℕ
  pub b_min : ℕ
  pub wallet : Text

-- `decode_v2_add_liquidity_calldata`
unfoldable pub decode_v2_add_liquidity : Text → Legs → Option V2Add
unfolding are_erc20 lp_selector abi_decode
decode_v2_add_liquidity text legs = do
  guard (are_erc20 legs.token_a legs.token_b)
  args ← lp_selector text v2_add_liquidity
  vs ← abi_decode v2_add_types args
  c ← v2_add_of vs
  guard (c.token_a == lower_text legs.token_a && c.token_b == lower_text legs.token_b)
  guard (leb c.a_desired legs.a_cap && leb c.b_desired legs.b_cap)
  guard (leb legs.a_min c.a_min && leb legs.b_min c.b_min)
  guard (c.to == lower_text legs.wallet)
  some c

-- The position of a v3 addition: its fee and its ticks.
pub record Range : Type 0 where
  pub fee : ℕ
  pub tick_lower : ℤ
  pub tick_upper : ℤ

-- The arguments of NonfungiblePositionManager.mint.
pub record V3Mint : Type 0 where
  pub token0 : Text
  pub token1 : Text
  pub range : Range
  pub desired0 : ℕ
  pub desired1 : ℕ
  pub min0 : ℕ
  pub min1 : ℕ
  pub recipient : Text
  pub deadline : ℕ

abbrev pub v3_mint_of : Values → Option V3Mint
v3_mint_of
      (cons (str t0) (
        cons (str t1) (
          cons (number (pos f)) (
            cons (number tl) (
              cons (number tu) (
                cons (number (pos a0)) (
                  cons (number (pos a1)) (
                    cons (number (pos m0)) (
                      cons
                        (number (pos m1))
                        (cons (str rcpt) (cons (number (pos deadline)) nil))))))))))) =
    some record {
      token0 = t0;
      token1 = t1;
      range = record { fee = f; tick_lower = tl; tick_upper = tu };
      desired0 = a0;
      desired1 = a1;
      min0 = m0;
      min1 = m1;
      recipient = rcpt;
      deadline = deadline;
    }
v3_mint_of _ = none

abbrev pub v3_mint_types : List Text
v3_mint_types =
    address_type ∷ address_type ∷ uint24_type ∷ int24_type ∷ int24_type ∷ uint256_type
    ∷ uint256_type ∷ uint256_type ∷ uint256_type ∷ address_type ∷ uint256_type ∷ []

-- `decode_v3_mint_calldata`
unfoldable pub decode_v3_mint : Text → Legs → Range → Option V3Mint
unfolding are_erc20 lp_selector abi_decode
decode_v3_mint text legs range = do
  guard (are_erc20 legs.token_a legs.token_b)
  args ← lp_selector text v3_mint
  vs ← abi_decode v3_mint_types args
  c ← v3_mint_of vs
  guard (c.token0 == lower_text legs.token_a && c.token1 == lower_text legs.token_b)
  guard (
      c.range.fee == range.fee
      && (same_int c.range.tick_lower range.tick_lower
          && same_int c.range.tick_upper range.tick_upper))
  guard (leb c.desired0 legs.a_cap && leb c.desired1 legs.b_cap)
  guard (leb legs.a_min c.min0 && leb legs.b_min c.min1)
  guard (c.recipient == lower_text legs.wallet)
  some c

-- The arguments of Router02.removeLiquidity.
pub record V2Remove : Type 0 where
  pub token_a : Text
  pub token_b : Text
  pub liquidity : ℕ
  pub a_min : ℕ
  pub b_min : ℕ
  pub to : Text
  pub deadline : ℕ

abbrev pub v2_remove_of : Values → Option V2Remove
v2_remove_of
      (cons (str ta) (
        cons (str tb) (
          cons (number (pos liq)) (
            cons
              (number (pos a_min))
              (cons (number (pos b_min)) (cons (str to) (cons (number (pos deadline)) nil))))))) =
    some record {
      token_a = ta;
      token_b = tb;
      liquidity = liq;
      a_min = a_min;
      b_min = b_min;
      to = to;
      deadline = deadline;
    }
v2_remove_of _ = none

-- What a removal was approved for: the liquidity, and the least that each token pays.
pub record Exit : Type 0 where
  pub token_id : ℕ
  pub liquidity : ℕ
  pub min0 : ℕ
  pub min1 : ℕ
  pub wallet : Text

abbrev pub v2_remove_types : List Text
v2_remove_types =
    address_type ∷ address_type ∷ uint256_type ∷ uint256_type ∷ uint256_type ∷ address_type
    ∷ uint256_type ∷ []

-- `decode_v2_remove_liquidity_calldata`, which knows no token id.
unfoldable pub decode_v2_remove_liquidity : Text → Text → Text → Exit → Option V2Remove
unfolding are_erc20 lp_selector abi_decode
decode_v2_remove_liquidity text token_a token_b exit = do
  guard (are_erc20 token_a token_b)
  args ← lp_selector text v2_remove_liquidity
  vs ← abi_decode v2_remove_types args
  c ← v2_remove_of vs
  guard (c.token_a == lower_text token_a && c.token_b == lower_text token_b)
  guard (c.liquidity == exit.liquidity)
  guard (leb exit.min0 c.a_min && leb exit.min1 c.b_min)
  guard (c.to == lower_text exit.wallet)
  some c
