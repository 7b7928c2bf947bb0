-- ===== src/Dex/V4Positions.antt =====
-- How dex.py binds a call of the Uniswap v4 PositionManager: an addition, a removal, a claim of fees.
pub mod Sound
use spellbook.Prelude.{
  ℕ, Bool, true, false, ◌&&◌, Option, none, some, List, [], ◌∷◌, ◌==◌, leb, number_IsKey,
  bytes_IsKey, if◌then◌else◌,
}
use spellbook.Prelude.Options.{◌>>=◌, ◌>>◌, guard}
use spellbook.Prelude.Codes.{lower_text}
use spellbook.Streamable.Bytes.{Bytes}
use spellbook.Streamable.Utf8.{Text}
use spellbook.Abi.Values.{ℤ, pos, number, str, Values, nil, cons}
use spellbook.Dex.Tokens.{native_zero, is_zero_address}
use spellbook.Dex.Calls.{
  v4_modify_liquidities, lp_selector, abi_decode, bytes_of, texts_of, address_type, bytes_type,
  bytes_list_type, uint256_type, uint128_type, uint24_type, int24_type,
}
use spellbook.Dex.V4Swap.{actions_of}
use spellbook.Dex.Liquidity.{Exit}
use spellbook.Dex.Positions.{is_exit}

abbrev pub unlock_of : Values → Option (Text × ℕ)
unlock_of (cons (str unlock) (cons (number (pos deadline)) nil)) = some (unlock, deadline)
unlock_of _ = none

-- The actions of modifyLiquidities, the parameters of each, and the deadline.
unfoldable pub unlock_data : Text → Option (Bytes × List Text × ℕ)
unfolding lp_selector abi_decode bytes_of texts_of
unlock_data text = do
  args ← lp_selector text v4_modify_liquidities
  vs ← abi_decode (bytes_type ∷ uint256_type ∷ []) args
  (unlock, deadline) ← unlock_of vs
  us ← abi_decode (bytes_type ∷ bytes_list_type ∷ []) unlock
  (actions_text, listed) ← actions_of us
  actions ← bytes_of actions_text
  params ← texts_of listed
  some (actions, params, deadline)

-- The parameters of MINT_POSITION.
pub record Mint : Type 0 where
  pub currency0 : Text
  pub currency1 : Text
  pub fee : ℕ
  pub tick_spacing : ℤ
  pub hooks : Text
  pub tick_lower : ℤ
  pub tick_upper : ℤ
  pub liquidity : ℕ
  pub max0 : ℕ
  pub max1 : ℕ
  pub owner : Text

abbrev pub mint_of : Values → Option Mint
mint_of
      (cons (str c0) (
        cons (str c1) (
          cons (number (pos fee)) (
            cons (number ts) (
              cons (str hooks) (
                cons (number tl) (
                  cons (number tu) (
                    cons (number (pos liq)) (
                      cons
                        (number (pos m0))
                        (cons (number (pos m1)) (cons (str owner) (cons hook_data nil)))))))))))) =
    some record {
      currency0 = c0;
      currency1 = c1;
      fee = fee;
      tick_spacing = ts;
      hooks = hooks;
      tick_lower = tl;
      tick_upper = tu;
      liquidity = liq;
      max0 = m0;
      max1 = m1;
      owner = owner;
    }
mint_of _ = none

abbrev pub mint_types : List Text
mint_types =
    address_type ∷ address_type ∷ uint24_type ∷ int24_type ∷ address_type ∷ int24_type ∷ int24_type
    ∷ uint256_type ∷ uint128_type ∷ uint128_type ∷ address_type ∷ bytes_type ∷ []

abbrev pub two_texts : Values → Option (Text × Text)
two_texts (cons (str a) (cons (str b) nil)) = some (a, b)
two_texts _ = none

abbrev pub two_params : List Text → Option (Text × Text)
two_params (a ∷ b ∷ []) = some (a, b)
two_params _ = none

-- What an addition was approved for, and the value that goes along.
pub record Deposit : Type 0 where
  pub currency0 : Text
  pub currency1 : Text
  pub cap0 : ℕ
  pub cap1 : ℕ
  pub wallet : Text
  pub value_wei : ℕ

-- The value that goes along: within the native leg's cap and enough for it, or nothing.
abbrev pub is_funded : Mint → Deposit → Bool
is_funded m deposit =
    if m.currency0 == native_zero
    then leb deposit.value_wei deposit.cap0 && leb m.max0 deposit.value_wei
    else deposit.value_wei == 0

-- `decode_v4_lp_add_calldata`
unfoldable pub decode_v4_lp_add : Text → Deposit → Option (Mint × ℕ)
unfolding unlock_data abi_decode is_zero_address
decode_v4_lp_add text deposit = do
  (actions, params, deadline) ← unlock_data text
  guard (actions == 2 ∷ 13 ∷ [])
  (mint_params, settle_params) ← two_params params
  ms ← abi_decode mint_types mint_params
  m ← mint_of ms
  ss ← abi_decode (address_type ∷ address_type ∷ []) settle_params
  (s0, s1) ← two_texts ss
  guard (m.currency0 == lower_text deposit.currency0 && m.currency1 == lower_text deposit.currency1)
  guard (s0 == m.currency0 && s1 == m.currency1)
  guard (is_zero_address m.hooks)
  guard (m.owner == lower_text deposit.wallet)
  guard (leb m.max0 deposit.cap0 && leb m.max1 deposit.cap1)
  guard (is_funded m deposit)
  some (m, deadline)

-- The parameters of DECREASE_LIQUIDITY.
pub record V4Decrease : Type 0 where
  pub token_id : ℕ
  pub liquidity : ℕ
  pub min0 : ℕ
  pub min1 : ℕ

abbrev pub v4_decrease_of : Values → Option V4Decrease
v4_decrease_of
      (cons (number (pos tid)) (
        cons
          (number (pos liq))
          (cons (number (pos m0)) (cons (number (pos m1)) (cons hook_data nil))))) =
    some record { token_id = tid; liquidity = liq; min0 = m0; min1 = m1 }
v4_decrease_of _ = none

abbrev pub v4_decrease_types : List Text
v4_decrease_types = uint256_type ∷ uint256_type ∷ uint128_type ∷ uint128_type ∷ bytes_type ∷ []

-- The parameters of TAKE_PAIR.
pub record TakePair : Type 0 where
  pub currency0 : Text
  pub currency1 : Text
  pub recipient : Text

abbrev pub take_pair_of : Values → Option TakePair
take_pair_of (cons (str c0) (cons (str c1) (cons (str rcpt) nil))) =
    some record { currency0 = c0; currency1 = c1; recipient = rcpt }
take_pair_of _ = none

abbrev pub take_pair_types : List Text
take_pair_types = address_type ∷ address_type ∷ address_type ∷ []

abbrev pub one_number : Values → Option ℕ
one_number (cons (number (pos n)) nil) = some n
one_number _ = none

-- DECREASE_LIQUIDITY, TAKE_PAIR, and BURN_POSITION where it was approved.
abbrev pub take_actions : Bool → Bytes
take_actions burn_nft = 1 ∷ 17 ∷ (if burn_nft then 3 ∷ [] else [])

-- The parameters of the approved actions.
abbrev pub take_params : Bool → List Text → Option (Text × Text × Option Text)
take_params false (a ∷ b ∷ []) = some (a, b, none)
take_params true (a ∷ b ∷ c ∷ []) = some (a, b, some c)
take_params _ _ = none

-- The position of a BURN_POSITION.
unfoldable pub burns : ℕ → Option Text → Option (Unit {0})
unfolding abi_decode
burns token_id none = some tt
burns token_id (some params) = do
  vs ← abi_decode (uint256_type ∷ []) params
  burnt ← one_number vs
  guard (burnt == token_id)

-- `decode_v4_lp_take_calldata`
unfoldable pub decode_v4_lp_take :
    Text → Exit → Text → Text → Bool → Option (V4Decrease × TakePair × ℕ)
unfolding unlock_data abi_decode burns
decode_v4_lp_take text exit currency0 currency1 burn_nft = do
  (actions, params, deadline) ← unlock_data text
  guard (actions == take_actions burn_nft)
  (dec_params, pair_params, burn_params) ← take_params burn_nft params
  ds ← abi_decode v4_decrease_types dec_params
  d ← v4_decrease_of ds
  guard (is_exit d.token_id d.liquidity d.min0 d.min1 exit)
  ts ← abi_decode take_pair_types pair_params
  t ← take_pair_of ts
  guard (t.currency0 == lower_text currency0 && t.currency1 == lower_text currency1)
  guard (t.recipient == lower_text exit.wallet)
  u ← burns exit.token_id burn_params
  some (d, t, deadline)
