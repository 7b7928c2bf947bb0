-- ===== src/Dex/Validate.antt =====
-- `validate_swap_intent_against_quote` of dex.py: from an approved intent and a venue's firm quote to
-- what the daemon will sign.
pub mod Sound
pub mod Plans
use spellbook.Prelude.{
  ℕ, Bool, true, false, ◌&&◌, Option, none, some, ◌==◌, leb, length, number_IsKey, bytes_IsKey,
  if◌then◌else◌,
}
use spellbook.Prelude.Options.{◌>>=◌, ◌>>◌, guard}
use spellbook.Prelude.Codes.{lower_text}
use spellbook.Streamable.Utf8.{Text}
use spellbook.Abi.Values.{ℤ, pos, negsuc}
use spellbook.Dex.Tokens.{Venue, uniswap, is_native_token, normalize_venue, is_address}
use spellbook.Dex.Pins.{Overrides, permit2}
use spellbook.Dex.Pins.Accepted.{pinned_contract}
use spellbook.Dex.Settler.{Bounds}
use spellbook.Dex.Swap.{Tx, Decoded, decode_swap_tx, check_swap_approval, check_permit2_approval}

-- An approved intent. What it leaves out is `none`.
pub record Intent : Type 0 where
  pub chain_id : Option ℕ
  pub venue : Option Text
  pub wallet : Option Text
  pub sell_token : Option Text
  pub buy_token : Option Text
  pub sell_amount_wei : Option ℕ
  pub min_buy_amount_wei : Option ℕ
  pub max_slippage_bps : Option ℕ
  pub pin_overrides : Overrides

-- A normalized quote: its amounts, which the code writes in decimal, are numbers here.
pub record Quote : Type 0 where
  pub chain_id : Option ℕ
  pub sell_token : Option Text
  pub buy_token : Option Text
  pub sell_amount : Option ℕ
  pub buy_amount : Option ℤ
  pub tx : Option Tx
  pub allowance_target : Option Text

pub record Plan : Type 0 where
  pub to : Text
  pub data_hex : Text
  pub value_wei : ℕ
  pub allowance_target : Option Text
  pub approve_amount_wei : ℕ
  pub permit2_spender : Option Text
  pub buy_amount_wei : ℤ
  pub needs_approval : Bool
  pub decoded : Decoded

-- `got.lower() == want.lower()`, of a text that the quote has.
abbrev pub is_named : Option Text → Text → Bool
is_named none want = false
is_named (some got) want = lower_text got == lower_text want

abbrev pub is_number : Option ℕ → ℕ → Bool
is_number none n = false
is_number (some m) n = m == n

-- `int(buy_amount or 0)`
abbrev pub number_or_zero : Option ℤ → ℤ
number_or_zero none = pos 0
number_or_zero (some z) = z

abbrev pub is_at_least : ℕ → ℤ → Bool
is_at_least n (pos m) = leb n m
is_at_least n (negsuc m) = false

-- A text that is there and not empty.
abbrev pub filled : Option Text → Option Text
filled none = none
filled (some s) = if length s == 0 then none else some s

abbrev pub or_else : Option Text → Option Text → Option Text
or_else none d = d
or_else (some s) d = some s

-- Whom a token sale is approved to: the spender, and the router behind Permit2.
pub record Approval : Type 0 where
  pub spender : Text
  pub permit2_spender : Option Text

-- The branch of the venue that pulls through Permit2, and that of the others.
unfoldable pub spender_of : Venue → ℕ → Bounds → Text → Option Text → Overrides → Option Approval
unfolding pinned_contract check_permit2_approval
spender_of uniswap chain_id bounds target named overrides = do
  spender ← or_else (filled named) (pinned_contract chain_id permit2 overrides)
  router ←
      check_permit2_approval chain_id bounds.sell_token target bounds.sell_amount bounds.sell_token
        bounds.sell_amount overrides
  some record { spender = spender; permit2_spender = some router }
spender_of venue chain_id bounds target named overrides =
    filled named >>= λ s. some record { spender = s; permit2_spender = none }

-- The approval of a token sale.
unfoldable pub approve : Text → ℕ → Bounds → Text → Option Text → Overrides → Option Approval
unfolding normalize_venue spender_of is_address check_swap_approval
approve venue_name chain_id bounds target named overrides = do
  venue ← normalize_venue venue_name
  approval ← spender_of venue chain_id bounds target named overrides
  guard (is_address approval.spender)
  check_swap_approval chain_id venue_name bounds.sell_token approval.spender bounds.sell_amount
      bounds.sell_token bounds.sell_amount overrides
  some record approval { spender = lower_text approval.spender }

-- The checks of the quote's own fields.
unfoldable pub agrees : Quote → ℕ → Bounds → Bool
agrees quote chain_id bounds =
    is_number quote.chain_id chain_id
    && (is_named quote.sell_token bounds.sell_token
        && (is_named quote.buy_token bounds.buy_token
            && (is_number quote.sell_amount bounds.sell_amount
                && is_at_least bounds.min_buy (number_or_zero quote.buy_amount))))

-- The plan of a decoded transaction.
unfoldable pub plan_of : Text → ℕ → Bounds → Text → Quote → Overrides → Decoded → Option Plan
unfolding is_native_token approve
plan_of venue_name chain_id bounds data_hex quote overrides decoded =
    if is_native_token bounds.sell_token
    then some record {
      to = decoded.target;
      data_hex = data_hex;
      value_wei = decoded.value_wei;
      allowance_target = none;
      approve_amount_wei = 0;
      permit2_spender = none;
      buy_amount_wei = number_or_zero quote.buy_amount;
      needs_approval = false;
      decoded = decoded;
    }
    else (do
      approval ← approve venue_name chain_id bounds decoded.target quote.allowance_target overrides
      some record {
        to = decoded.target;
        data_hex = data_hex;
        value_wei = decoded.value_wei;
        allowance_target = some approval.spender;
        approve_amount_wei = bounds.sell_amount;
        permit2_spender = approval.permit2_spender;
        buy_amount_wei = number_or_zero quote.buy_amount;
        needs_approval = true;
        decoded = decoded;
      })

-- `validate_swap_intent_against_quote`, of an intent with every key.
unfoldable pub validate_bounds : Text → ℕ → Bounds → Quote → Overrides → Option Plan
unfolding is_address agrees decode_swap_tx plan_of
validate_bounds venue_name chain_id bounds quote overrides = do
  guard (is_address bounds.wallet)
  guard (agrees quote chain_id bounds)
  tx ← quote.tx
  to ← filled tx.to
  data_hex ← filled tx.data_hex
  decoded ← decode_swap_tx venue_name chain_id tx bounds overrides
  plan_of venue_name chain_id bounds data_hex quote overrides decoded

unfoldable pub validate_swap_intent_against_quote : Intent → Quote → Option Plan
unfolding validate_bounds
validate_swap_intent_against_quote intent quote = do
  chain_id ← intent.chain_id
  venue ← intent.venue
  wallet ← intent.wallet
  sell_token ← intent.sell_token
  buy_token ← intent.buy_token
  sell_amount ← intent.sell_amount_wei
  min_buy ← intent.min_buy_amount_wei
  slippage ← intent.max_slippage_bps
  validate_bounds venue chain_id
      record {
        wallet = wallet;
        sell_token = sell_token;
        buy_token = buy_token;
        sell_amount = sell_amount;
        min_buy = min_buy;
      }
      quote intent.pin_overrides
