-- ===== src/Dex/Validate/Plans.antt =====
-- The plan that the daemon signs, from `validate_swap_intent_against_quote` of dex.py.
use spellbook.Prelude.{ℕ, ◌≡◌, true, some, number_IsKey}
use spellbook.Streamable.Utf8.{Text}
use spellbook.Dex.Pins.{Overrides}
use spellbook.Dex.Settler.{Bounds}
use spellbook.Dex.Swap.{Tx, Decoded}
use spellbook.Dex.Swap.Sound.{IsBound}
use spellbook.Dex.Validate.{Intent, Quote, Plan, is_at_least}
use spellbook.Dex.Validate.Sound.{IsApproved, IsPlanned}

-- A plan for the sale: a bound transaction of the quote, and its approvals.
pub record IsPlan (venue_name : Text) (chain_id : ℕ) (bounds : Bounds) (overrides : Overrides)
    (quote : Quote) (p : Plan) : Type 0 where
  pub tx : Tx
  pub quoted : quote.tx ≡ some tx
  pub text : Text
  pub has_text : tx.data_hex ≡ some text
  pub decoded : Decoded
  pub bound : IsBound venue_name chain_id tx bounds overrides decoded
  pub planned : IsPlanned text quote decoded p
  pub minimum : is_at_least bounds.min_buy p.buy_amount_wei ≡ true
  pub approved : IsApproved chain_id bounds overrides decoded.venue p

-- An intent with its values.
pub record IsIntent (intent : Intent) (venue_name : Text) (chain_id : ℕ) (bounds : Bounds)
    : Type 0 where
  pub chain : intent.chain_id ≡ some chain_id
  pub venue : intent.venue ≡ some venue_name
  pub wallet : intent.wallet ≡ some bounds.wallet
  pub sell_token : intent.sell_token ≡ some bounds.sell_token
  pub buy_token : intent.buy_token ≡ some bounds.buy_token
  pub sell_amount : intent.sell_amount_wei ≡ some bounds.sell_amount
  pub min_buy : intent.min_buy_amount_wei ≡ some bounds.min_buy
