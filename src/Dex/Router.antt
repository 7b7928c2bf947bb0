-- ===== src/Dex/Router.antt =====
-- How dex.py binds a call of the Uniswap Universal Router to an approved sale: what the commands pull,
-- spend and deliver is summed up.
pub mod Effects
use spellbook.Prelude.{
  ℕ, ◌+◌, Bool, not, ◌&&◌, ◌||◌, Option, none, some, List, [], ◌∷◌, ◌==◌, leb, length, map,
  number_IsKey, bytes_IsKey, if◌then◌else◌,
}
use spellbook.Prelude.Options.{◌>>=◌, ◌>>◌, guard}
use spellbook.Prelude.Codes.{lower_text}
use spellbook.Streamable.Utf8.{Text}
use spellbook.Abi.Values.{str, items, Values, cons}
use spellbook.Dex.Tokens.{is_native_token}
use spellbook.Dex.Calls.{
  ur_execute_deadline, abi_decode, bytes_of, texts_of, bytes_type, bytes_list_type, uint256_type,
}
use spellbook.Dex.Settler.{Bounds}
use spellbook.Dex.V4Swap.{ur_msg_sender, ur_address_this}
use spellbook.Dex.Commands.{
  command_name, ur_contract_balance, Swap, Command, wrap_eth, unwrap_weth, swap, v4_swap, sweep,
  read_commands,
}

-- What the loop adds up.
pub record Accrued : Type 0 where
  pub user_in : ℕ
  pub wrapped : ℕ
  pub v4_native : ℕ
  pub delivered : ℕ

abbrev pub no_totals : Accrued
no_totals = record { user_in = 0; wrapped = 0; v4_native = 0; delivered = 0 }

-- `to_wallet`
unfoldable pub is_to_wallet : Bounds → Text → Bool
is_to_wallet bounds rcpt = rcpt == ur_msg_sender || rcpt == lower_text bounds.wallet

-- The token of a delivery is the one bought, and neither is native.
unfoldable pub is_bought : Bounds → Text → Bool
unfolding is_native_token
is_bought bounds token =
    not (is_native_token bounds.buy_token) && token == lower_text bounds.buy_token

-- A swap pulls from the wallet only the token sold, of a stated amount.
unfoldable pub is_pull : Bounds → Swap → Bool
unfolding is_native_token
is_pull bounds s =
    not (is_native_token bounds.sell_token)
    && s.token_in == lower_text bounds.sell_token
    && not (s.amount_in == ur_contract_balance)

-- The rest of the branch: its checks, and what it adds.
unfoldable pub bind_command : Bounds → Command → Accrued → Option Accrued
unfolding is_native_token is_to_wallet is_bought is_pull
bind_command bounds (wrap_eth rcpt amt) t = do
  guard (is_native_token bounds.sell_token && rcpt == ur_address_this)
  some record t { wrapped = t.wrapped + amt }
bind_command bounds (swap s) t = do
  guard (not s.payer_user || is_pull bounds s)
  guard (
      if is_to_wallet bounds s.recipient
      then is_bought bounds s.token_out
      else s.recipient == ur_address_this)
  some record t {
    user_in = t.user_in + (if s.payer_user then s.amount_in else 0);
    delivered = t.delivered + (if is_to_wallet bounds s.recipient then s.min_out else 0);
  }
bind_command bounds (v4_swap s) t = some record t {
  user_in = t.user_in + (if is_native_token bounds.sell_token then 0 else s.amount_in);
  v4_native = t.v4_native + (if is_native_token bounds.sell_token then s.amount_in else 0);
  delivered = t.delivered + s.min_out;
}
bind_command bounds (sweep tok rcpt amt) t = do
  guard (is_to_wallet bounds rcpt)
  guard (is_bought bounds tok)
  some record t { delivered = t.delivered + amt }
bind_command bounds (unwrap_weth rcpt amt) t = do
  guard (is_to_wallet bounds rcpt)
  guard (is_native_token bounds.buy_token)
  some record t { delivered = t.delivered + amt }

unfoldable pub bind_commands : Bounds → List Command → Accrued → Option Accrued
unfolding bind_command
bind_commands bounds [] t = some t
bind_commands bounds (c ∷ cs) t = bind_command bounds c t >>= bind_commands bounds cs

-- The checks behind the loop.
unfoldable pub is_settled : Bounds → ℕ → Accrued → Bool
unfolding is_native_token
is_settled bounds value_wei t =
    (if is_native_token bounds.sell_token
      then (t.wrapped + t.v4_native == bounds.sell_amount) && (t.wrapped + t.v4_native == value_wei)
      else t.user_in == bounds.sell_amount)
    && leb bounds.min_buy t.delivered

-- The commands of a call with their inputs: the deadline, if there is one, is not looked at.
abbrev pub inputs_of : Values → Option (Text × Values)
inputs_of (cons (str commands) (cons (items inputs) deadline)) = some (commands, inputs)
inputs_of _ = none

pub record Routed : Type 0 where
  pub commands : List Text
  pub bound : List Command
  pub totals : Accrued

abbrev pub router_types : Text → List Text
router_types sel =
    bytes_type ∷ bytes_list_type ∷ (if sel == ur_execute_deadline then uint256_type ∷ [] else [])

-- `_decode_universal_router`
unfoldable pub decode_universal_router : Text → Text → Bounds → ℕ → Option Routed
unfolding abi_decode bytes_of texts_of read_commands bind_commands is_settled
decode_universal_router sel args bounds value_wei = do
  vs ← abi_decode (router_types sel) args
  (commands_text, listed) ← inputs_of vs
  commands ← bytes_of commands_text
  inputs ← texts_of listed
  guard (length commands == length inputs && not (length commands == 0))
  bound ← read_commands bounds commands inputs
  totals ← bind_commands bounds bound no_totals
  guard (is_settled bounds value_wei totals)
  some record { commands = map command_name commands; bound = bound; totals = totals }
