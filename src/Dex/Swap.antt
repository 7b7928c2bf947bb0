-- ===== src/Dex/Swap.antt =====
-- `decode_swap_tx` of dex.py, and the approvals that the daemon may make before a swap.
pub mod Sound
use spellbook.Prelude.{
  ℕ, ◌^◌, Bool, not, ◌&&◌, Option, none, some, List, [], ◌∷◌, ◌==◌, leb, ltb, number_IsKey,
  bytes_IsKey, contains, if◌then◌else◌,
}
use spellbook.Prelude.Options.{◌>>=◌, ◌>>◌, guard}
use spellbook.Prelude.Codes.{lower_text, with_0x}
use spellbook.Prelude.Dict.{has}
use spellbook.Streamable.Utf8.{Text}
use spellbook.Abi.Values.{ℤ, pos, negsuc}
use spellbook.Dex.Tokens.{Venue, is_native_token, normalize_venue, is_address}
use spellbook.Dex.Numbers.{int_base_0}
use spellbook.Dex.Pins.{
  Overrides, allowance_holder, universal_router, swap_target, approval_spender,
}
use spellbook.Dex.Pins.Accepted.{pinned_contract, pinned_set, pin_source, require_pinned_member}
use spellbook.Dex.Calls.{allowance_holder_exec, ur_execute, ur_execute_deadline, split_selector}
use spellbook.Dex.Settler.{Bounds, Exec, Slippage, decode_allowance_holder}
use spellbook.Dex.Router.{Routed, decode_universal_router}

-- A value that came as a number, or written out.
pub data Amount : Type 0 where
  amount : ℤ → Amount
  written : Text → Amount

-- The unsigned transaction of a quote. What it leaves out is `none`.
pub record Tx : Type 0 where
  pub to : Option Text
  pub data_hex : Option Text
  pub value : Option Amount

-- `int(str(value), 0)`, which is not below zero.
abbrev pub natural_of : ℤ → Option ℕ
natural_of (pos n) = some n
natural_of (negsuc n) = none

unfoldable pub value_of : Option Amount → Option ℕ
unfolding int_base_0
value_of none = some 0
value_of (some (amount z)) = natural_of z
value_of (some (written s)) = int_base_0 s >>= natural_of

-- `SWAP_SELECTORS`
abbrev pub swap_selectors : Text → List Text
swap_selectors role =
    if role == allowance_holder
    then allowance_holder_exec ∷ []
    else if role == universal_router
    then ur_execute ∷ ur_execute_deadline ∷ []
    else []

-- What a call was decoded to: the AllowanceHolder's, or the router's.
pub data Binding : Type 0 where
  held : Exec → Slippage → Binding
  routed : Routed → Binding

pub record Decoded : Type 0 where
  pub venue : Venue
  pub target : Text
  pub target_role : Text
  pub target_source : Option Text
  pub selector : Text
  pub value_wei : ℕ
  pub route : Binding

-- The value that goes along: the sell amount of a native sale, and nothing of a token's.
unfoldable pub is_paid : Bounds → ℕ → Bool
unfolding is_native_token
is_paid bounds value_wei =
    if is_native_token bounds.sell_token then value_wei == bounds.sell_amount else value_wei == 0

-- The decoder of the role that the transaction calls.
unfoldable pub decode_route : Text → Text → Text → Text → Text → Bounds → ℕ → Option Binding
unfolding decode_allowance_holder decode_universal_router
decode_route role data_hex target sel args bounds value_wei =
    if role == allowance_holder
    then (do
      (exec, slippage) ← decode_allowance_holder data_hex target bounds
      some (held exec slippage))
    else (do r ← decode_universal_router sel args bounds value_wei; some (routed r))

-- `decode_swap_tx`
unfoldable pub decode_swap_tx : Text → ℕ → Tx → Bounds → Overrides → Option Decoded
unfolding normalize_venue pinned_contract pinned_set is_address value_of is_paid split_selector
    decode_route pin_source
decode_swap_tx venue_name chain_id tx bounds overrides = do
  venue ← normalize_venue venue_name
  let role = swap_target venue
  primary ← pinned_contract chain_id role overrides
  to ← tx.to
  guard (is_address to)
  guard (has (lower_text to) (pinned_set chain_id role overrides))
  value_wei ← value_of tx.value
  guard (is_paid bounds value_wei)
  data_hex ← tx.data_hex
  (sel, args) ← split_selector data_hex
  guard (contains sel (swap_selectors role))
  route ← decode_route role data_hex (lower_text to) sel args bounds value_wei
  some record {
    venue = venue;
    target = lower_text to;
    target_role = role;
    target_source = pin_source chain_id role overrides (lower_text to);
    selector = with_0x sel;
    value_wei = value_wei;
    route = route;
  }

-- A token that may be approved: the one sold, which is not native.
unfoldable pub is_sold : Text → Text → Bool
unfolding is_native_token
is_sold token sell_token = not (is_native_token token) && lower_text token == lower_text sell_token

-- `check_swap_approval`
unfoldable pub check_swap_approval :
    ℕ → Text → Text → Text → ℕ → Text → ℕ → Overrides → Option (Unit {0})
unfolding normalize_venue pinned_contract is_address is_sold
check_swap_approval chain_id venue_name token spender amt sell_token sell_amount overrides = do
  venue ← normalize_venue venue_name
  pinned ← pinned_contract chain_id (approval_spender venue) overrides
  guard (is_address spender && lower_text spender == pinned)
  guard (is_sold token sell_token)
  guard (ltb 0 amt && leb amt sell_amount)

-- `check_permit2_approval`
unfoldable pub check_permit2_approval : ℕ → Text → Text → ℕ → Text → ℕ → Overrides → Option Text
unfolding require_pinned_member is_sold
check_permit2_approval chain_id token spender amt sell_token sell_amount overrides = do
  router ← require_pinned_member chain_id universal_router spender overrides
  guard (is_sold token sell_token)
  guard (ltb 0 amt && (leb amt sell_amount && ltb amt (2 ^ 160)))
  some router
