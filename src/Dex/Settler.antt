-- ===== src/Dex/Settler.antt =====
-- How dex.py binds a call of the 0x AllowanceHolder, and the Settler call inside it.
pub mod Sound
use spellbook.Prelude.{
  ℕ, Bool, not, ◌&&◌, ◌||◌, Option, none, some, List, [], ◌∷◌, ◌==◌, leb, contains, number_IsKey,
  bytes_IsKey, if◌then◌else◌,
}
use spellbook.Prelude.Options.{◌>>=◌, ◌>>◌, guard}
use spellbook.Prelude.Codes.{codes, lower_text}
use spellbook.Streamable.Utf8.{Text}
use spellbook.Abi.Values.{pos, number, str, Values, nil, cons}
use spellbook.Dex.Tokens.{is_native_token, same_token, is_zero_address}
use spellbook.Dex.Calls.{
  settler_execute, split_selector, abi_decode, address_type, bytes_type, bytes_list_type,
  uint256_type,
}

-- What a swap was approved for: the keyword arguments that `decode_swap_tx` hands on.
pub record Bounds : Type 0 where
  pub wallet : Text
  pub sell_token : Text
  pub buy_token : Text
  pub sell_amount : ℕ
  pub min_buy : ℕ

-- The slippage struct of Settler.execute.
pub record Slippage : Type 0 where
  pub recipient : Text
  pub buy_token : Text
  pub min_out : ℕ

abbrev pub slippage_of : Values → Option Slippage
slippage_of
      (cons
        (str recipient)
        (cons (str buy_token) (cons (number (pos min_out)) (cons actions (cons zid nil))))) =
    some record { recipient = recipient; buy_token = buy_token; min_out = min_out }
slippage_of _ = none

abbrev pub settler_types : List Text
settler_types = address_type ∷ address_type ∷ uint256_type ∷ bytes_list_type ∷ codes "bytes32" ∷ []

-- `_decode_settler_execute`
unfoldable pub decode_settler_execute : Text → Bounds → Option Slippage
unfolding split_selector abi_decode same_token
decode_settler_execute text bounds = do
  (sel, args) ← split_selector text
  guard (sel == settler_execute)
  vs ← abi_decode settler_types args
  slippage ← slippage_of vs
  guard (slippage.recipient == lower_text bounds.wallet)
  guard (same_token slippage.buy_token bounds.buy_token)
  guard (leb bounds.min_buy slippage.min_out)
  some slippage

-- The arguments of AllowanceHolder.exec.
pub record Exec : Type 0 where
  pub operator : Text
  pub token : Text
  pub amount : ℕ
  pub target : Text
  pub inner_data : Text

abbrev pub exec_of : Values → Option Exec
exec_of
      (cons (str operator) (
        cons
          (str token)
          (cons (number (pos amount)) (cons (str target) (cons (str inner_data) nil))))) =
    some record {
      operator = operator;
      token = token;
      amount = amount;
      target = target;
      inner_data = inner_data;
    }
exec_of _ = none

abbrev pub exec_types : List Text
exec_types = address_type ∷ address_type ∷ uint256_type ∷ address_type ∷ bytes_type ∷ []

-- The pair that the holder lets the operator pull is the sell leg.
unfoldable pub is_sell_leg : Text → ℕ → Bounds → Bool
unfolding is_native_token
is_sell_leg token amount bounds =
    if is_native_token bounds.sell_token
    then is_native_token token && (amount == 0 || amount == bounds.sell_amount)
    else token == lower_text bounds.sell_token && amount == bounds.sell_amount

-- The lower-cased tokens of a swap that are not native.
unfoldable pub swap_tokens : Bounds → List Text
unfolding is_native_token
swap_tokens bounds =
    let sold =
      if is_native_token bounds.sell_token then [] else lower_text bounds.sell_token ∷ [] in
    if is_native_token bounds.buy_token then sold else lower_text bounds.buy_token ∷ sold

-- A target that the holder may not be led to.
unfoldable pub is_barred : Text → Text → Bounds → Bool
unfolding swap_tokens is_zero_address
is_barred inner target_addr bounds =
    contains inner (swap_tokens bounds)
    || inner == lower_text bounds.wallet
    || inner == target_addr
    || is_zero_address inner

-- `_decode_allowance_holder`
unfoldable pub decode_allowance_holder : Text → Text → Bounds → Option (Exec × Slippage)
unfolding split_selector abi_decode is_sell_leg is_barred decode_settler_execute
decode_allowance_holder text target_addr bounds = do
  (sel, args) ← split_selector text
  vs ← abi_decode exec_types args
  exec ← exec_of vs
  guard (is_sell_leg exec.token exec.amount bounds)
  guard (exec.operator == exec.target)
  guard (not (is_barred exec.target target_addr bounds))
  slippage ← decode_settler_execute exec.inner_data bounds
  some (exec, slippage)
