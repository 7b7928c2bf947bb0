-- ===== src/Dex/Commands.antt =====
-- The commands of a Universal Router call that dex.py accepts, read from their inputs.
pub mod Sound
use spellbook.Prelude.{
  ℕ, ◌-◌, ◌^◌, ◌%◌, Bool, ◌&&◌, Option, none, some, List, [], ◌∷◌, ◌==◌, leb, length, take, drop,
  number_IsKey, bytes_IsKey, if◌then◌else◌,
}
use spellbook.Prelude.Options.{◌>>=◌, ◌>>◌, guard}
use spellbook.Prelude.Codes.{codes, lower_text, to_hex, with_0x}
use spellbook.Prelude.Dict.{get_or}
use spellbook.Streamable.Bytes.{Bytes}
use spellbook.Streamable.Utf8.{Text}
use spellbook.Abi.Values.{pos, number, flag, str, items, Values, nil, cons}
use spellbook.Dex.Calls.{abi_decode, bytes_of, texts_of, address_type, bytes_type, uint256_type}
use spellbook.Dex.Settler.{Bounds}
use spellbook.Dex.V4Swap.{V4Swap, decode_ur_v4_swap}

-- `UR_COMMAND_NAMES`, of the commands that may be accepted.
abbrev pub command_name : ℕ → Text
command_name cmd = get_or cmd [] (
    (0, codes "V3_SWAP_EXACT_IN")
    ∷ (4, codes "SWEEP")
    ∷ (8, codes "V2_SWAP_EXACT_IN")
    ∷ (11, codes "WRAP_ETH")
    ∷ (12, codes "UNWRAP_WETH")
    ∷ (16, codes "V4_SWAP")
    ∷ [])

-- `UR_CONTRACT_BALANCE`
abbrev pub ur_contract_balance : ℕ
ur_contract_balance = 2 ^ 255

-- The arguments of a V2 or a V3 swap.
pub record Swap : Type 0 where
  pub recipient : Text
  pub amount_in : ℕ
  pub min_out : ℕ
  pub token_in : Text
  pub token_out : Text
  pub payer_user : Bool

-- A command with the arguments that are looked at.
pub data Command : Type 0 where
  wrap_eth unwrap_weth : Text → ℕ → Command
  swap : Swap → Command
  v4_swap : V4Swap → Command
  sweep : Text → Text → ℕ → Command

-- `_v3_path_tokens`
unfoldable pub v3_path_tokens : Text → Option (Text × Text)
unfolding bytes_of to_hex
v3_path_tokens path = do
  b ← bytes_of path
  guard (leb 43 (length b) && (length b - 20) % 23 == 0)
  some (with_0x (to_hex (take 20 b)), with_0x (to_hex (drop (length b - 20) b)))

abbrev last_text : Text → List Text → Text
last_text t [] = t
last_text t (u ∷ ts) = last_text u ts

-- `path[0], path[-1]`, of two tokens at least.
abbrev pub v2_path_tokens : List Text → Option (Text × Text)
v2_path_tokens (a ∷ b ∷ path) = some (a, last_text b path)
v2_path_tokens _ = none

abbrev pub pair_of : Values → Option (Text × ℕ)
pair_of (cons (str rcpt) (cons (number (pos amt)) nil)) = some (rcpt, amt)
pair_of _ = none

unfoldable pub v3_swap_of : Values → Option Swap
unfolding v3_path_tokens
v3_swap_of
      (cons (str rcpt) (
        cons
          (number (pos a_in))
          (cons (number (pos a_min)) (cons (str path) (cons (flag payer) nil))))) =
    do
      (t_in, t_out) ← v3_path_tokens path
      some record {
        recipient = rcpt;
        amount_in = a_in;
        min_out = a_min;
        token_in = t_in;
        token_out = t_out;
        payer_user = payer;
      }
v3_swap_of _ = none

unfoldable pub v2_swap_of : Values → Option Swap
unfolding texts_of
v2_swap_of
      (cons (str rcpt) (
        cons
          (number (pos a_in))
          (cons (number (pos a_min)) (cons (items path) (cons (flag payer) nil))))) =
    do
      tokens ← texts_of path
      (t_in, t_out) ← v2_path_tokens tokens
      some record {
        recipient = rcpt;
        amount_in = a_in;
        min_out = a_min;
        token_in = t_in;
        token_out = t_out;
        payer_user = payer;
      }
v2_swap_of _ = none

abbrev pub sweep_of : Values → Option Command
sweep_of (cons (str tok) (cons (str rcpt) (cons (number (pos amt)) nil))) =
    some (sweep tok rcpt amt)
sweep_of _ = none

-- The decoding in a branch of the loop. A command with the allow-revert flag, or any other one, has
-- none.
unfoldable pub read_command : Bounds → ℕ → Text → Option Command
unfolding abi_decode v3_swap_of v2_swap_of decode_ur_v4_swap
read_command bounds cmd inp =
    if cmd == 11
    then (do
      vs ← abi_decode (address_type ∷ uint256_type ∷ []) inp
      (rcpt, amt) ← pair_of vs
      some (wrap_eth rcpt amt))
    else if cmd == 0
    then (do
      vs ←
          abi_decode (address_type ∷ uint256_type ∷ uint256_type ∷ bytes_type ∷ codes "bool" ∷ [])
            inp
      s ← v3_swap_of vs
      some (swap s))
    else if cmd == 8
    then (do
      vs ←
          abi_decode
            (address_type ∷ uint256_type ∷ uint256_type ∷ codes "address[]" ∷ codes "bool" ∷ []) inp
      s ← v2_swap_of vs
      some (swap s))
    else if cmd == 16
    then (do s ← decode_ur_v4_swap inp (lower_text bounds.wallet) bounds; some (v4_swap s))
    else if cmd == 4
    then (abi_decode (address_type ∷ address_type ∷ uint256_type ∷ []) inp >>= sweep_of)
    else if cmd == 12
    then (do
      vs ← abi_decode (address_type ∷ uint256_type ∷ []) inp
      (rcpt, amt) ← pair_of vs
      some (unwrap_weth rcpt amt))
    else none

unfoldable pub read_commands : Bounds → Bytes → List Text → Option (List Command)
unfolding read_command
read_commands bounds (cmd ∷ commands) (inp ∷ inputs) = do
  c ← read_command bounds cmd inp
  cs ← read_commands bounds commands inputs
  some (c ∷ cs)
read_commands bounds _ _ = some []
