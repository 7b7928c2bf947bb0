-- ===== src/Dex/V4Swap.antt =====
-- How dex.py binds the V4_SWAP command of the Universal Router to an approved sale.
pub mod Sale
pub mod Endings
pub mod Sound
use spellbook.Prelude.{
  ℕ, suc, ◌+◌, Bool, false, not, ◌&&◌, ◌||◌, Option, none, some, List, [], ◌∷◌, ◌==◌, leb, ltb,
  length, take, drop, map, number_IsKey, bytes_IsKey, if◌then◌else◌,
}
use spellbook.Prelude.Options.{◌>>=◌, ◌>>◌, guard}
use spellbook.Prelude.Codes.{codes}
use spellbook.Prelude.Dict.{get_or}
use spellbook.Streamable.Bytes.{Bytes}
use spellbook.Streamable.Utf8.{Text}
use spellbook.Abi.Values.{str, items, Values, nil, cons}
use spellbook.Dex.Tokens.{is_native_token, same_token}
use spellbook.Dex.Words.{enc_bytes, enc_bytes_array, dynamic, head_tail}
use spellbook.Dex.Calls.{abi_decode, bytes_of, texts_of, bytes_type, bytes_list_type}
use spellbook.Dex.Settler.{Bounds}
use spellbook.Dex.Layout.{word_at, word_addr, word_bool, Trade, v4_exact_in_single}
use spellbook.Dex.Layout.Paths.{v4_exact_in}

-- `UR_MSG_SENDER` and `UR_ADDRESS_THIS`.
abbrev pub ur_msg_sender : Text
ur_msg_sender = codes "0x0000000000000000000000000000000000000001"

abbrev pub ur_address_this : Text
ur_address_this = codes "0x0000000000000000000000000000000000000002"

-- `V4_ROUTER_ACTION_NAMES`, of the actions that may be accepted.
abbrev pub v4_action_name : ℕ → Text
v4_action_name a = get_or a [] (
    (6, codes "SWAP_EXACT_IN_SINGLE")
    ∷ (7, codes "SWAP_EXACT_IN")
    ∷ (11, codes "SETTLE")
    ∷ (12, codes "SETTLE_ALL")
    ∷ (14, codes "TAKE")
    ∷ (15, codes "TAKE_ALL")
    ∷ [])

abbrev pub is_swap_action : ℕ → Bool
is_swap_action a = a == 6 || a == 7

abbrev pub is_settle_action : ℕ → Bool
is_settle_action a = a == 11 || a == 12

-- How many swaps stand in front: `n_swaps`.
unfoldable pub swap_count : List ℕ → ℕ
swap_count [] = 0
swap_count (a ∷ actions) = if is_swap_action a then suc (swap_count actions) else 0

-- Behind the swaps stand one settle and one take, in either order.
abbrev pub is_ending : List ℕ → Bool
is_ending (a ∷ b ∷ []) =
    let low = if leb a b then a else b in
    let high = if leb a b then b else a in is_settle_action low && (high == 14 || high == 15)
is_ending _ = false

unfoldable pub bytes_each : List Text → Option (List Bytes)
unfolding bytes_of
bytes_each [] = some []
bytes_each (t ∷ ts) = do b ← bytes_of t; bs ← bytes_each ts; some (b ∷ bs)

-- One swap of the sold token into the bought one.
unfoldable pub bound_trade : Bounds → ℕ → Bytes → Option Trade
unfolding same_token v4_exact_in_single v4_exact_in
bound_trade bounds a p = do
  trade ← if a == 6 then v4_exact_in_single p else v4_exact_in p
  guard (same_token trade.token_in bounds.sell_token)
  guard (same_token trade.token_out bounds.buy_token)
  guard (not (trade.amount_in == 0))
  some trade

-- The loop over the swaps, which stand with their parameters.
unfoldable pub bound_trades : Bounds → List ℕ → List Bytes → Option (List Trade)
unfolding bound_trade
bound_trades bounds (a ∷ actions) (p ∷ params) = do
  trade ← bound_trade bounds a p
  trades ← bound_trades bounds actions params
  some (trade ∷ trades)
bound_trades bounds _ _ = some []

-- `total_in` and `min_out` of the swaps.
abbrev pub total_in : List Trade → ℕ
total_in [] = 0
total_in (t ∷ ts) = t.amount_in + total_in ts

abbrev pub total_out : List Trade → ℕ
total_out [] = 0
total_out (t ∷ ts) = t.min_out + total_out ts

-- The currency of a settle or a take, and the least it pays: the loop's body without its last check.
unfoldable pub ending_of : Bounds → Text → ℕ → ℕ → ℕ → Bytes → Option (Text × ℕ)
unfolding is_native_token word_at word_addr word_bool
ending_of bounds me sold least a p =
    if a == 11
    then (do
      guard (length p == 96)
      cur ← word_addr p 0
      amt ← word_at p 32
      payer_user ← word_bool p 64
      guard (amt == 0 || amt == sold)
      guard (is_native_token bounds.sell_token || payer_user)
      some (cur, least))
    else if a == 12
    then (do guard (length p == 64); cur ← word_addr p 0; some (cur, least))
    else if a == 14
    then (do
      guard (length p == 96)
      cur ← word_addr p 0
      rcpt ← word_addr p 32
      amt ← word_at p 64
      guard (rcpt == ur_msg_sender || rcpt == me)
      guard (amt == 0)
      some (cur, least))
    else (do
      guard (length p == 64)
      cur ← word_addr p 0
      amt ← word_at p 32
      some (cur, if ltb least amt then amt else least))

-- The loop over the settle and the take: the least that the wallet is paid.
unfoldable pub bound_endings : Bounds → Text → ℕ → ℕ → List ℕ → List Bytes → Option ℕ
unfolding ending_of same_token
bound_endings bounds me sold least (a ∷ actions) (p ∷ params) = do
  (cur, next) ← ending_of bounds me sold least a p
  guard (same_token cur (if is_settle_action a then bounds.sell_token else bounds.buy_token))
  bound_endings bounds me sold next actions params
bound_endings bounds me sold least _ _ = some least

abbrev pub actions_of : Values → Option (Text × Values)
actions_of (cons (str actions) (cons (items params) nil)) = some (actions, params)
actions_of _ = none

-- What a V4_SWAP sells, and the least it pays the wallet.
pub record V4Swap : Type 0 where
  pub actions : List Text
  pub amount_in : ℕ
  pub min_out : ℕ

-- `_decode_ur_v4_swap`
unfoldable pub decode_ur_v4_swap : Text → Text → Bounds → Option V4Swap
unfolding abi_decode bytes_of texts_of bytes_each enc_bytes enc_bytes_array head_tail swap_count
    bound_trades bound_endings
decode_ur_v4_swap inp me bounds = do
  vs ← abi_decode (bytes_type ∷ bytes_list_type ∷ []) inp
  (actions_text, listed) ← actions_of vs
  actions ← bytes_of actions_text
  param_texts ← texts_of listed
  params ← bytes_each param_texts
  e ← enc_bytes actions
  es ← enc_bytes_array params
  canon ← head_tail (dynamic ∷ dynamic ∷ []) (e ∷ es ∷ [])
  b ← bytes_of inp
  guard (canon == b)
  guard (length actions == length params && leb 3 (length actions))
  let n = swap_count actions
  guard (not (n == 0) && is_ending (drop n actions))
  trades ← bound_trades bounds (take n actions) (take n params)
  least ←
      bound_endings bounds me (total_in trades) (total_out trades) (drop n actions) (drop n params)
  some record { actions = map v4_action_name actions; amount_in = total_in trades; min_out = least }
