-- ===== src/Daemon/Legs.antt =====
-- The legs of an intent in src/spellbook/daemon.py: the asset model of a Chia request, the sum of the
-- legs per asset, and the entries that policy and velocity count.
pub mod Totals
pub mod Distinct
use Prim.Native.String.{◌++◌ as text_append}
use spellbook.Prelude.{
  ℕ, ◌+◌, ◌*◌, String, ◌||◌, Option, none, some, List, [], ◌∷◌, ◌++◌, ◌==◌, number_IsKey,
  text_IsKey, length, if◌then◌else◌, Bool, true, false,
}
use spellbook.Prelude.Dict.{Dict, get_or, insert}
use spellbook.Prelude.Text.{lower, is_hex64, after_prefix}
use spellbook.Daemon.Data.{
  Params, Leg, Payment, transfer, offer_make, offer_take, forge_swap, offer_cancel, message_sign,
  dex_swap, dex_lp_add, dex_lp_remove, dex_lp_claim, contract_deploy, contract_call,
  option_exercise, option_transfer, did_transfer, nft_assign_did, option_mint, bulk_send,
  multi_send, fee_only,
}

pub data Kind : Type 0 where
  native : Kind
  cat nft : String → Kind

abbrev pub is_nft1 : String → Bool
is_nft1 ref = elim (after_prefix "nft1" ref) [ none ↦ false | some _ ↦ true ]

abbrev pub nft_kind : Option String → Option Kind
nft_kind none = none
nft_kind (some ref) = if is_hex64 ref || is_nft1 ref then some (nft ref) else none

-- `none` is the SageError.
unfoldable pub chia_asset_kind : String → Option Kind
unfolding lower is_hex64 after_prefix
chia_asset_kind asset =
    if asset == "native"
    then some native
    else if is_hex64 asset
    then some (cat (lower asset))
    else nft_kind (after_prefix "nft:" asset)

abbrev pub Totals : Type 0
Totals = Dict String ℕ

abbrev pub add_leg : Totals → String × ℕ → Totals
add_leg totals (asset, amount) = insert asset (get_or asset 0 totals + amount) totals

unfoldable pub merge_from : Totals → List (String × ℕ) → Totals
merge_from totals [] = totals
merge_from totals (leg ∷ legs) = merge_from (add_leg totals leg) legs

unfoldable pub merge_legs : List (String × ℕ) → List (String × ℕ)
unfolding merge_from
merge_legs legs = merge_from [] legs

-- (chain, asset, amount)
abbrev pub Entry : Type 0
Entry = String × String × ℕ

abbrev pub on_chain : String → List (String × ℕ) → List Entry
on_chain chain [] = []
on_chain chain ((asset, amount) ∷ legs) = (chain, asset, amount) ∷ on_chain chain legs

abbrev pub leg_pairs : List Leg → List (String × ℕ)
leg_pairs [] = []
leg_pairs (l ∷ legs) = (l.asset, l.amount_mojos) ∷ leg_pairs legs

-- `if fee: legs.append(("native", fee))`, and the list `[("native", fee)] if fee else []`.
abbrev pub fee_leg : ℕ → List (String × ℕ)
fee_leg fee = if fee == 0 then [] else ("native", fee) ∷ []

abbrev pub singletons : String → List String → List (String × ℕ)
singletons prefix [] = []
singletons prefix (i ∷ ids) = (text_append prefix i, 1) ∷ singletons prefix ids

-- `aid.lower() if aid else "native"`
abbrev pub asset_of : Option String → String
asset_of none = "native"
asset_of (some aid) = lower aid

abbrev pub payment_pairs : List Payment → List (String × ℕ)
payment_pairs [] = []
payment_pairs (p ∷ ps) = (asset_of p.asset_id, p.amount) ∷ payment_pairs ps

abbrev pub native_sentinel : String
native_sentinel = "0xeeeeeeeeeeeeeeeeeeeeeeeeeeeeeeeeeeeeeeee"

abbrev pub native_zero : String
native_zero = "0x0000000000000000000000000000000000000000"

-- src/spellbook/dex.py: `_is_native_token`
unfoldable pub is_native_token : String → Bool
unfolding lower
is_native_token token = lower token == native_sentinel || lower token == native_zero

-- src/spellbook/dex.py: `dex_asset_key`
unfoldable pub dex_asset_key : String → String
unfolding lower is_native_token
dex_asset_key token = if is_native_token token then "native" else lower token

abbrev pub kind_key : Kind → String
kind_key native = "native"
kind_key (cat ref) = ref
kind_key (nft ref) = ref

abbrev pub bulk_entries : String → ℕ → ℕ → Option Kind → Option (List Entry)
bulk_entries chain total fee none = none
bulk_entries chain total fee (some native) = some ((chain, "native", total + fee) ∷ [])
bulk_entries chain total fee (some kind) =
    some ((chain, kind_key kind, total) ∷ (chain, "native", fee) ∷ [])

-- `none` where the asset of a bulk_send is malformed: `chia_asset_kind` raises.
unfoldable pub velocity_entries : Params → Option (List Entry)
unfolding merge_legs chia_asset_kind dex_asset_key lower
velocity_entries (transfer chain asset amount destination) =
    some ((chain, elim asset [ none ↦ "native" | some a ↦ a ], amount) ∷ [])
velocity_entries (offer_make chain offered fee) =
    some (on_chain chain (merge_legs (leg_pairs offered ++ fee_leg fee)))
velocity_entries (offer_take chain give fee) =
    some (on_chain chain (merge_legs (leg_pairs give ++ fee_leg fee)))
velocity_entries (forge_swap chain offered fee) =
    some (on_chain chain (merge_legs (leg_pairs offered ++ fee_leg fee)))
velocity_entries (offer_cancel chain) = some []
velocity_entries (message_sign chain) = some []
velocity_entries (dex_swap chain sell_token sell_amount) =
    some ((chain, dex_asset_key sell_token, sell_amount) ∷ [])
velocity_entries (dex_lp_add chain token_a amount_a token_b amount_b) =
    some ((chain, dex_asset_key token_a, amount_a) ∷ (chain, dex_asset_key token_b, amount_b) ∷ [])
velocity_entries (dex_lp_remove chain) = some []
velocity_entries (dex_lp_claim chain) = some []
velocity_entries (contract_deploy chain) = some []
velocity_entries (contract_call chain value) =
    some (if value == 0 then [] else (chain, "native", value) ∷ [])
velocity_entries (option_exercise chain fee strike option_ids) = some (
    on_chain chain
      (merge_legs (fee_leg fee ++ (leg_pairs strike ++ singletons "option:" option_ids))))
velocity_entries (option_transfer chain fee ids) =
    some (on_chain chain (merge_legs (fee_leg fee ++ singletons "option:" ids)))
velocity_entries (did_transfer chain fee ids) =
    some (on_chain chain (merge_legs (fee_leg fee ++ singletons "did:" ids)))
velocity_entries (nft_assign_did chain fee ids) =
    some (on_chain chain (merge_legs (fee_leg fee ++ singletons "nft:" ids)))
velocity_entries (option_mint chain fee underlying) =
    let a = asset_of underlying.asset_id in
    some (
      if a == "native"
      then (chain, "native", fee + underlying.amount) ∷ []
      else (chain, "native", fee) ∷ (chain, a, underlying.amount) ∷ [])
velocity_entries (bulk_send chain asset addresses amount fee) =
    bulk_entries chain (length addresses * amount) fee (chia_asset_kind asset)
velocity_entries (multi_send chain payments fee) =
    some (on_chain chain (add_leg (merge_from [] (payment_pairs payments)) ("native", fee)))
velocity_entries (fee_only intent chain fee) = some ((chain, "native", fee) ∷ [])
