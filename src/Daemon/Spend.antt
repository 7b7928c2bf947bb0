-- ===== src/Daemon/Spend.antt =====
-- `rt_request_spend` of src/spellbook/daemon.py: the schema, the network and asset checks, the policy,
-- and the queue, denial or execution that follows.
use spellbook.Prelude.{
  ℕ, suc, ◌+◌, String, Bool, true, false, not, ◌&&◌, ◌||◌, Option, none, some, List, [], ◌∷◌,
  contains, ◌==◌, number_IsKey, text_IsKey, if◌then◌else◌,
}
use spellbook.Prelude.Dict.{Dict, get, has}
use spellbook.Policy.{Decision, evaluate}
use spellbook.Daemon.Data.{
  Params, Done, Error, Daemon, Reply, World, Value, Mark, schema_violation, bad_network,
  network_mismatch, bad_amount, bad_asset, nft_amount, not_text, policy,
}
use spellbook.Daemon.State.{spent_last_24h, append_ledger, enqueue}
use spellbook.Daemon.Legs.{Kind, chia_asset_kind}
use spellbook.Daemon.Fund.{run_execution, queue_it, deny_it}

abbrev pub Fields : Type 0
Fields = Dict String Value

abbrev pub solana_networks : List String
solana_networks = "solana-devnet" ∷ "solana-mainnet" ∷ []

abbrev pub chia_networks : List String
chia_networks = "chia-testnet" ∷ "chia-mainnet" ∷ []

-- evm.CHAINS
abbrev pub evm_chains : List String
evm_chains = "evm-1" ∷ "evm-11155111" ∷ "evm-4663" ∷ "evm-46630" ∷ "evm-8453" ∷ "evm-84532" ∷ []

abbrev pub amount_fields : List String
amount_fields = "amount_mojos" ∷ "amount_wei" ∷ "amount_lamports" ∷ []

abbrev pub spend_fields : List String
spend_fields = "chain" ∷ "destination" ∷ "asset" ∷ "purpose" ∷ []

abbrev all_known : Fields → Bool
all_known [] = true
all_known ((k, v) ∷ p) = (contains k spend_fields || contains k amount_fields) && all_known p

abbrev one_if : Bool → ℕ
one_if b = if b then 1 else 0

abbrev count_amounts : Fields → ℕ
count_amounts p =
    one_if (has "amount_mojos" p) + (one_if (has "amount_wei" p) + one_if (has "amount_lamports" p))

unfoldable pub schema_ok : Fields → Bool
schema_ok p = all_known p && (has "chain" p && count_amounts p == 1)

-- `p.get("amount_mojos", p.get("amount_wei", p.get("amount_lamports")))`
abbrev amount_field : Fields → Option Value
amount_field p = elim (get "amount_mojos" p) [
  | some v ↦ some v
  | none ↦ elim (get "amount_wei" p) [ some v ↦ some v | none ↦ get "amount_lamports" p ]
]

-- `isinstance(amount, int) and amount > 0`: Python's `True` is the integer 1.
abbrev positive : Option Value → Option ℕ
positive (some (Value.int (suc n))) = some (suc n)
positive (some (Value.bool true)) = some 1
positive _ = none

unfoldable pub amount_of : Fields → Option ℕ
amount_of p = positive (amount_field p)

-- `p.get("amount_mojos") == 1`
abbrev is_one : Option Value → Bool
is_one (some (Value.int n)) = n == 1
is_one (some (Value.bool b)) = b
is_one _ = false

-- `p.get(k, otherwise)` where the value is a text; `none` where it is not.
abbrev text_at : String → String → Fields → Option String
text_at k otherwise p = elim (get k p) [
  | none ↦ some otherwise
  | some v ↦ elim v [ Value.text s ↦ some s | _ ↦ none ]
]

-- `_active_solana_chain`
unfoldable pub active_solana_chain : String → Option String
active_solana_chain network =
    if network == "devnet"
    then some "solana-devnet"
    else if network == "mainnet-beta"
    then some "solana-mainnet"
    else none

abbrev network_error : String → Option String → Option Error
network_error chain none = some bad_network
network_error chain (some active) = if chain == active then none else some network_mismatch

unfoldable pub solana_error : Daemon → String → Option Error
unfolding active_solana_chain
solana_error d chain =
    if contains chain solana_networks
    then network_error chain (active_solana_chain d.cfg.solana_network)
    else none

-- `none` is the ValueError.
unfoldable pub plain_transfer_asset : String → String → Option String
plain_transfer_asset chain asset =
    if contains chain solana_networks
    then (if asset == "SOL" || asset == "native" then some asset else none)
    else if contains chain evm_chains
    then (if asset == "native" then some "native" else none)
    else some asset

abbrev nft_error : Fields → Kind → Option Error
nft_error p (Kind.nft ref) = if is_one (get "amount_mojos" p) then none else some nft_amount
nft_error p _ = none

-- The asset that policy judges is the request's own wherever there is no error.
unfoldable pub asset_error : Fields → String → String → Option Error
unfolding chia_asset_kind plain_transfer_asset
asset_error p chain asset =
    if contains chain chia_networks
    then elim (chia_asset_kind asset) [ none ↦ some bad_asset | some kind ↦ nft_error p kind ]
    else elim (plain_transfer_asset chain asset) [ none ↦ some bad_asset | some _ ↦ none ]

abbrev no_offer : Done → Option String
no_offer _ = none

unfoldable pub act_on_decision : World → Params → String → Decision → Daemon → Daemon × Reply
unfolding enqueue append_ledger run_execution
act_on_decision w params muse (Decision.queued r) d = queue_it w params muse (policy r) d
act_on_decision w params muse (Decision.denied r) d = deny_it w params muse (policy r) d
act_on_decision w params muse (Decision.approved r) d =
    run_execution w params muse Mark.approved no_offer d

-- A request whose fields have been checked, or the error that they met.
pub data Checked : Type 0 where
  refused : Error → Checked
  spend : (chain asset : String) (amount : ℕ) (destination : String) → Checked

abbrev unless : Option Error → Checked → Checked
unless none next = next
unless (some e) next = refused e

abbrev check_text : Option String → (String → Checked) → Checked
check_text none next = refused not_text
check_text (some s) next = next s

abbrev check_amount : Option ℕ → (ℕ → Checked) → Checked
check_amount none next = refused bad_amount
check_amount (some n) next = next n

-- The checks before policy, in order. A chain, asset or destination that is no text is outside the
-- model, and is refused as `not_text`.
unfoldable pub check_spend : Daemon → Fields → Checked
unfolding schema_ok amount_of solana_error asset_error
check_spend d p =
    if not (schema_ok p)
    then refused schema_violation
    else check_text (text_at "chain" "" p) λ chain. unless (solana_error d chain) (
        check_amount (amount_of p) λ amount. check_text (text_at "asset" "native" p) λ asset.
          unless (asset_error p chain asset) (
            check_text (text_at "destination" "" p)
              λ destination. spend chain asset amount destination))

-- From the policy on.
unfoldable pub judge_spend : World → Checked → String → Daemon → Daemon × Reply
unfolding evaluate spent_last_24h act_on_decision
judge_spend w (refused e) muse d = (d, Reply.error e)
judge_spend w (spend chain asset amount destination) muse d =
    act_on_decision w (Params.transfer chain (some asset) amount destination) muse
      (evaluate d.policy chain asset amount destination (spent_last_24h w.now d chain asset)) d

unfoldable pub rt_request_spend : World → Fields → String → Daemon → Daemon × Reply
unfolding check_spend judge_spend
rt_request_spend w p muse d = judge_spend w (check_spend d p) muse d
