-- ===== src/Daemon/Data.antt =====
-- The values that src/spellbook/daemon.py passes about: validated intents, what an execution comes
-- to, ledger rows, replies, and the daemon's state.
use spellbook.Prelude.{ℕ, String, Bool, Option, List}
use spellbook.Prelude.Dict.{Dict}
use spellbook.Policy.{Policy, Reason}

-- One side's leg of an offer, {"asset", "amount_mojos"}.
pub record Leg : Type 0 where
  pub asset : String
  pub amount_mojos : ℕ

-- A payment of multi_send and the underlying leg of option_mint: {"asset_id", "amount"}, where an
-- absent or empty `asset_id` is `none`.
pub record Payment : Type 0 where
  pub asset_id : Option String
  pub amount : ℕ

-- The intents from which only the fee leaves.
pub data FeeIntent : Type 0 where
  nft_mint did_create did_normalize cat_issue clawback_finalize : FeeIntent
  coin_combine coin_split coin_autocombine : FeeIntent

-- A params dict that has passed its handler's checks: a constructor for each intent, with the keys
-- that policy, velocity and the queue read. An absent fee, amount or value is the 0 of its `.get`.
pub data Params : Type 0 where
  transfer : (chain : String) (asset : Option String) (amount : ℕ) (destination : String) → Params
  offer_make : (chain : String) (offered : List Leg) (fee : ℕ) → Params
  offer_take : (chain : String) (give : List Leg) (fee : ℕ) → Params
  forge_swap : (chain : String) (offered : List Leg) (fee : ℕ) → Params
  offer_cancel : (chain : String) → Params
  message_sign : (chain : String) → Params
  dex_swap : (chain sell_token : String) (sell_amount : ℕ) → Params
  dex_lp_add : (chain token_a : String) (amount_a : ℕ) (token_b : String) (amount_b : ℕ) → Params
  dex_lp_remove : (chain : String) → Params
  dex_lp_claim : (chain : String) → Params
  contract_deploy : (chain : String) → Params
  contract_call : (chain : String) (value : ℕ) → Params
  option_exercise :
      (chain : String) (fee : ℕ) (strike : List Leg) (option_ids : List String) → Params
  option_transfer : (chain : String) (fee : ℕ) (option_ids : List String) → Params
  did_transfer : (chain : String) (fee : ℕ) (did_ids : List String) → Params
  nft_assign_did : (chain : String) (fee : ℕ) (nft_ids : List String) → Params
  option_mint : (chain : String) (fee : ℕ) (underlying : Payment) → Params
  bulk_send : (chain asset : String) (addresses : List String) (amount fee : ℕ) → Params
  multi_send : (chain : String) (payments : List Payment) (fee : ℕ) → Params
  fee_only : FeeIntent → (chain : String) (fee : ℕ) → Params

-- The result dict of an execution, by the keys that the daemon reads back.
pub record Done : Type 0 where
  pub submitted : Bool
  pub tx_hash : String
  pub offer_id : Option String

-- How `_execute_spend` ends: it returns; it raises a BroadcastUnknown with its reference; it raises
-- an error that the handlers catch; or it raises one that they let through (OfferError,
-- ChiaSignError and whatever is no error of the daemon's own).
pub data Outcome : Type 0 where
  done : Done → Outcome
  broadcast_unknown : String → Outcome
  submit_failed : Outcome
  escaped : Outcome

-- Why the daemon refuses, or does not answer by a verdict.
pub data Error : Type 0 where
  bad_token uid_unconfigured uid_not_allowed approve_token_required unknown_route : Error
  backup_pending schema_violation bad_network network_mismatch bad_amount bad_asset : Error
  nft_amount not_text unknown_queue_id let_through : Error

pub data Why : Type 0 where
  policy : Reason → Why
  legs : List (String × Reason) → Why
  within_policy contract_action always_queued : Why

-- The `decision` of a ledger row: its word, and what follows the colon.
pub data Mark : Type 0 where
  executing approved approved_by_human rejected_by_human : Mark
  submit_unknown submit_failed : Mark
  queued_as : ℕ → Mark
  denied_for : Why → Mark
  denied_access : Error → Mark

-- `canonical_row`: the digest is of the stored bytes.
pub record LedgerRow : Type 0 where
  pub ts : ℕ
  pub requester_muse : String
  pub canon_digest : String
  pub sighash : Option String
  pub decision : Mark

pub record VelocityRow : Type 0 where
  pub ts : ℕ
  pub chain : String
  pub asset : String
  pub amount : ℕ

pub record Item : Type 0 where
  pub params : Params
  pub muse_id : String
  pub queued_at : ℕ

-- What the daemon reads from spellbook.json and the token files.
pub record Config : Type 0 where
  pub request_token : List ℕ
  pub approve_token : List ℕ
  pub allowed_request_uids : Option (List ℕ)
  pub allowed_approve_uids : Option (List ℕ)
  pub solana_network : String

-- The daemon in memory, and the files that it writes. `queue_file` is what `_save_queue` wrote last.
pub record Daemon : Type 0 where
  pub cfg : Config
  pub policy : Policy
  pub queue : Dict ℕ Item
  pub next_qid : ℕ
  pub queue_file : Option (ℕ × Dict ℕ Item)
  pub velocity : List VelocityRow
  pub velocity_file : List VelocityRow
  pub ledger : List LedgerRow

-- What a reply says.
pub data Reply : Type 0 where
  error : Error → Reply
  queued : ℕ → Why → Reply
  denied : Why → Reply
  approved_tx : String → Reply
  approved_note : Option String → Reply
  unknown_fate : String → Reply
  failed : Reply
  done_id : ℕ → Reply
  read : Reply

-- What the daemon asks of the world during one call: the clock; how much later the clock is read again
-- for the line of the velocity file, by chain and asset; the digest of the params as canonical JSON,
-- and of a request with its token left out; and the execution of an intent.
pub record World : Type 0 where
  pub now : ℕ
  pub lag : String → String → ℕ
  pub digest : Params → String
  pub digest_redacted : String → String
  pub execute : Params → Outcome

-- A JSON value of a request, as far as its handling tells values apart: `int n` is a number from 0
-- up, `negative` any below, and `compound` an array, an object or a number with a fraction.
pub data Value : Type 0 where
  null negative compound : Value
  bool : Bool → Value
  int : ℕ → Value
  text : String → Value
