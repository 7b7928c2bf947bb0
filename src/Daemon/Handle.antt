-- ===== src/Daemon/Handle.antt =====
-- `_auth` and `handle` of src/spellbook/daemon.py: who may call which route, and when.
use spellbook.Prelude.{
  ℕ, String, Bool, true, false, not, ◌&&◌, Option, none, some, List, [], ◌∷◌, contains, ◌==◌,
  number_IsKey, text_IsKey, if◌then◌else◌,
}
use spellbook.Daemon.Data.{
  Params, Error, Daemon, Reply, World, bad_token, uid_unconfigured, uid_not_allowed,
  approve_token_required, unknown_route, backup_pending, let_through, denied_access,
}
use spellbook.Daemon.State.{append_ledger}
use spellbook.Daemon.Legs.{Entry, velocity_entries}
use spellbook.Daemon.Fund.{run_fund_intent, rt_queue_approve, rt_queue_reject}
use spellbook.Daemon.Spend.{Fields, rt_request_spend}

pub data Role : Type 0 where
  request approve : Role

abbrev pub bytes_beq : List ℕ → List ℕ → Bool
bytes_beq [] [] = true
bytes_beq (x ∷ xs) (y ∷ ys) = x == y && bytes_beq xs ys
bytes_beq _ _ = false

-- `none` is a text that is no hexadecimal. The request token is compared first.
unfoldable pub auth : Daemon → Option (List ℕ) → Option Role
auth d none = none
auth d (some presented) =
    if bytes_beq presented d.cfg.request_token
    then some request
    else if bytes_beq presented d.cfg.approve_token
    then some approve
    else none

abbrev pub request_routes : List String
request_routes =
    "request_spend" ∷ "queue_read" ∷ "status" ∷ "addresses" ∷ "doctor" ∷ "ledger_read"
    ∷ "sign_musebook_request" ∷ "sign_dashboard_challenge" ∷ "chia_read" ∷ "offer_make"
    ∷ "offer_take" ∷ "offer_cancel" ∷ "offer_import" ∷ "offer_combine" ∷ "forge_swap"
    ∷ "forge_status" ∷ "nft_mint" ∷ "nft_update" ∷ "nft_collection_update" ∷ "nft_redownload"
    ∷ "nft_assign_did" ∷ "did_create" ∷ "did_update" ∷ "did_transfer" ∷ "did_normalize"
    ∷ "option_mint" ∷ "option_update" ∷ "option_transfer" ∷ "option_exercise" ∷ "cat_issue"
    ∷ "cat_update" ∷ "clawback_finalize" ∷ "coin_combine" ∷ "coin_split" ∷ "coin_autocombine"
    ∷ "bulk_send" ∷ "multi_send" ∷ "message_sign" ∷ "dex_swap" ∷ "dex_lp_add" ∷ "dex_lp_remove"
    ∷ "dex_lp_claim" ∷ "dex_venues" ∷ "contract_deploy" ∷ "contract_call" ∷ "contract_call_view"
    ∷ []

abbrev pub approve_routes : List String
approve_routes =
    "queue_approve" ∷ "queue_reject" ∷ "publish_directory_entry" ∷ "mint_sign_ref" ∷ "offer_delete"
    ∷ []

abbrev pub backup_pending_routes : List String
backup_pending_routes =
    "status" ∷ "addresses" ∷ "doctor" ∷ "queue_read" ∷ "ledger_read" ∷ "chia_read" ∷ "dex_venues"
    ∷ "contract_call_view" ∷ "forge_status" ∷ "sign_musebook_request" ∷ "sign_dashboard_challenge"
    ∷ "queue_reject" ∷ []

-- What a request asks for. `fund` is a route whose handler ends in `_run_fund_intent` once the
-- params have passed its checks (`force_queue` as that route passes it); `other` is a route by its
-- name: one that leaves the queue, the velocity window and the ledger alone, or none at all.
pub data Call : Type 0 where
  request_spend : Fields → Call
  fund : (route : String) → Params → (force_queue : Bool) → Call
  queue_approve : Option ℕ → Call
  queue_reject : Option ℕ → Call
  other : (route : String) → Call

abbrev pub route_of : Call → String
route_of (request_spend p) = "request_spend"
route_of (fund route params force_queue) = route
route_of (queue_approve qid) = "queue_approve"
route_of (queue_reject qid) = "queue_reject"
route_of (other route) = route

-- A request line with the peer's UID, where the kernel gave one.
pub record Request : Type 0 where
  pub token : Option (List ℕ)
  pub muse_id : String
  pub peer_uid : Option ℕ
  pub call : Call

abbrev pub allowed_uids : Daemon → Role → Option (List ℕ)
allowed_uids d request = d.cfg.allowed_request_uids
allowed_uids d approve = d.cfg.allowed_approve_uids

abbrev pub uid_in : Option ℕ → List ℕ → Bool
uid_in none allowed = false
uid_in (some uid) allowed = contains uid allowed

abbrev pub is_approve : Role → Bool
is_approve request = false
is_approve approve = true

unfoldable pub uid_error : Option ℕ → Option (List ℕ) → Option Error
uid_error uid none = some uid_unconfigured
uid_error uid (some allowed) = if uid_in uid allowed then none else some uid_not_allowed

-- The guards on the route, in order, each with whether it leaves a ledger line.
unfoldable pub route_error : Bool → Role → String → Option (Error × Bool)
route_error pending role route =
    if contains route approve_routes && not (is_approve role)
    then some (approve_token_required, true)
    else if not (contains route request_routes) && not (contains route approve_routes)
    then some (unknown_route, false)
    else if not (contains route backup_pending_routes) && pending
    then some (backup_pending, true)
    else none

-- The guards after the token: the peer's UID first.
unfoldable pub guard_error : Bool → Daemon → Role → Request → Option (Error × Bool)
unfolding uid_error route_error
guard_error pending d role req = elim (uid_error req.peer_uid (allowed_uids d role)) [
  | some e ↦ some (e, true)
  | none ↦ route_error pending role (route_of req.call)
]

unfoldable pub fund_route :
    World → Params → String → Bool → Option (List Entry) → Daemon → Daemon × Reply
unfolding run_fund_intent
fund_route w params muse force_queue none d = (d, Reply.error let_through)
fund_route w params muse force_queue (some entries) d =
    run_fund_intent w params muse entries force_queue d

unfoldable pub dispatch : World → Call → String → Daemon → Daemon × Reply
unfolding rt_request_spend fund_route velocity_entries rt_queue_approve rt_queue_reject
dispatch w (request_spend p) muse d = rt_request_spend w p muse d
dispatch w (fund route params force_queue) muse d =
    fund_route w params muse force_queue (velocity_entries params) d
dispatch w (queue_approve qid) muse d = rt_queue_approve w qid muse d
dispatch w (queue_reject qid) muse d = rt_queue_reject w qid muse d
dispatch w (other route) muse d = (d, Reply.read)

abbrev pub refuse : World → Request → Error × Bool → Daemon → Daemon × Reply
refuse w req (e, ledgered) d = (
  if ledgered
      then append_ledger w.now req.muse_id (w.digest_redacted (route_of req.call)) none
          (denied_access e) d
      else d,
  Reply.error e,
)

-- After the guards: the route's handler, or the refusal.
unfoldable pub answer : World → Request → Option (Error × Bool) → Daemon → Daemon × Reply
unfolding dispatch append_ledger
answer w req none d = dispatch w req.call req.muse_id d
answer w req (some refusal) d = refuse w req refusal d

unfoldable pub handle_as : World → Bool → Request → Option Role → Daemon → Daemon × Reply
unfolding guard_error answer
handle_as w pending req none d = (d, Reply.error bad_token)
handle_as w pending req (some role) d = answer w req (guard_error pending d role req) d

-- `pending` is whether `backup_status` says so.
unfoldable pub handle : World → Bool → Request → Daemon → Daemon × Reply
unfolding auth handle_as
handle w pending req d = handle_as w pending req (auth d req.token) d
