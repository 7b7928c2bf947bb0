-- ===== src/Relay/Server/Asks.antt =====
-- The handlers of relay/server.py that send no bundle.
use spellbook.Prelude.{
  ℕ, ◌&&◌, Option, none, some, List, [], ◌∷◌, number_IsKey, bytes_IsKey, leb, length, if◌then◌else◌,
}
use spellbook.Prelude.Codes.{codes}
use spellbook.Prelude.Dict.{get}
use spellbook.Streamable.Bytes.{Bytes}
use spellbook.Streamable.Utf8.{Text}
use spellbook.Relay.Server.{
  Json, text, list, null, other, Body, ServerConfig, Server, BroadcastRecord,
  check_forbidden_fields, resolve_network, hex32, hex32_all, max_puzzle_hashes, ask_coin, Decision,
  refuse, send, with_manager,
}
use spellbook.Relay.Server.Cases.{by_option, by_test}
use spellbook.Relay.Server.Handlers.{
  list_request, handle_coin, handle_status, handle_broadcasts, handle_broadcast_tx, first_or_404,
  wanted,
}

-- A decision that sends no bundle.
unfoldable pub SendsNone : Decision → Type 0
SendsNone (send network b parsed) = ⊥
SendsNone _ = Unit {0}

refuse-SendsNone : (n : ℕ) → SendsNone (refuse n)
unfolding SendsNone
refuse-SendsNone n = tt

with_manager-SendsNone :
    (cfg : ServerConfig) (network : Text) (d : Decision)
    → SendsNone d
    → SendsNone (with_manager cfg network d)
with_manager-SendsNone cfg network d h =
    by_test SendsNone _ (λ runs. h) (λ down. refuse-SendsNone 503)

named_list-SendsNone :
    (cfg : ServerConfig) (network : Text) (ask : Text → List Bytes → Decision) (found : Option Json)
    → ((network : Text) (bs : List Bytes) → SendsNone (ask network bs))
    → SendsNone (elim found [
      | some (list hashes) ↦
          if leb 1 (length hashes) && leb (length hashes) max_puzzle_hashes
          then elim (hex32_all hashes) [
            | none ↦ refuse 400
            | some bs ↦ with_manager cfg network (ask network bs)
          ]
          else refuse 400
      | _ ↦ refuse 400
    ])
named_list-SendsNone cfg network ask (some (list hashes)) h =
    by_test SendsNone _
      (λ fits.
        by_option SendsNone (hex32_all hashes) (refuse-SendsNone 400)
          (λ bs e. with_manager-SendsNone cfg network (ask network bs) (h network bs)))
      (λ long. refuse-SendsNone 400)
named_list-SendsNone cfg network ask none h = refuse-SendsNone 400
named_list-SendsNone cfg network ask (some (text s)) h = refuse-SendsNone 400
named_list-SendsNone cfg network ask (some null) h = refuse-SendsNone 400
named_list-SendsNone cfg network ask (some other) h = refuse-SendsNone 400

pub list_request-SendsNone :
    (cfg : ServerConfig) (key : Text) (ask : Text → List Bytes → Decision) (body : Option Body)
    (query : Option Text)
    → ((network : Text) (bs : List Bytes) → SendsNone (ask network bs))
    → SendsNone (list_request cfg key ask body query)
unfolding list_request
list_request-SendsNone cfg key ask none query h = refuse-SendsNone 400
list_request-SendsNone cfg key ask (some body) query h =
    by_option SendsNone (check_forbidden_fields body)
      (by_test SendsNone _ (λ strange. refuse-SendsNone 400)
        (λ plain.
          by_option SendsNone (resolve_network cfg (get (codes "network") body) query)
            (refuse-SendsNone 400)
            (λ network e. named_list-SendsNone cfg network ask (get key body) h)))
      (λ k e. refuse-SendsNone 400)

pub handle_coin-SendsNone :
    (cfg : ServerConfig) (id : Text) (query : Option Text) → SendsNone (handle_coin cfg id query)
unfolding handle_coin
handle_coin-SendsNone cfg id query =
    by_option SendsNone (hex32 (some id)) (refuse-SendsNone 400) (λ b e.
      by_option SendsNone (resolve_network cfg none query) (refuse-SendsNone 400) (λ network f.
        with_manager-SendsNone cfg network (ask_coin network b) (unfold SendsNone in tt)))

pub handle_status-SendsNone :
    (cfg : ServerConfig) (query : Option Text) → SendsNone (handle_status cfg query)
unfolding handle_status
handle_status-SendsNone cfg query =
    by_option SendsNone (resolve_network cfg none query) (refuse-SendsNone 400)
      (λ network f. unfold SendsNone in tt)

pub handle_broadcasts-SendsNone :
    (cfg : ServerConfig) (query : Option Text) (s : Server)
    → SendsNone (handle_broadcasts cfg query s)
unfolding handle_broadcasts
handle_broadcasts-SendsNone cfg query s =
    by_option SendsNone (wanted cfg query) (refuse-SendsNone 400) (λ p e. unfold SendsNone in tt)

first_or_404-SendsNone : (rs : List BroadcastRecord) → SendsNone (first_or_404 rs)
first_or_404-SendsNone [] = refuse-SendsNone 404
first_or_404-SendsNone (r ∷ rs) = unfold SendsNone in tt

pub handle_broadcast_tx-SendsNone :
    (cfg : ServerConfig) (id : Text) (query : Option Text) (s : Server)
    → SendsNone (handle_broadcast_tx cfg id query s)
unfolding handle_broadcast_tx
handle_broadcast_tx-SendsNone cfg id query s =
    by_option SendsNone (hex32 (some id)) (refuse-SendsNone 400) (λ b e.
      by_option SendsNone (wanted cfg query) (refuse-SendsNone 400)
        (λ p f. first_or_404-SendsNone _))
