-- ===== src/Relay/Server/Handlers.antt =====
-- The handlers of relay/server.py, up to the call of a network's manager.
use spellbook.Prelude.{
  Bool, true, not, ◌&&◌, Option, none, some, List, [], ◌∷◌, ◌==◌, number_IsKey, bytes_IsKey, ltb,
  leb, length, keep, take, contains, if◌then◌else◌,
}
use spellbook.Prelude.Codes.{codes, strip, lower_text, from_hex}
use spellbook.Prelude.Dict.{get}
use spellbook.Streamable.Bytes.{Bytes}
use spellbook.Streamable.Utf8.{Text}
use spellbook.Streamable.Coins.{parse_spend_bundle}
use spellbook.Relay.Server.{
  max_puzzle_hashes, max_bundle_bytes, broadcast_log_size, Json, text, list, Body, ServerConfig,
  BroadcastRecord, Server, hex32, hex32_all, check_forbidden_fields, only_keys,
  network_body_keys_ok, resolve_network, Decision, refuse, ask_coins, ask_coin_ids, ask_coin, send,
  show_status, show, with_manager,
}

-- The checks that `handle_coins` and `handle_coin_ids` share; `none` is a body that is no object.
unfoldable pub list_request :
    ServerConfig → Text → (Text → List Bytes → Decision) → Option Body → Option Text → Decision
unfolding hex32_all check_forbidden_fields resolve_network
list_request cfg key ask none query = refuse 400
list_request cfg key ask (some body) query = elim (check_forbidden_fields body) [
  | some k ↦ refuse 400
  | none ↦
      if not (network_body_keys_ok body key)
      then refuse 400
      else elim (resolve_network cfg (get (codes "network") body) query) [
        | none ↦ refuse 400
        | some network ↦ elim (get key body) [
          | some (list hashes) ↦
              if leb 1 (length hashes) && leb (length hashes) max_puzzle_hashes
              then elim (hex32_all hashes) [
                | none ↦ refuse 400
                | some bs ↦ with_manager cfg network (ask network bs)
              ]
              else refuse 400
          | _ ↦ refuse 400
        ]
      ]
]

-- `handle_coins`
unfoldable pub handle_coins : ServerConfig → Option Body → Option Text → Decision
unfolding list_request
handle_coins cfg body query = list_request cfg (codes "puzzle_hashes") ask_coins body query

-- `handle_coin_ids`
unfoldable pub handle_coin_ids : ServerConfig → Option Body → Option Text → Decision
unfolding list_request
handle_coin_ids cfg body query = list_request cfg (codes "coin_ids") ask_coin_ids body query

-- `handle_coin`
unfoldable pub handle_coin : ServerConfig → Text → Option Text → Decision
unfolding hex32 resolve_network
handle_coin cfg raw_id query = elim (hex32 (some raw_id)) [
  | none ↦ refuse 400
  | some id ↦ elim (resolve_network cfg none query) [
    | none ↦ refuse 400
    | some network ↦ with_manager cfg network (ask_coin network id)
  ]
]

-- `handle_status`; it answers without a manager too.
unfoldable pub handle_status : ServerConfig → Option Text → Decision
unfolding resolve_network
handle_status cfg query = elim (resolve_network cfg none query) [
  | none ↦ refuse 400
  | some network ↦ show_status network
]

-- The bundle of a body: the documented key, or else its alias.
abbrev pub bundle_hex : Body → Option Json
bundle_hex body = elim (get (codes "spend_bundle") body) [
  | some v ↦ some v
  | none ↦ get (codes "spend_bundle_hex") body
]

-- The structural gate of `handle_broadcast`.
unfoldable pub check_bundle : ServerConfig → Text → Option Json → Decision
unfolding from_hex parse_spend_bundle
check_bundle cfg network (some (text s)) =
    if length s == 0 then refuse 400 else elim (from_hex (strip s)) [
      | none ↦ refuse 400
      | some bundle ↦
          if ltb max_bundle_bytes (length bundle)
          then refuse 400
          else elim (parse_spend_bundle bundle) [
            | none ↦ refuse 400
            | some parsed ↦ with_manager cfg network (send network bundle parsed)
          ]
    ]
check_bundle cfg network _ = refuse 400

-- `handle_broadcast`, up to the call of the manager.
unfoldable pub handle_broadcast : ServerConfig → Option Body → Option Text → Decision
unfolding check_forbidden_fields resolve_network check_bundle
handle_broadcast cfg none query = refuse 400
handle_broadcast cfg (some body) query = elim (check_forbidden_fields body) [
  | some k ↦ refuse 400
  | none ↦
      if not
        (only_keys (codes "spend_bundle" ∷ codes "spend_bundle_hex" ∷ codes "network" ∷ []) body)
      then refuse 400
      else elim (resolve_network cfg (get (codes "network") body) query) [
        | none ↦ refuse 400
        | some network ↦ check_bundle cfg network (bundle_hex body)
      ]
]

-- `handle_broadcast` once the peer has acknowledged: the log keeps the newest records.
unfoldable pub end_broadcast : BroadcastRecord → Server → Server
end_broadcast entry s = record s {
  broadcast_log = take broadcast_log_size (entry ∷ s.broadcast_log);
}

-- The optional filter of the log.
abbrev pub wanted : ServerConfig → Option Text → Option (BroadcastRecord → Bool)
wanted cfg none = some (λ r. true)
wanted cfg (some name) =
    let n = lower_text (strip name) in
    if contains n cfg.networks then some (λ r. r.network == n) else none

-- `handle_broadcasts`
unfoldable pub handle_broadcasts : ServerConfig → Option Text → Server → Decision
handle_broadcasts cfg query s = elim (wanted cfg query) [
  | none ↦ refuse 400
  | some p ↦ show (keep p s.broadcast_log)
]

abbrev pub first_or_404 : List BroadcastRecord → Decision
first_or_404 [] = refuse 404
first_or_404 (r ∷ rs) = show (r ∷ [])

-- `handle_broadcast_tx`
unfoldable pub handle_broadcast_tx : ServerConfig → Text → Option Text → Server → Decision
unfolding hex32
handle_broadcast_tx cfg raw query s = elim (hex32 (some raw)) [
  | none ↦ refuse 400
  | some txid ↦ elim (wanted cfg query) [
    | none ↦ refuse 400
    | some p ↦ first_or_404 (keep (λ r. r.txid == txid && p r) s.broadcast_log)
  ]
]
