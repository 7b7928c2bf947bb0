-- ===== src/Examples/Relay.antt =====
-- The theorems on the relay's peers at concrete peers.
use spellbook.Prelude.{
  ℕ, ◌<◌, ◌≤◌, get_elem?, length, ◌≡◌, refl, ap, subst, true, none, some, [], ◌∷◌, inl, arith,
}
use spellbook.Streamable.Bytes.{Bytes, be}
use spellbook.Streamable.Values.{enc_uint, join, enc_list}
use spellbook.Streamable.Utf8.{enc_str, counted, utf8_encode, enc_char}
use spellbook.Streamable.Messages.{Message, Handshake, enc_handshake, dec_handshake, full_node}
use spellbook.Streamable.Messages.Frames.{dec_handshake-enc_handshake}
use spellbook.Relay.Peer.{
  Peer, Call, answered, new_peer, connected, dispatch, on_handshake, begin_request,
}
use spellbook.Relay.Peer.Steps.{
  Reach, here, next, opens, starts, receives, opened, Answers, Reach-Answers,
}
use spellbook.Relay.Peer.Connect.{PeerConfig}
use spellbook.Relay.Manager.{ManagerConfig, Manager, is_retired, is_stale, live_peers, watchdog}
use spellbook.Relay.Manager.Retire.{turns, checks, run, AllFresh, watchdog-is_retired}
use spellbook.Relay.Manager.Rotation.{nth_pick, pick_peer_rotates}

-- A full node on the network "t".
abbrev node : Handshake
node = record {
  network_id = 116 ∷ [];
  protocol_version = [];
  software_version = [];
  server_port = 0;
  node_type = full_node;
  capabilities = [];
}

abbrev node_bytes : Bytes
node_bytes = 0 ∷ 0 ∷ 0 ∷ 1 ∷ 116 ∷ 0 ∷ 0 ∷ 0 ∷ 0 ∷ 0 ∷ 0 ∷ 0 ∷ 0 ∷ 0 ∷ 0 ∷ 1 ∷ 0 ∷ 0 ∷ 0 ∷ 0 ∷ []

node_encodes : enc_handshake node ≡ some node_bytes
unfolding enc_handshake enc_str counted utf8_encode enc_char join enc_uint be enc_list
node_encodes = refl

node_decodes : dec_handshake node_bytes ≡ some node
node_decodes = dec_handshake-enc_handshake node node_bytes node_encodes (omega arith)

abbrev greeting : Message
greeting = record { msg_type = 1; id = none; payload = node_bytes }

abbrev greeted : Peer
greeted = on_handshake (some node) (opened new_peer)

greets : (dispatch 5 greeting (opened new_peer)).0 ≡ greeted
unfolding dispatch
greets = ap (λ h. on_handshake h (opened new_peer)) node_decodes

greeted-Reach : Reach new_peer greeted
greeted-Reach =
    subst (Reach new_peer) greets
      (next (next here (opens new_peer)) (receives (opened new_peer) 5 greeting))

-- The answer to a request for puzzle hashes.
abbrev reply : Message
reply = record { msg_type = 71; id = some 1; payload = [] }

abbrev served_call : Call
served_call = record { expect_type = 71; sent_id = 1; future = answered reply }

served-Reach : Reach new_peer (dispatch 6 reply (begin_request 71 greeted)).0
unfolding connected
served-Reach =
    next (next greeted-Reach (starts greeted 71 refl refl))
      (receives (begin_request 71 greeted) 6 reply)

served_has : (dispatch 6 reply (begin_request 71 greeted)).0.call ≡ some served_call
unfolding dispatch begin_request
served_has = refl

Reach-Answers_example :
    Answers reply served_call
    × ((1 ≤ (dispatch 6 reply (begin_request 71 greeted)).0.next_id)
        × ((dispatch 6 reply (begin_request 71 greeted)).0.next_id ≤ 65535))
Reach-Answers_example = Reach-Answers served_call reply served-Reach served_has refl

abbrev pinned : PeerConfig
pinned = record { network_id = 116 ∷ []; cert_pin = some "ab" }

abbrev limits : ManagerConfig
limits = record {
  max_peers = 8;
  target_peers = 3;
  peak_stale_after_s = 600;
  peak_retire_cooldown_s = 900;
}

-- One peer has been silent for 1000 seconds, the other for 10.
abbrev pool : Manager
pool = record {
  peers =
      ("a", record greeted { last_peak_at = some 1000 })
      ∷ ("b", record greeted { last_peak_at = some 1990 })
      ∷ [];
  coins = [];
  watched = [];
  peak_height = some 7;
  last_peak_at = some 1990;
  rr_index = 5;
  retired = [];
}

a_stale : is_stale limits 2000 (record greeted { last_peak_at = some 1000 }) ≡ true
unfolding is_stale connected
a_stale = refl

watchdog-is_retired_example :
    AllFresh limits 2000 (watchdog limits 2000 pool).peers
    × ((is_retired limits 2900 "a"
          (run limits (turns 2030 ∷ checks 2040 "a" ∷ []) (watchdog limits 2000 pool))).1
        ≡ true)
watchdog-is_retired_example =
    watchdog-is_retired limits "a" 2000 2900 (turns 2030 ∷ checks 2040 "a" ∷ []) pool
      (inl (refl, a_stale)) ((omega arith, omega arith), ((omega arith, omega arith), tt))
      (omega arith, omega arith)

b_live :
    get_elem? (live_peers pool.peers) 1 ≡ some ("b", record greeted { last_peak_at = some 1990 })
unfolding live_peers connected
b_live = refl

pick_peer_rotates_example :
    (k : ℕ) × (k < length (live_peers pool.peers))
    × (m : Manager) × (nth_pick k pool
        ≡ some (("b", record greeted { last_peak_at = some 1990 }), m))
pick_peer_rotates_example =
    pick_peer_rotates pool 1 ("b", record greeted { last_peak_at = some 1990 }) b_live
