-- ===== src/Streamable/Messages.antt =====
-- The message envelope, the handshake and the wallet messages of relay/streamable.py.
pub mod Frames
use spellbook.Prelude.{
  ℕ, ◌^◌, ◌-◌, ◌∷◌, [], ◌≡◌, Bool, Option, none, some, List, leb, ◌==◌, number_IsKey, length,
}
use spellbook.Streamable.Bytes.{
  Bytes, Parser, ◌>>=◌, ◌>>◌, pure, require, read, finish, Encoded, ◌<>◌,
}
use spellbook.Streamable.Values.{
  enc_uint, dec_uint, dec_u128, enc_bytes_var, dec_bytes_var, enc_bytes_fixed, dec_bytes_fixed,
  enc_optional, dec_optional, join, dec_list, enc_list,
}
use spellbook.Streamable.Utf8.{Text, enc_str, dec_str}
use spellbook.Streamable.Coins.{CoinState, dec_coin_state}

pub record Message : Type 0 where
  pub msg_type : ℕ
  pub id : Option ℕ
  pub payload : Bytes

unfoldable pub enc_message : Message → Encoded
enc_message msg =
    enc_uint 1 msg.msg_type <> enc_optional msg.id (enc_uint 2) <> enc_bytes_var msg.payload

unfoldable pub read_message : Parser Message
read_message = dec_uint 1 >>= λ kind. dec_optional (dec_uint 2) >>= λ number.
    dec_bytes_var (256 ^ 4 - 1) >>= λ b. pure (record { msg_type = kind; id = number; payload = b })

unfoldable pub dec_message : Bytes → Option Message
dec_message frame = finish (read_message frame)

abbrev pub Capability : Type 0
Capability = ℕ × Text

pub record Handshake : Type 0 where
  pub network_id : Text
  pub protocol_version : Text
  pub software_version : Text
  pub server_port : ℕ
  pub node_type : ℕ
  pub capabilities : List Capability

unfoldable pub enc_capability : Capability → Encoded
enc_capability (n, value) = enc_uint 2 n <> enc_str value

unfoldable pub dec_capability : Parser Capability
dec_capability = dec_uint 2 >>= λ n. dec_str >>= λ value. pure (n, value)

unfoldable pub enc_handshake : Handshake → Encoded
enc_handshake h =
    enc_str h.network_id
    <> enc_str h.protocol_version
    <> enc_str h.software_version
    <> enc_uint 2 h.server_port
    <> enc_uint 1 h.node_type
    <> enc_list h.capabilities enc_capability

unfoldable pub read_handshake : Parser Handshake
read_handshake = dec_str >>= λ network. dec_str >>= λ protocol. dec_str >>= λ software.
    dec_uint 2 >>= λ port. dec_uint 1 >>= λ node. dec_list dec_capability 64 >>= λ caps.
    pure (record {
      network_id = network;
      protocol_version = protocol;
      software_version = software;
      server_port = port;
      node_type = node;
      capabilities = caps;
    })

unfoldable pub dec_handshake : Bytes → Option Handshake
dec_handshake frame = finish (read_handshake frame)

-- `NodeType`
abbrev pub full_node : ℕ
full_node = 1

abbrev wallet_node : ℕ
wallet_node = 6

-- `make_outbound_handshake`, with the versions "0.0.37" and "0.0.0" and a wallet's node type.
unfoldable pub make_outbound_handshake : Text → Handshake
make_outbound_handshake network = record {
  network_id = network;
  protocol_version = 48 ∷ 46 ∷ 48 ∷ 46 ∷ 51 ∷ 55 ∷ [];
  software_version = 48 ∷ 46 ∷ 48 ∷ 46 ∷ 48 ∷ [];
  server_port = 0;
  node_type = wallet_node;
  capabilities = (1, 49 ∷ []) ∷ (2, 49 ∷ []) ∷ (3, 49 ∷ []) ∷ [];
}

-- `enc_register_for_ph_updates`, and `enc_register_for_coin_updates`, which is the same of coin ids.
unfoldable pub enc_register_for_updates : List Bytes → ℕ → Encoded
enc_register_for_updates ids min_height =
    enc_uint 4 (length ids) <> join (λ id. enc_bytes_fixed id 32) ids <> enc_uint 4 min_height

-- `dec_respond_to_ph_updates`, and `dec_respond_to_coin_updates`: the ids, the height, the states.
unfoldable pub dec_respond_to_updates : Bytes → Option (List Bytes × ℕ × List CoinState)
dec_respond_to_updates frame = finish (
    (dec_list (dec_bytes_fixed 32) 100000 >>= λ ids. dec_uint 4 >>= λ min_height.
    dec_list dec_coin_state 1000000 >>= λ states. pure (ids, min_height, states))
      frame)

-- The height, the fork height, the hash of the peak, the states.
unfoldable pub dec_coin_state_update : Bytes → Option (ℕ × ℕ × Bytes × List CoinState)
dec_coin_state_update frame = finish (
    (dec_uint 4 >>= λ height. dec_uint 4 >>= λ fork_height. dec_bytes_fixed 32 >>= λ peak_hash.
    dec_list dec_coin_state 1000000 >>= λ items. pure (height, fork_height, peak_hash, items))
      frame)

-- The transaction's id, the status of the mempool, and the error.
unfoldable pub dec_transaction_ack : Bytes → Option (Bytes × ℕ × Option Text)
dec_transaction_ack frame = finish (
    (dec_bytes_fixed 32 >>= λ txid.
    dec_uint 1 >>= λ status. dec_optional dec_str >>= λ error. pure (txid, status, error))
      frame)

-- The hash of the header, the height, the weight, the point of the fork.
unfoldable pub dec_new_peak_wallet : Bytes → Option (Bytes × ℕ × ℕ × ℕ)
dec_new_peak_wallet frame = finish (
    (dec_bytes_fixed 32 >>= λ header_hash. dec_uint 4 >>= λ height. dec_u128 >>= λ weight.
    dec_uint 4 >>= λ fork_point. pure (header_hash, height, weight, fork_point))
      frame)

-- `enc_send_transaction`: a bundle goes into its message as it is.
unfoldable pub enc_send_transaction : Bytes → Bytes
enc_send_transaction bundle = bundle

-- `spend_bundle_txid`; the hash is a parameter.
unfoldable pub spend_bundle_txid : (Bytes → Bytes) → Bytes → Bytes
spend_bundle_txid sha256 bundle = sha256 bundle
