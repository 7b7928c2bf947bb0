-- ===== src/Streamable/Messages/Frames.antt =====
-- Messages and handshakes are read back from their frames.
use spellbook.Prelude.{◌-◌, ◌^◌, ◌≤◌, ◌≡◌, some, arith, length}
use spellbook.Streamable.Bytes.{Bytes, <>-eq-some}
use spellbook.Streamable.Reads.{Reads, Reads-then, Reads-pure, finish-eq-some}
use spellbook.Streamable.Values.{enc_uint, enc_bytes_var}
use spellbook.Streamable.RoundTrips.{uint-Reads, bytes_var-Reads, optional-Reads, list-Reads}
use spellbook.Streamable.Utf8.Laws.{str-Reads}
use spellbook.Streamable.Messages.{
  Message, enc_message, read_message, dec_message, Capability, enc_capability, dec_capability,
  Handshake, enc_handshake, read_handshake, dec_handshake,
}

message-Reads :
    (msg : Message) → length msg.payload ≤ 256 ^ 4 - 1 → Reads (enc_message msg) read_message msg
unfolding enc_message read_message
message-Reads msg fits = Reads-then _ (uint-Reads 1 msg.msg_type) (
    Reads-then _ (optional-Reads msg.id (uint-Reads 2))
      (Reads-pure _ (bytes_var-Reads msg.payload (256 ^ 4 - 1) fits)))

var-fits : (b enc : Bytes) → enc_bytes_var b ≡ some enc → length b ≤ 256 ^ 4 - 1
unfolding enc_bytes_var enc_uint
var-fits b enc h = ground arith

-- Every message that encodes is decoded back from its frame.
pub dec_message-enc_message :
    (msg : Message) (frame : Bytes) → enc_message msg ≡ some frame → dec_message frame ≡ some msg
unfolding dec_message enc_message
dec_message-enc_message msg frame h =
    let (p, q, kind, tail, split) = <>-eq-some _ _ frame h in
    let (r, s, id_r, payload, split') = <>-eq-some _ _ q tail in
    finish-eq-some frame (message-Reads msg (var-fits msg.payload s payload)) h

capability-Reads : (c : Capability) → Reads (enc_capability c) dec_capability c
unfolding enc_capability dec_capability
capability-Reads (n, value) = Reads-then _ (uint-Reads 2 n) (Reads-pure _ (str-Reads value))

handshake-Reads :
    (h : Handshake) → length h.capabilities ≤ 64 → Reads (enc_handshake h) read_handshake h
unfolding enc_handshake read_handshake
handshake-Reads h few = Reads-then _ (str-Reads h.network_id) (
    Reads-then _ (str-Reads h.protocol_version) (
      Reads-then _ (str-Reads h.software_version) (
        Reads-then _ (uint-Reads 2 h.server_port) (
          Reads-then _ (uint-Reads 1 h.node_type)
            (Reads-pure _ (list-Reads h.capabilities 64 few capability-Reads))))))

-- A handshake of at most 64 capabilities that encodes is decoded back from its frame.
pub dec_handshake-enc_handshake :
    (h : Handshake) (frame : Bytes)
    → enc_handshake h ≡ some frame
    → length h.capabilities ≤ 64
    → dec_handshake frame ≡ some h
unfolding dec_handshake
dec_handshake-enc_handshake h frame e few = finish-eq-some frame (handshake-Reads h few) e
