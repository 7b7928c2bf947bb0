-- ===== src/Relay/Peer/Connect.antt =====
-- The end of `ChiaPeer.connect`: what a peer's handshake and certificate must show.
use spellbook.Prelude.{
  String, ◌≡◌, ◌↔◌, ◌⊎◌, true, not, Option, none, some, ◌==◌, number_IsKey, text_IsKey, bytes_IsKey,
  if◌then◌else◌,
}
use spellbook.Prelude.Text.{lower}
use spellbook.Streamable.Utf8.{Text}
use spellbook.Streamable.Messages.{Handshake, full_node}
use spellbook.Relay.Peer.{Peer, connected, close}

pub record PeerConfig : Type 0 where
  pub network_id : Text
  pub cert_pin : Option String

pub data Outcome : Type 0 where
  up : Outcome
  no_handshake not_full_node wrong_network no_certificate wrong_certificate : Outcome

-- `_verify_cert_pin`; the digest of the certificate is `none` where none can be had. An empty pin is no
-- pin.
unfoldable pub verify_cert_pin : Option String → Option String → Outcome
verify_cert_pin none digest = up
verify_cert_pin (some pin) none = if pin == "" then up else no_certificate
verify_cert_pin (some pin) (some digest) =
    if pin == "" then up else if digest == lower pin then up else wrong_certificate

-- `connect` once the wait for the handshake is over: the peer that is left, and what is returned or
-- raised.
unfoldable pub judge_handshake : PeerConfig → Option String → Handshake → Peer → Peer × Outcome
unfolding verify_cert_pin
judge_handshake cfg digest hs p =
    if not (hs.node_type == full_node)
    then (close p, not_full_node)
    else if not (hs.network_id == cfg.network_id)
    then (close p, wrong_network)
    else (p, verify_cert_pin cfg.cert_pin digest)

unfoldable pub end_connect : PeerConfig → Option String → Peer → Peer × Outcome
unfolding judge_handshake
end_connect cfg digest p = elim p.handshake_result [
  | none ↦ (close p, no_handshake)
  | some hs ↦ if p.handshake_done then judge_handshake cfg digest hs p else (close p, no_handshake)
]

-- A full node's handshake on the pinned network.
abbrev pub Fits : PeerConfig → Handshake → Type 0
Fits cfg hs = (hs.node_type ≡ full_node) × (hs.network_id ≡ cfg.network_id)

-- What a pin asks of the certificate's digest: nothing where it is absent or empty, and else that it is
-- the pin's, in lower case.
abbrev pub Trusts : Option String → Option String → Type 0
Trusts none digest = Unit {0}
Trusts (some pin) digest = (pin ≡ "") ⊎ (digest ≡ some (lower pin))

-- What a handshake and a certificate decide, of the peer and the outcome that are left.
abbrev pub Decides : PeerConfig → Option String → Handshake → Peer × Outcome → Type 0
Decides cfg digest hs r =
    ((r.1 ≡ up) ↔ (Fits cfg hs × Trusts cfg.cert_pin digest))
    × ((connected r.0 ≡ true) ↔ Fits cfg hs)
