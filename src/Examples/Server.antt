-- ===== src/Examples/Server.antt =====
-- The relay's server at concrete requests.
use spellbook.Prelude.{◌≤◌, ◌≡◌, refl, ap, true, false, none, some, [], ◌∷◌, length, arith}
use spellbook.Prelude.Codes.{codes, from_hex, hex_digit, to_hex, hex_char}
use spellbook.Streamable.Coins.{parse_spend_bundle}
use spellbook.Examples.Bundle.{one_spend, one_spend_bytes, one_spend_encodes}
use spellbook.Streamable.Coins.Bundles.{parse_spend_bundle-enc_spend_bundle}
use spellbook.Relay.Server.{
  ServerConfig, Server, Body, text, refuse, send, with_manager, check_forbidden_fields,
  resolve_network,
}
use spellbook.Relay.Server.Handlers.{handle_broadcast, check_bundle}
use spellbook.Relay.Server.Gate.{
  Request, broadcast, status, serve, security, is_authorized, admit, trim, handler,
}
use spellbook.Relay.Server.Limit.{recent, admitted_times, admitted_times_bound}
use spellbook.Relay.Server.Sends.{IsSendable, serve-IsSendable}

abbrev config : ServerConfig
config = record {
  token = codes "0123456789abcdef";
  networks = codes "testnet11" ∷ [];
  network_id = codes "testnet11";
  running = codes "testnet11" ∷ [];
}

abbrev idle : Server
idle = record { broadcast_log = []; rate_buckets = [] }

abbrev ask_status : Request
ask_status = record {
  is_options = false;
  route = status;
  authorization = codes "Bearer 0123456789abcdef";
  query = none;
}

admitted_times_bound_example :
    length (recent 70 (admitted_times config ((5, ask_status) ∷ (66, ask_status) ∷ []) idle)) ≤ 60
admitted_times_bound_example =
    admitted_times_bound config 70 ((5, ask_status) ∷ (66, ask_status) ∷ []) idle refl
      (omega arith, (omega arith, tt))

-- Both requests are let through, and one is recent.
both_admitted : admitted_times config ((5, ask_status) ∷ (66, ask_status) ∷ []) idle ≡ 5 ∷ 66 ∷ []
unfolding admitted_times security is_authorized admit trim
both_admitted = refl

bundle_parses : parse_spend_bundle one_spend_bytes ≡ some one_spend
bundle_parses =
    parse_spend_bundle-enc_spend_bundle one_spend one_spend_bytes one_spend_encodes (omega arith)
      (omega arith) ((omega arith, omega arith), tt)

abbrev bundle_body : Body
bundle_body = (codes "spend_bundle", text (to_hex one_spend_bytes)) ∷ []

abbrev send_bundle : Request
send_bundle = record {
  is_options = false;
  route = broadcast (some bundle_body);
  authorization = codes "Bearer 0123456789abcdef";
  query = none;
}

bundle_sent :
    (serve config 5 send_bundle idle).1 ≡ some (send (codes "testnet11") one_spend_bytes one_spend)
unfolding serve security is_authorized admit trim handler handle_broadcast check_forbidden_fields
    resolve_network check_bundle from_hex hex_digit to_hex hex_char
bundle_sent =
    ap
      (λ o. some (elim o [
        | none ↦ refuse 400
        | some parsed ↦
            with_manager config (codes "testnet11")
              (send (codes "testnet11") one_spend_bytes parsed)
      ]))
      bundle_parses

serve-IsSendable_example :
    (is_authorized config send_bundle.authorization ≡ true)
    × ((body : Body) × (send_bundle.route ≡ broadcast (some body))
        × IsSendable config none body (codes "testnet11") one_spend_bytes one_spend)
serve-IsSendable_example =
    serve-IsSendable config 5 send_bundle idle (codes "testnet11") one_spend_bytes one_spend
      bundle_sent
