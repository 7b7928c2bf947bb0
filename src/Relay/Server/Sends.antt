-- ===== src/Relay/Server/Sends.antt =====
-- What the relay's server hands to a network's peers.
use spellbook.Prelude.{
  subst, sym, ℕ, ◌≤◌, ◌≡◌, refl, true, false, not, Option, none, some, [], ◌∷◌, ◌==◌, number_IsKey,
  bytes_IsKey, ltb, length, contains, arith, if◌then◌else◌, Bool-cases, Option-cases, inl, inr,
}
use spellbook.Prelude.Codes.{codes, strip, from_hex}
use spellbook.Prelude.Dict.{get}
use spellbook.Streamable.Bytes.{Bytes}
use spellbook.Streamable.Utf8.{Text}
use spellbook.Streamable.Coins.{SpendBundle, parse_spend_bundle}
use spellbook.Relay.Server.{
  max_bundle_bytes, Json, text, Body, ServerConfig, Server, check_forbidden_fields, only_keys,
  resolve_network, ask_coins, ask_coin_ids, Decision, refuse, send, with_manager,
}
use spellbook.Relay.Server.Handlers.{
  bundle_hex, check_bundle, handle_broadcast, handle_coins, handle_coin_ids,
}
use spellbook.Relay.Server.Cases.{by_option, by_test, by_gate}
use spellbook.Relay.Server.Asks.{
  SendsNone, list_request-SendsNone, handle_coin-SendsNone, handle_status-SendsNone,
  handle_broadcasts-SendsNone, handle_broadcast_tx-SendsNone,
}
use spellbook.Relay.Server.Gate.{
  admit, preflight, open_health, unauthorized, admitted, Request, Route, health, status, broadcasts,
  coins, coin_ids, broadcast, coin, broadcast_tx, Gate, partition, is_authorized, security, handler,
  behind, serve,
}

-- A bundle that a network's manager may be given, with the request's body.
pub record IsSendable (cfg : ServerConfig) (query : Option Text) (body : Body) (network : Text)
    (b : Bytes) (parsed : SpendBundle) : Type 0 where
  pub no_secret : check_forbidden_fields body ≡ none
  pub named : resolve_network cfg (get (codes "network") body) query ≡ some network
  pub runs : contains network cfg.running ≡ true
  pub short : length b ≤ max_bundle_bytes
  pub well_formed : parse_spend_bundle b ≡ some parsed

-- The decision sends nothing that is not sendable.
SendsOnly : ServerConfig → Option Text → Body → Decision → Type 0
SendsOnly cfg query body (send network b parsed) = IsSendable cfg query body network b parsed
SendsOnly cfg query body _ = Unit {0}

refuse-SendsOnly :
    (cfg : ServerConfig) (query : Option Text) (body : Body) (n : ℕ)
    → SendsOnly cfg query body (refuse n)
unfolding SendsOnly
refuse-SendsOnly cfg query body n = tt

le_of : (m n : ℕ) → ltb m n ≡ false → n ≤ m
le_of m n h = ground arith

module _ (cfg : ServerConfig) (query : Option Text) (body : Body) (network : Text)
    (no_secret : check_forbidden_fields body ≡ none)
    (named : resolve_network cfg (get (codes "network") body) query ≡ some network) where
  with_manager-SendsOnly :
      (b : Bytes) (parsed : SpendBundle)
      → length b ≤ max_bundle_bytes
      → parse_spend_bundle b ≡ some parsed
      → SendsOnly cfg query body (with_manager cfg network (send network b parsed))
  unfolding SendsOnly
  with_manager-SendsOnly b parsed short p = elim (Bool-cases (contains network cfg.running)) [
    | inl runs ↦
        rw runs record {
          no_secret = no_secret;
          named = named;
          runs = runs;
          short = short;
          well_formed = p;
        }
    | inr down ↦ rw down tt
  ]

  check_bundle-SendsOnly : (v : Option Json) → SendsOnly cfg query body (check_bundle cfg network v)
  unfolding check_bundle SendsOnly
  check_bundle-SendsOnly (some (text s)) = elim (Bool-cases (length s == 0)) [
    | inl empty ↦ rw empty tt
    | inr full ↦ rw full (elim (Option-cases (from_hex (strip s))) [
      | inl bad ↦ rw bad tt
      | inr (b, hex) ↦ rw hex (elim (Bool-cases (ltb max_bundle_bytes (length b))) [
        | inl long ↦ rw long tt
        | inr short ↦ rw short (elim (Option-cases (parse_spend_bundle b)) [
          | inl bad ↦ rw bad tt
          | inr (parsed, p) ↦ rw p (with_manager-SendsOnly b parsed (le_of _ _ short) p)
        ])
      ])
    ])
  ]
  check_bundle-SendsOnly _ = tt

broadcast_body-SendsOnly :
    (cfg : ServerConfig) (body : Body) (query : Option Text) (secret : Option Text)
    → check_forbidden_fields body ≡ secret
    → SendsOnly cfg query body (elim secret [
      | some k ↦ refuse 400
      | none ↦
          if not (
            only_keys (codes "spend_bundle" ∷ codes "spend_bundle_hex" ∷ codes "network" ∷ []) body)
          then refuse 400
          else elim (resolve_network cfg (get (codes "network") body) query) [
            | none ↦ refuse 400
            | some network ↦ check_bundle cfg network (bundle_hex body)
          ]
    ])
broadcast_body-SendsOnly cfg body query (some k) h = refuse-SendsOnly cfg query body 400
broadcast_body-SendsOnly cfg body query none h =
    by_test (SendsOnly cfg query body) _ (λ strange. refuse-SendsOnly cfg query body 400)
      (λ plain.
        by_option (SendsOnly cfg query body)
          (resolve_network cfg (get (codes "network") body) query)
          (refuse-SendsOnly cfg query body 400)
          (λ network named.
            check_bundle-SendsOnly cfg query body network h named (bundle_hex body)))

handle_broadcast-SendsOnly :
    (cfg : ServerConfig) (body : Body) (query : Option Text)
    → SendsOnly cfg query body (handle_broadcast cfg (some body) query)
unfolding handle_broadcast
handle_broadcast-SendsOnly cfg body query =
    broadcast_body-SendsOnly cfg body query (check_forbidden_fields body) refl

-- What the gate lets through of a request, with what its handler decides.
Vouched : ServerConfig → Request → Option Decision → Type 0
Vouched cfg req none = Unit {0}
Vouched cfg req (some (send network b parsed)) =
    (is_authorized cfg req.authorization ≡ true)
    × ((body : Body) × (req.route ≡ broadcast (some body))
        × IsSendable cfg req.query body network b parsed)
Vouched cfg req (some _) = Unit {0}

SendsOnly-Vouched :
    (cfg : ServerConfig) (req : Request) (body : Body) (d : Decision)
    → is_authorized cfg req.authorization ≡ true
    → req.route ≡ broadcast (some body)
    → SendsOnly cfg req.query body d
    → Vouched cfg req (some d)
unfolding SendsOnly Vouched
SendsOnly-Vouched cfg req body (send network b parsed) known e h = (known, (body, e, h))
SendsOnly-Vouched cfg req body _ known e h = tt

SendsNone-Vouched :
    (cfg : ServerConfig) (req : Request) (d : Decision) → SendsNone d → Vouched cfg req (some d)
unfolding SendsNone Vouched
SendsNone-Vouched cfg req (send network b parsed) h = absurd h
SendsNone-Vouched cfg req _ h = tt

refuse-SendsNone_broadcast :
    (cfg : ServerConfig) (query : Option Text) → SendsNone (handle_broadcast cfg none query)
unfolding SendsNone handle_broadcast
refuse-SendsNone_broadcast cfg query = tt

handler-Vouched :
    (cfg : ServerConfig) (req : Request) (s : Server) (route : Route)
    → is_authorized cfg req.authorization ≡ true
    → req.route ≡ route
    → Vouched cfg req (handler cfg route req.query s)
unfolding handler handle_coins handle_coin_ids
handler-Vouched cfg req s health known e = unfold Vouched in tt
handler-Vouched cfg req s status known e =
    SendsNone-Vouched cfg req _ (handle_status-SendsNone cfg req.query)
handler-Vouched cfg req s broadcasts known e =
    SendsNone-Vouched cfg req _ (handle_broadcasts-SendsNone cfg req.query s)
handler-Vouched cfg req s (coins body) known e = SendsNone-Vouched cfg req _ (
    list_request-SendsNone cfg (codes "puzzle_hashes") ask_coins body req.query
      (λ network bs. unfold SendsNone in tt))
handler-Vouched cfg req s (coin_ids body) known e = SendsNone-Vouched cfg req _ (
    list_request-SendsNone cfg (codes "coin_ids") ask_coin_ids body req.query
      (λ network bs. unfold SendsNone in tt))
handler-Vouched cfg req s (broadcast none) known e =
    SendsNone-Vouched cfg req _ (refuse-SendsNone_broadcast cfg req.query)
handler-Vouched cfg req s (broadcast (some body)) known e =
    SendsOnly-Vouched cfg req body _ known e (handle_broadcast-SendsOnly cfg body req.query)
handler-Vouched cfg req s (coin id) known e =
    SendsNone-Vouched cfg req _ (handle_coin-SendsNone cfg id req.query)
handler-Vouched cfg req s (broadcast_tx id) known e =
    SendsNone-Vouched cfg req _ (handle_broadcast_tx-SendsNone cfg id req.query s)

-- A gate with the server that it leaves.
Passes : ServerConfig → Request → Server × Gate → Type 0
Passes cfg req r = Vouched cfg req (behind r.1 (handler cfg req.route req.query r.0))

known-Passes :
    (cfg : ServerConfig) (req : Request) (s : Server) (g : Gate)
    → is_authorized cfg req.authorization ≡ true
    → Passes cfg req (s, g)
unfolding Passes
known-Passes cfg req s admitted known = handler-Vouched cfg req s req.route known refl
known-Passes cfg req s _ known = unfold Vouched in tt

shut-Passes :
    (cfg : ServerConfig) (req : Request) (s : Server) (g : Gate)
    → ((d : Option Decision) → behind g d ≡ none)
    → Passes cfg req (s, g)
unfolding Passes
shut-Passes cfg req s g shut =
    subst (Vouched cfg req) (sym (shut (handler cfg req.route req.query s))) (unfold Vouched in tt)

security-Passes :
    (cfg : ServerConfig) (now : ℕ) (req : Request) (s : Server)
    → Passes cfg req (security cfg now req s)
security-Passes cfg now req s =
    by_gate (Passes cfg req) cfg now req s (shut-Passes cfg req s preflight (λ d. refl))
      (shut-Passes cfg req s open_health (λ d. refl))
      (shut-Passes cfg req s unauthorized (λ d. refl))
      (λ known.
        let r = admit now (partition req.authorization).1 s in known-Passes cfg req r.0 r.1 known)

-- A bundle is handed to a network's peers only for a request that carries the token: a broadcast whose
-- body has no field for key material and whose network is the one that the request resolves to, with a
-- manager running; and the bundle is well-formed and within the size limit.
pub serve-IsSendable :
    (cfg : ServerConfig) (now : ℕ) (req : Request) (s : Server) (network : Text) (b : Bytes)
    (parsed : SpendBundle)
    → (serve cfg now req s).1 ≡ some (send network b parsed)
    → (is_authorized cfg req.authorization ≡ true)
      × ((body : Body) × (req.route ≡ broadcast (some body))
          × IsSendable cfg req.query body network b parsed)
unfolding serve Vouched Passes
serve-IsSendable cfg now req s network b parsed h =
    subst (Vouched cfg req) h (security-Passes cfg now req s)
