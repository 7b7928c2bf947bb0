-- ===== src/Relay/Server/Gate.antt =====
-- `security_middleware` of relay/server.py and the routes behind it.
use spellbook.Prelude.{
  ℕ, ◌+◌, Bool, true, false, ◌&&◌, Option, none, some, List, [], ◌∷◌, ◌++◌, ◌==◌, number_IsKey,
  bytes_IsKey, leb, length, if◌then◌else◌,
}
use spellbook.Prelude.Codes.{codes, lower_text}
use spellbook.Prelude.Dict.{get_or, insert}
use spellbook.Streamable.Utf8.{Text}
use spellbook.Relay.Server.{rate_limit_per_min, Body, ServerConfig, Server, Decision}
use spellbook.Relay.Server.Handlers.{
  handle_coins, handle_coin_ids, handle_coin, handle_status, handle_broadcast, handle_broadcasts,
  handle_broadcast_tx,
}

-- A body that is no JSON object is `none`.
pub data Route : Type 0 where
  health status broadcasts : Route
  coins coin_ids broadcast : Option Body → Route
  coin broadcast_tx : Text → Route

pub record Request : Type 0 where
  pub is_options : Bool
  pub route : Route
  pub authorization : Text
  pub query : Option Text

pub data Gate : Type 0 where
  preflight open_health unauthorized limited admitted : Gate

-- `auth.partition(" ")`, without the space.
abbrev pub partition : Text → Text × Text
partition [] = ([], [])
partition (c ∷ s) = if c == 32 then ([], s) else (c ∷ (partition s).0, (partition s).1)

unfoldable pub is_authorized : ServerConfig → Text → Bool
is_authorized cfg auth =
    lower_text (partition auth).0 == codes "bearer" && (partition auth).1 == cfg.token

-- `while bucket and bucket[0] <= now - 60: bucket.popleft()`
unfoldable pub trim : ℕ → List ℕ → List ℕ
trim now [] = []
trim now (t ∷ ts) = if leb (t + 60) now then trim now ts else t ∷ ts

-- The limit on one token's requests.
unfoldable pub admit : ℕ → Text → Server → Server × Gate
unfolding trim
admit now presented s =
    let bucket = trim now (get_or presented [] s.rate_buckets) in
    if leb rate_limit_per_min (length bucket)
    then (record s { rate_buckets = insert presented bucket s.rate_buckets }, limited)
    else (
      record s { rate_buckets = insert presented (bucket ++ now ∷ []) s.rate_buckets },
      admitted,
    )

abbrev pub is_health : Route → Bool
is_health health = true
is_health _ = false

-- `security_middleware`, up to the handler.
unfoldable pub security : ServerConfig → ℕ → Request → Server → Server × Gate
unfolding is_authorized admit
security cfg now req s =
    if req.is_options
    then (s, preflight)
    else if is_health req.route
    then (s, open_health)
    else if is_authorized cfg req.authorization
    then admit now (partition req.authorization).1 s
    else (s, unauthorized)

-- The handler that a route is added for.
unfoldable pub handler : ServerConfig → Route → Option Text → Server → Option Decision
unfolding handle_coins handle_coin_ids handle_coin handle_status handle_broadcast handle_broadcasts
    handle_broadcast_tx
handler cfg health query s = none
handler cfg status query s = some (handle_status cfg query)
handler cfg broadcasts query s = some (handle_broadcasts cfg query s)
handler cfg (coins body) query s = some (handle_coins cfg body query)
handler cfg (coin_ids body) query s = some (handle_coin_ids cfg body query)
handler cfg (broadcast body) query s = some (handle_broadcast cfg body query)
handler cfg (coin id) query s = some (handle_coin cfg id query)
handler cfg (broadcast_tx id) query s = some (handle_broadcast_tx cfg id query s)

-- A request that the gate admits comes to its handler.
abbrev pub behind : Gate → Option Decision → Option Decision
behind admitted d = d
behind _ d = none

unfoldable pub serve : ServerConfig → ℕ → Request → Server → Server × Option Decision
unfolding security handler
serve cfg now req s =
    let (s', gate) = security cfg now req s in
    (s', behind gate (handler cfg req.route req.query s'))
