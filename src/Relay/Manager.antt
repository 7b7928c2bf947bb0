-- ===== src/Relay/Manager.antt =====
-- `PeerManager` of relay/peer.py: the pool of connections, the cache of coin states, and the peers
-- that are retired as stale. The clock is read once in a call; a section's `sha256` names the coins.
pub mod Retire
pub mod Rotation
use spellbook.Prelude.{
  ℕ, ◌+◌, ◌-◌, ◌*◌, ◌%◌, String, Bool, true, false, not, ◌&&◌, ◌||◌, Option, none, some, List, [],
  ◌∷◌, ◌++◌, ◌==◌, number_IsKey, text_IsKey, bytes_IsKey, ltb, leb, length, map, keep, get_elem?,
  contains, if◌then◌else◌,
}
use spellbook.Prelude.Dict.{Dict, get, has, insert, erase}
use spellbook.Streamable.Bytes.{Bytes}
use spellbook.Streamable.Coins.{Coin, CoinState, coin_id}
use spellbook.Relay.Peer.{Peer, Push, peak, coin_states, connected, drop_pending, close}

pub record ManagerConfig : Type 0 where
  pub max_peers : ℕ
  pub target_peers : ℕ
  pub peak_stale_after_s : ℕ
  pub peak_retire_cooldown_s : ℕ

pub record Manager : Type 0 where
  pub peers : List (String × Peer)
  pub coins : Dict Bytes CoinState
  pub watched : List Bytes
  pub peak_height : Option ℕ
  pub last_peak_at : Option ℕ
  pub rr_index : ℕ
  pub retired : Dict String ℕ

-- `time.time() - retired_at > self.config.peak_retire_cooldown_s`
abbrev pub has_lapsed : ManagerConfig → ℕ → ℕ → Bool
has_lapsed cfg now retired_at = ltb cfg.peak_retire_cooldown_s (now - retired_at)

unfoldable pub check_retired : ManagerConfig → ℕ → String → Manager → Option ℕ → Manager × Bool
check_retired cfg now label m none = (m, false)
check_retired cfg now label m (some retired_at) =
    if has_lapsed cfg now retired_at
    then (record m { retired = erase label m.retired }, false)
    else (m, true)

-- `_is_retired`
unfoldable pub is_retired : ManagerConfig → ℕ → String → Manager → Manager × Bool
unfolding check_retired
is_retired cfg now label m = check_retired cfg now label m (get label m.retired)

-- Connected, and silent for too long since a peak; a peer that has announced none yet is let be.
unfoldable pub is_stale : ManagerConfig → ℕ → Peer → Bool
unfolding connected
is_stale cfg now p =
    connected p
    && elim p.last_peak_at [ none ↦ false | some last ↦ ltb cfg.peak_stale_after_s (now - last) ]

unfoldable pub retire_stale :
    ManagerConfig → ℕ → List (String × Peer) → Dict String ℕ → List (String × Peer) × Dict String ℕ
retire_stale cfg now [] retired = ([], retired)
retire_stale cfg now ((label, p) ∷ peers) retired =
    let stale = is_stale cfg now p in
    let rest = retire_stale cfg now peers (if stale then insert label now retired else retired) in
    ((label, if stale then close p else p) ∷ rest.0, rest.1)

-- One turn of `_watchdog_loop`.
unfoldable pub watchdog : ManagerConfig → ℕ → Manager → Manager
watchdog cfg now m =
    let (peers, retired) = retire_stale cfg now m.peers m.retired in
    record m { peers = peers; retired = keep (λ entry. not (has_lapsed cfg now entry.1)) retired }

-- `self._peak_height is None or height > self._peak_height`
abbrev pub raise_peak : ℕ → Option ℕ → Option ℕ
raise_peak height none = some height
raise_peak height (some top) = if ltb top height then some height else some top

abbrev pub raise_to : Option ℕ → Option ℕ → Option ℕ
raise_to none top = top
raise_to (some height) top = raise_peak height top

unfoldable pub ingest_peak : ℕ → ℕ → Manager → Manager
ingest_peak now height m = record m {
  peak_height = raise_peak height m.peak_height;
  last_peak_at = some now;
}

module _ (sha256 : Bytes → Bytes) where
  -- `_ingest_coin_states`; a coin that has no id ends the loop with a StreamableError.
  unfoldable pub ingest_coin_states : List CoinState → Manager → Manager
  ingest_coin_states [] m = m
  ingest_coin_states (cs ∷ states) m = elim (coin_id sha256 cs.coin) [
    | none ↦ m
    | some id ↦ ingest_coin_states states (record m {
      coins = insert id cs m.coins;
      peak_height = raise_to cs.created_height (raise_to cs.spent_height m.peak_height);
    })
  ]

  -- The callbacks that `_maintain` gives to a peer.
  unfoldable pub ingest : ℕ → Push → Manager → Manager
  unfolding ingest_coin_states ingest_peak
  ingest now (peak height) m = ingest_peak now height m
  ingest now (coin_states states) m = ingest_coin_states states m

  -- `get_coins`, after the peer's answer.
  unfoldable pub end_get_coins : List Bytes → List CoinState → Manager → Manager × List CoinState
  unfolding ingest_coin_states
  end_get_coins puzzle_hashes states m =
      let m' = ingest_coin_states states m in
      (
        record m' { watched = m'.watched ++ keep (λ h. not (contains h m'.watched)) puzzle_hashes },
        keep (λ cs. contains cs.coin.puzzle_hash puzzle_hashes) (values m'.coins),
      )
    where
      values : Dict Bytes CoinState → List CoinState
      values [] = []
      values ((id, cs) ∷ coins) = cs ∷ values coins

  -- `get_coins_by_ids`: what is asked of a peer, and what is returned in the end.
  unfoldable pub missing_ids : List Bytes → Manager → List Bytes
  missing_ids ids m = keep (λ id. not (has id m.coins)) ids

  unfoldable pub cached : List Bytes → Manager → List CoinState
  cached [] m = []
  cached (id ∷ ids) m = elim (get id m.coins) [ none ↦ cached ids m | some cs ↦ cs ∷ cached ids m ]

unfoldable pub live_peers : List (String × Peer) → List (String × Peer)
live_peers peers = keep (λ entry. connected entry.1) peers

-- `_pick_peer`; `none` is a NoPeersError.
unfoldable pub pick_peer : Manager → Option ((String × Peer) × Manager)
unfolding live_peers
pick_peer m =
    let peers = live_peers m.peers in
    elim (get_elem? peers (m.rr_index % length peers)) [
      | none ↦ none
      | some p ↦ some (p, record m { rr_index = m.rr_index + 1 })
    ]

unfoldable pub p2p_is_fresh : ManagerConfig → ℕ → Manager → Bool
unfolding live_peers
p2p_is_fresh cfg now m =
    not (length (live_peers m.peers) == 0)
    && elim m.last_peak_at [ none ↦ true | some at ↦ leb (now - at) cfg.peak_stale_after_s ]

-- The first address that is neither connected nor retired gets a maintainer, if there is room; the
-- maintainers that are not done are `running`.
unfoldable pub refill_from : ManagerConfig → ℕ → ℕ → List String → Manager → Manager × Option String
unfolding is_retired
refill_from cfg now running [] m = (m, none)
refill_from cfg now running (label ∷ labels) m =
    let known = contains label (map (λ (entry : String × Peer). entry.0) m.peers) in
    let (m', held) = is_retired cfg now label m in
    let room = ltb (length m.peers + running) (cfg.max_peers + 1) in
    let rest = refill_from cfg now running labels (if known then m else m') in
    if known || held then rest else (m', if room then some label else none)

-- One turn of `_refill_loop` over the addresses found: the label that is dialled.
unfoldable pub refill : ManagerConfig → ℕ → ℕ → List String → Manager → Manager × Option String
unfolding refill_from
refill cfg now running labels m =
    if ltb (length m.peers) cfg.target_peers
    then refill_from cfg now running labels m
    else (m, none)

-- The wait before `_maintain` dials again.
unfoldable pub next_backoff : ℕ → ℕ
next_backoff backoff = if leb 120 (backoff * 2) then 120 else backoff * 2

-- `snapshot`: is the chain view stale?
unfoldable pub peak_stale : ManagerConfig → ℕ → Manager → Bool
peak_stale cfg now m = elim m.last_peak_at [
  | none ↦ false
  | some last ↦ ltb cfg.peak_stale_after_s (now - last)
]
