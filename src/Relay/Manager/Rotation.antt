-- ===== src/Relay/Manager/Rotation.antt =====
-- Requests go round the connected peers.
use native.Mathlib.Nat.{
  mod-add-div', add-mul-mod_self_right, mod-eq_of_lt, mod-lt, add-mod_right, add-zero,
}
use spellbook.Prelude.{
  ℕ, zero, suc, ◌+◌, ◌-◌, ◌*◌, ◌/◌, ◌%◌, ◌<◌, String, ◌≡◌, refl, ap, ◌∙◌, Option, none, some, List,
  [], ◌∷◌, length, get_elem?, arith, Bool-cases, inl, inr, leb,
}
use spellbook.Relay.Peer.{Peer}
use spellbook.Relay.Manager.{Manager, live_peers, pick_peer}

-- The choice of the last of `k + 1` picks in a row, and the pool after it.
unfoldable pub nth_pick : ℕ → Manager → Option ((String × Peer) × Manager)
nth_pick zero m = pick_peer m
nth_pick (suc k) m = elim (pick_peer m) [ none ↦ none | some (p, m') ↦ nth_pick k m' ]

-- Some pick within a round falls on position `i`.
turn_of : (r i n : ℕ) → i < n → (k : ℕ) × (k < n) × ((r + k) % n ≡ i)
turn_of r i n h =
    let split = mod-add-div' r n in
    let low : r % n < n = mod-lt r (omega arith) in
    let home = add-mul-mod_self_right i (r / n) n ∙ mod-eq_of_lt h in
    elim (Bool-cases (leb (r % n) i)) [
      | inl ahead ↦
          let at : r + (i - r % n) ≡ i + r / n * n = ground arith in
          (i - r % n, ground arith, ap (λ t. t % n) at ∙ home)
      | inr behind ↦
          let at : r + (i + n - r % n) ≡ (i + r / n * n) + n = ground arith in
          (i + n - r % n, ground arith, ap (λ t. t % n) at ∙ add-mod_right (i + r / n * n) n ∙ home)
    ]

get_elem?-lt-length :
    {A : Type 0} (xs : List A) (i : ℕ) (x : A) → get_elem? xs i ≡ some x → i < length xs
get_elem?-lt-length [] i x h = cc
get_elem?-lt-length (y ∷ xs) zero x h = omega arith
get_elem?-lt-length (y ∷ xs) (suc i) x h = omega (arith, get_elem?-lt-length xs i x h)

get_elem?-total :
    {A : Type 0} (xs : List A) (i : ℕ) → i < length xs → (x : A) × (get_elem? xs i ≡ some x)
get_elem?-total [] i h = absurd (omega arith)
get_elem?-total (x ∷ xs) zero h = (x, refl)
get_elem?-total (x ∷ xs) (suc i) h = get_elem?-total xs i (omega arith)

pick_peer-some :
    (m : Manager) (p : String × Peer)
    → get_elem? (live_peers m.peers) (m.rr_index % length (live_peers m.peers)) ≡ some p
    → pick_peer m ≡ some (p, record m { rr_index = m.rr_index + 1 })
unfolding pick_peer
pick_peer-some m p h =
    ap (λ o. elim o [ none ↦ none | some p ↦ some (p, record m { rr_index = m.rr_index + 1 }) ]) h

nth_pick-some :
    (k : ℕ) (m : Manager) (p : String × Peer)
    → get_elem? (live_peers m.peers) ((m.rr_index + k) % length (live_peers m.peers)) ≡ some p
    → (m' : Manager) × (nth_pick k m ≡ some (p, m'))
unfolding nth_pick
nth_pick-some zero m p h = (_, pick_peer-some m p (rw (add-zero m.rr_index) at h))
nth_pick-some (suc k) m p h =
    let n : ℕ = length (live_peers m.peers) in
    let some_live : (m.rr_index + suc k) % n < n = get_elem?-lt-length (live_peers m.peers) _ p h in
    let low : m.rr_index % n < n = mod-lt m.rr_index (omega arith) in
    let (q, first) = get_elem?-total (live_peers m.peers) (m.rr_index % n) low in
    let (m', rest) =
      nth_pick-some k (record m { rr_index = m.rr_index + 1 }) p
        (ap (λ s. get_elem? (live_peers m.peers) (s % n)) (omega arith) ∙ h) in
    (
      m',
      ap (λ o. elim o [ none ↦ none | some (p, m') ↦ nth_pick k m' ]) (pick_peer-some m q first)
          ∙ rest,
    )

-- While the pool stays as it is, each connected peer is picked within one round.
pub pick_peer_rotates :
    (m : Manager) (i : ℕ) (p : String × Peer)
    → get_elem? (live_peers m.peers) i ≡ some p
    → (k : ℕ) × (k < length (live_peers m.peers)) × (m' : Manager) × (nth_pick k m ≡ some (p, m'))
pick_peer_rotates m i p h =
    let n : ℕ = length (live_peers m.peers) in
    let (k, within, at) = turn_of m.rr_index i n (get_elem?-lt-length (live_peers m.peers) i p h) in
    let (m', picked) = nth_pick-some k m p (ap (get_elem? (live_peers m.peers)) at ∙ h) in
    (k, within, m', picked)
