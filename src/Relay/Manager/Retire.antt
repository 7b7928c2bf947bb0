-- ===== src/Relay/Manager/Retire.antt =====
-- A peer that goes silent is retired, and stays so until its cooldown has lapsed.
use mathlib.Core.Option.{some-injective}
use spellbook.Prelude.{
  ◌⊎◌, ℕ, ◌+◌, ◌≤◌, String, ◌≡◌, refl, ap, ◌∙◌, sym, true, false, Bool-cases, inl, inr, Option,
  none, some, List, [], ◌∷◌, ◌==◌, text_IsKey, eq_iff, All, arith, if◌then◌else◌,
}
use spellbook.Prelude.Dict.{Dict, get, insert, get-insert, get-keep, get-erase_other}
use spellbook.Relay.Peer.{Peer, connected, close}
use spellbook.Relay.Manager.{
  ManagerConfig, Manager, has_lapsed, check_retired, is_retired, is_stale, retire_stale, watchdog,
}

-- The label is retired, since `from` or later.
abbrev HeldIn : String → ℕ → Dict String ℕ → Type 0
HeldIn label from retired = (at : ℕ) × (get label retired ≡ some at) × (from ≤ at)

insert-HeldIn :
    (l k : String) (from now : ℕ) (d : Dict String ℕ)
    → from ≤ now
    → HeldIn l from d
    → HeldIn l from (insert k now d)
insert-HeldIn l k from now d le (at, held, after) = elim (Bool-cases (l == k)) [
  | inl same ↦ (now, get-insert l k now d ∙ rw same, le)
  | inr other ↦ (at, get-insert l k now d ∙ rw other held, after)
]

stale-HeldIn :
    (cfg : ManagerConfig) (l : String) (from now : ℕ) (peers : List (String × Peer))
    (d : Dict String ℕ)
    → from ≤ now
    → HeldIn l from d
    → HeldIn l from (retire_stale cfg now peers d).1
unfolding retire_stale
stale-HeldIn cfg l from now [] d le h = h
stale-HeldIn cfg l from now ((k, p) ∷ peers) d le h = elim (Bool-cases (is_stale cfg now p)) [
  | inl stale ↦
      rw stale
        (stale-HeldIn cfg l from now peers (insert k now d) le (insert-HeldIn l k from now d le h))
  | inr fresh ↦ rw fresh (stale-HeldIn cfg l from now peers d le h)
]

-- The watchdog's next turns and the other checks, each at its time.
pub data Event : Type 0 where
  turns : ℕ → Event
  checks : ℕ → String → Event

abbrev pub time_of : Event → ℕ
time_of (turns now) = now
time_of (checks now label) = now

unfoldable pub step : ManagerConfig → Event → Manager → Manager
unfolding watchdog is_retired
step cfg (turns now) m = watchdog cfg now m
step cfg (checks now label) m = (is_retired cfg now label m).0

unfoldable pub run : ManagerConfig → List Event → Manager → Manager
unfolding step
run cfg [] m = m
run cfg (e ∷ events) m = run cfg events (step cfg e m)

-- Between the retirement and the end of the cooldown.
abbrev pub IsWithin : ManagerConfig → ℕ → ℕ → Type 0
IsWithin cfg from now = (from ≤ now) × (now ≤ from + cfg.peak_retire_cooldown_s)

watchdog-HeldIn :
    (cfg : ManagerConfig) (l : String) (from now : ℕ) (m : Manager)
    → IsWithin cfg from now
    → HeldIn l from m.retired
    → HeldIn l from (watchdog cfg now m).retired
unfolding watchdog
watchdog-HeldIn cfg l from now m (le, soon) h =
    let (at, held, after) = stale-HeldIn cfg l from now m.peers m.retired le h in
    (at, get-keep _ l at (retire_stale cfg now m.peers m.retired).1 held (ground arith), after)

check-HeldIn :
    (cfg : ManagerConfig) (l k : String) (from now : ℕ) (m : Manager) (found : Option ℕ)
    → get k m.retired ≡ found
    → IsWithin cfg from now
    → HeldIn l from m.retired
    → HeldIn l from (check_retired cfg now k m found).0.retired
unfolding check_retired
check-HeldIn cfg l k from now m none e w h = h
check-HeldIn cfg l k from now m (some t) e (le, soon) (at, held, after) =
    elim (Bool-cases (has_lapsed cfg now t)) [
      | inr holds ↦ rw holds (at, held, after)
      | inl lapsed ↦ rw lapsed (elim (Bool-cases (l == k)) [
        | inl same ↦
            let name : l ≡ k = (eq_iff l k).0 same in
            let both : some t ≡ some at = sym e ∙ ap (λ k. get k m.retired) (sym name) ∙ held in
            absurd (ground (arith, some-injective t at both))
        | inr other ↦ (at, get-erase_other l k m.retired other ∙ held, after)
      ])
    ]

run-HeldIn :
    (cfg : ManagerConfig) (l : String) (from : ℕ) (events : List Event) (m : Manager)
    → All (λ e. IsWithin cfg from (time_of e)) events
    → HeldIn l from m.retired
    → HeldIn l from (run cfg events m).retired
unfolding run step
run-HeldIn cfg l from [] m w h = h
run-HeldIn cfg l from (turns now ∷ events) m w h =
    run-HeldIn cfg l from events (watchdog cfg now m) w.1 (watchdog-HeldIn cfg l from now m w.0 h)
run-HeldIn cfg l from (checks now k ∷ events) m w h =
    run-HeldIn cfg l from events (is_retired cfg now k m).0 w.1
      (unfold is_retired in check-HeldIn cfg l k from now m (get k m.retired) refl w.0 h)

HeldIn-is_retired :
    (cfg : ManagerConfig) (l : String) (from now : ℕ) (m : Manager)
    → IsWithin cfg from now
    → HeldIn l from m.retired
    → (is_retired cfg now l m).1 ≡ true
unfolding is_retired
HeldIn-is_retired cfg l from now m (le, soon) (at, held, after) =
    rw held (unfold check_retired in ground arith)

-- The pool has a peer of that label which is stale.
abbrev pub HasStale : ManagerConfig → ℕ → String → List (String × Peer) → Type 0
HasStale cfg now l [] = ⊥
HasStale cfg now l ((k, p) ∷ peers) =
    ((k ≡ l) × (is_stale cfg now p ≡ true)) ⊎ HasStale cfg now l peers

turn-HeldIn :
    (cfg : ManagerConfig) (l : String) (now : ℕ) (peers : List (String × Peer)) (d : Dict String ℕ)
    → HasStale cfg now l peers
    → HeldIn l now (retire_stale cfg now peers d).1
unfolding retire_stale
turn-HeldIn cfg l now [] d h = absurd h
turn-HeldIn cfg l now ((k, p) ∷ peers) d (inl (name, stale)) = rw stale (
    stale-HeldIn cfg l now now peers (insert k now d) (omega arith)
      (now, get-insert l k now d ∙ rw ((eq_iff l k).1 (sym name)) refl, omega arith))
turn-HeldIn cfg l now ((k, p) ∷ peers) d (inr later) =
    turn-HeldIn cfg l now peers (if is_stale cfg now p then insert k now d else d) later

watched :
    (cfg : ManagerConfig) (l : String) (now : ℕ) (m : Manager)
    → HasStale cfg now l m.peers
    → HeldIn l now (watchdog cfg now m).retired
unfolding watchdog
watched cfg l now m stale =
    let (at, held, after) = turn-HeldIn cfg l now m.peers m.retired stale in
    (at, get-keep _ l at (retire_stale cfg now m.peers m.retired).1 held (ground arith), after)

-- No peer of the pool is stale and connected.
abbrev pub AllFresh : ManagerConfig → ℕ → List (String × Peer) → Type 0
AllFresh cfg now peers = All (λ (entry : String × Peer). is_stale cfg now entry.1 ≡ false) peers

close-fresh : (cfg : ManagerConfig) (now : ℕ) (p : Peer) → is_stale cfg now (close p) ≡ false
unfolding is_stale close connected
close-fresh cfg now p = ground arith

stale-AllFresh :
    (cfg : ManagerConfig) (now : ℕ) (peers : List (String × Peer)) (d : Dict String ℕ)
    → AllFresh cfg now (retire_stale cfg now peers d).0
unfolding retire_stale
stale-AllFresh cfg now [] d = tt
stale-AllFresh cfg now ((k, p) ∷ peers) d = elim (Bool-cases (is_stale cfg now p)) [
  | inl stale ↦ rw stale (close-fresh cfg now p, stale-AllFresh cfg now peers (insert k now d))
  | inr fresh ↦ rw fresh (fresh, stale-AllFresh cfg now peers d)
]

-- A turn of the watchdog closes every stale peer, and the label of one that it met stays retired,
-- whatever turns and checks follow, up to the end of the cooldown.
pub watchdog-is_retired :
    (cfg : ManagerConfig) (l : String) (now later : ℕ) (events : List Event) (m : Manager)
    → HasStale cfg now l m.peers
    → All (λ e. IsWithin cfg now (time_of e)) events
    → IsWithin cfg now later
    → AllFresh cfg now (watchdog cfg now m).peers
      × ((is_retired cfg later l (run cfg events (watchdog cfg now m))).1 ≡ true)
watchdog-is_retired cfg l now later events m stale in_time soon = (
  unfold watchdog in stale-AllFresh cfg now m.peers m.retired,
  HeldIn-is_retired cfg l now later (run cfg events (watchdog cfg now m)) soon
      (run-HeldIn cfg l now events (watchdog cfg now m) in_time (watched cfg l now m stale)),
)
