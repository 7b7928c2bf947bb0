-- ===== src/Daemon/Caps/Fits.antt =====
-- The sums of the velocity window in src/spellbook/daemon.py, and what the policy's approval of each
-- entry says of them.
use spellbook.Prelude.{
  ℕ, ◌+◌, ◌≤◌, String, ◌≡◌, refl, subst, false, Option, none, some, List, [], ◌∷◌, ◌++◌,
  number_IsKey, text_IsKey, arith, Bool-cases, inl, inr, ◌⊎◌, ◌==◌, if◌then◌else◌, ◌&&◌,
}
use spellbook.Prelude.Dict.{get}
use spellbook.Policy.{Reason, Decision, evaluate, Key, key_IsKey, key_beq_iff}
use spellbook.Policy.Spec.{IsApproved, Keeps, evaluate-IsApproved}
use spellbook.Daemon.Data.{Daemon, World, VelocityRow, Why}
use spellbook.Daemon.State.{record_velocity, counts, spent_in, spent_last_24h}
use spellbook.Daemon.Legs.{Entry}
use spellbook.Daemon.Legs.Totals.{is_of, names, total_for, IsDistinct, total_for-absent}
use spellbook.Daemon.Fund.{Verdict, decide_from, record_entries, verdict_of}

module _ (w : World) (chain asset : String) where
  spent_in-append :
      (rows : List VelocityRow) (r : VelocityRow)
      → spent_in w.now chain asset (rows ++ r ∷ [])
        ≡ spent_in w.now chain asset rows + (if counts w.now chain asset r then r.amount else 0)
  unfolding spent_in
  spent_in-append [] r = omega arith
  spent_in-append (x ∷ rows) r = omega (arith, spent_in-append rows r)

  spent-record_velocity :
      (c a : String) (m : ℕ) (d : Daemon)
      → spent_last_24h w.now (record_velocity w c a m d) chain asset
        ≡ spent_last_24h w.now d chain asset + (if c == chain && a == asset then m else 0)
  unfolding spent_last_24h record_velocity
  spent-record_velocity c a m d =
      ground (
        arith,
        spent_in-append d.velocity (record { ts = w.now; chain = c; asset = a; amount = m }),
      )

  -- The entries of an execution raise a sum by what they come to.
  pub spent-record_entries :
      (es : List Entry) (d : Daemon)
      → spent_last_24h w.now (record_entries w es d) chain asset
        ≡ spent_last_24h w.now d chain asset + total_for chain asset es
  unfolding record_entries total_for
  spent-record_entries [] d = omega arith
  spent-record_entries ((c, a, m) ∷ es) d =
      omega
        (arith, spent-record_entries es (record_velocity w c a m d), spent-record_velocity c a m d)

-- Every sum of the window at `now` is within its cap, where one is set.
abbrev pub InCaps : ℕ → Daemon → Type 0
InCaps now d =
    (chain asset : String)
    → Keeps (spent_last_24h now d chain asset) (get (chain, asset) d.policy.daily_velocity_cap)

pub Decision-cases :
    (x : Decision)
    → ((r : Reason) × (x ≡ Decision.approved r))
      ⊎ (((r : Reason) × (x ≡ Decision.queued r)) ⊎ ((r : Reason) × (x ≡ Decision.denied r)))
Decision-cases (Decision.approved r) = inl (r, refl)
Decision-cases (Decision.queued r) = inr (inl (r, refl))
Decision-cases (Decision.denied r) = inr (inr (r, refl))

-- Policy approves each entry by itself.
abbrev pub AllApproved : ℕ → Daemon → List Entry → Type 0
AllApproved now d [] = Unit
AllApproved now d ((c, a, m) ∷ es) =
    IsApproved (evaluate d.policy c a m "" (spent_last_24h now d c a)) × AllApproved now d es

verdict-queued :
    (rs : List (String × Reason)) (r : String × Reason) (why : Why)
    → ¬ (verdict_of (rs ++ r ∷ []) ≡ Verdict.approve why)
verdict-queued [] r why h = cc
verdict-queued (x ∷ rs) r why h = cc

pub decide_from-approve :
    (now : ℕ) (d : Daemon) (rs : List (String × Reason)) (es : List Entry) (why : Why)
    → decide_from now d rs es ≡ Verdict.approve why
    → (verdict_of rs ≡ Verdict.approve why) × AllApproved now d es
unfolding decide_from
decide_from-approve now d rs [] why h = (h, tt)
decide_from-approve now d rs ((c, a, m) ∷ es) why h =
    elim (Decision-cases (evaluate d.policy c a m "" (spent_last_24h now d c a))) [
      | inl (r, e) ↦
          let (v, rest) = decide_from-approve now d rs es why (rw (e, decide_from) at h) in
          (v, (rw e tt, rest))
      | inr (inl (r, e)) ↦ absurd (
          verdict-queued rs (a, r) why
            (decide_from-approve now d (rs ++ (a, r) ∷ []) es why (rw (e, decide_from) at h)).0)
      | inr (inr (r, e)) ↦ cc (rw (e, decide_from) at h)
    ]

pub Keeps-le : (m n : ℕ) (o : Option ℕ) → m ≤ n → Keeps n o → Keeps m o
Keeps-le m n none h k = tt
Keeps-le m n (some l) h k = omega arith

head-fits :
    (now : ℕ) (d : Daemon) (c a : String) (m : ℕ) (es : List Entry)
    → IsApproved (evaluate d.policy c a m "" (spent_last_24h now d c a))
    → names c a es ≡ false
    → Keeps
        (spent_last_24h now d c a + (m + total_for c a es))
        (get (c, a) d.policy.daily_velocity_cap)
head-fits now d c a m es ok fresh =
    rw (total_for-absent c a es fresh)
      (Keeps-le _ _ _ (omega arith) ((evaluate-IsApproved d.policy c a m "" _).0 ok).2)

-- Entries of distinct keys that policy approves one by one fit together.
pub Fits-approved :
    (now : ℕ) (d : Daemon) (chain asset : String) (es : List Entry)
    → InCaps now d
    → AllApproved now d es
    → IsDistinct es
    → Keeps
        (spent_last_24h now d chain asset + total_for chain asset es)
        (get (chain, asset) d.policy.daily_velocity_cap)
unfolding total_for
Fits-approved now d chain asset [] caps ok dist = Keeps-le _ _ _ (omega arith) (caps chain asset)
Fits-approved now d chain asset ((c, a, m) ∷ es) caps (yes_e, ok) (fresh, dist) =
    elim (Bool-cases (is_of chain asset (c, a, m))) [
      | inr e ↦
          rw e (Keeps-le _ _ _ (omega arith) (Fits-approved now d chain asset es caps ok dist))
      | inl e ↦ rw e (
          subst
            (λ (k : Key).
              Keeps (spent_last_24h now d k.0 k.1 + (m + total_for k.0 k.1 es))
                (get k d.policy.daily_velocity_cap))
            ((key_beq_iff (c, a) (chain, asset)).0 e) (head-fits now d c a m es yes_e fresh))
    ]
