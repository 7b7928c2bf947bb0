-- ===== src/Policy/Spec.antt =====
-- What src/spellbook/policy.py promises of `evaluate`, stated by its limits.
use spellbook.Prelude.{
  ℕ, ◌+◌, ◌≤◌, ◌<◌, String, ◌≡◌, ◌↔◌, ◌⊎◌, true, false, Option, none, some, List, arith, text_IsKey,
  contains,
}
use spellbook.Prelude.Dict.{get}
use spellbook.Policy.{
  Policy, Decision, approved, denied, queued, no_policy, Key, key_IsKey, exceeds, within,
  off_allowlist, evaluate,
}

-- Where a limit is set, `n` keeps to it.
abbrev pub Keeps : ℕ → Option ℕ → Type 0
Keeps n none = Unit
Keeps n (some limit) = n ≤ limit

-- A limit is set, and `n` is above it.
abbrev pub Breaks : ℕ → Option ℕ → Type 0
Breaks n none = ⊥
Breaks n (some limit) = limit < n

-- A limit is set, and `n` is at or below it.
abbrev pub Lies : ℕ → Option ℕ → Type 0
Lies n none = ⊥
Lies n (some limit) = n ≤ limit

-- An allowlist is set, and the destination is not on it.
abbrev pub Off : String → Option (List String) → Type 0
Off d none = ⊥
Off d (some allow) = contains d allow ≡ false

abbrev pub IsApproved : Decision → Type 0
IsApproved (approved _) = Unit
IsApproved _ = ⊥

abbrev pub IsDenied : Decision → Type 0
IsDenied (denied _) = Unit
IsDenied _ = ⊥

exceeds-Keeps : (n : ℕ) (o : Option ℕ) → (exceeds n o ≡ false) ↔ Keeps n o
exceeds-Keeps n none = ground arith
exceeds-Keeps n (some l) = ground arith

within-Lies : (n : ℕ) (o : Option ℕ) → (within n o ≡ true) ↔ Lies n o
within-Lies n none = ground arith
within-Lies n (some l) = ground arith

exceeds-Breaks : (n : ℕ) (o : Option ℕ) → (exceeds n o ≡ true) ↔ Breaks n o
exceeds-Breaks n none = ground arith
exceeds-Breaks n (some l) = ground arith

Off-Off : (d : String) (o : Option (List String)) → (off_allowlist d o ≡ true) ↔ Off d o
Off-Off d none = ground arith
Off-Off d (some l) = ground arith

module _ (p : Policy) (chain asset : String) (amount : ℕ) (destination : String) (spent : ℕ) where
  abbrev key : Key
  key = (chain, asset)

  -- A spend is approved exactly when the amount lies at or below a configured auto-approve level,
  -- keeps to the per-spend cap and keeps the 24-hour sum to the velocity cap, where those are set.
  pub evaluate-IsApproved : IsApproved (evaluate p chain asset amount destination spent) ↔ (
      Lies amount (get (chain, asset) p.auto_approve_below)
      × Keeps amount (get (chain, asset) p.per_spend_cap)
      × Keeps (spent + amount) (get (chain, asset) p.daily_velocity_cap))
  unfolding evaluate
  evaluate-IsApproved = grind (
    arith,
    within-Lies amount (get key p.auto_approve_below),
    exceeds-Keeps amount (get key p.per_spend_cap),
    exceeds-Keeps (spent + amount) (get key p.daily_velocity_cap),
  )

  -- A spend is denied exactly when it is above the per-spend cap, or takes the 24-hour sum above the
  -- velocity cap, or goes to a destination off the allowlist without lying at or below the
  -- auto-approve level. Every other spend is approved or queued.
  pub evaluate-IsDenied : IsDenied (evaluate p chain asset amount destination spent) ↔ (
      Breaks amount (get (chain, asset) p.per_spend_cap)
      ⊎ (Breaks (spent + amount) (get (chain, asset) p.daily_velocity_cap)
          ⊎ (Off destination (get (chain, asset) p.destination_allowlist)
              × ¬ (Lies amount (get (chain, asset) p.auto_approve_below)))))
  unfolding evaluate
  evaluate-IsDenied = grind (
    arith,
    within-Lies amount (get key p.auto_approve_below),
    exceeds-Breaks amount (get key p.per_spend_cap),
    exceeds-Breaks (spent + amount) (get key p.daily_velocity_cap),
    Off-Off destination (get key p.destination_allowlist),
  )

  -- Where no auto-approve level is set for the chain and the asset, no spend is approved, whatever
  -- else is configured.
  pub evaluate-default_off :
      get (chain, asset) p.auto_approve_below ≡ none
      → ¬ (IsApproved (evaluate p chain asset amount destination spent))
  unfolding evaluate
  evaluate-default_off h = ground arith

  -- A chain and an asset that no limit names are queued whatever the amount, with the reason that no
  -- policy is configured: neither a cap on another spelling of the asset nor a level set for it counts.
  pub evaluate-unconfigured :
      get (chain, asset) p.per_spend_cap ≡ none
      → get (chain, asset) p.daily_velocity_cap ≡ none
      → get (chain, asset) p.destination_allowlist ≡ none
      → get (chain, asset) p.auto_approve_below ≡ none
      → get (chain, asset) p.approval_threshold ≡ none
      → evaluate p chain asset amount destination spent ≡ queued no_policy
  unfolding evaluate
  evaluate-unconfigured a b c d e = ground arith

Keeps-le : (m n : ℕ) (o : Option ℕ) → m ≤ n → Keeps n o → Keeps m o
Keeps-le m n none h k = tt
Keeps-le m n (some l) h k = omega arith

Lies-le : (m n : ℕ) (o : Option ℕ) → m ≤ n → Lies n o → Lies m o
Lies-le m n none h k = k
Lies-le m n (some l) h k = omega arith

-- Approval is monotone: a smaller amount, to any destination, with no more spent in the window, is
-- approved wherever a larger one is.
pub evaluate_mono :
    (p : Policy) (chain asset : String) (m n : ℕ) (d e : String) (s t : ℕ)
    → m ≤ n
    → s ≤ t
    → IsApproved (evaluate p chain asset n e t)
    → IsApproved (evaluate p chain asset m d s)
evaluate_mono p chain asset m n d e s t hm hs h =
    let (auto, cap, vcap) = (evaluate-IsApproved p chain asset n e t).0 h in
    (evaluate-IsApproved p chain asset m d s).1
      (Lies-le m n _ hm auto, Keeps-le m n _ hm cap, Keeps-le (s + m) (t + n) _ (omega arith) vcap)
