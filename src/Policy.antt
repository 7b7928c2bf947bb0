-- ===== src/Policy.antt =====
-- src/spellbook/policy.py: the caps, thresholds and allowlists, and the decision on one spend.
-- A policy dict maps (chain, asset) to a number of base units. Amounts and limits are natural
-- numbers; the reason strings are a data type with the numbers that they print.
pub mod Spec
use spellbook.Prelude.{
  ℕ, ◌+◌, String, ◌≡◌, ◌↔◌, Bool, true, false, not, ◌&&◌, ◌||◌, Option, none, some, List, IsKey,
  ◌==◌, arith, eq_iff, text_IsKey, ltb, leb, contains, if◌then◌else◌,
}
use spellbook.Prelude.Dict.{Dict, get}

abbrev pub Key : Type 0
Key = String × String

abbrev pub key_beq : Key → Key → Bool
key_beq (c, a) (d, b) = c == d && a == b

pub key_beq_iff : (j k : Key) → (key_beq j k ≡ true) ↔ (j ≡ k)
key_beq_iff (c, a) (d, b) = ground (arith, eq_iff c d, eq_iff a b)

instance abbrev pub key_IsKey : IsKey Key
key_IsKey = record { same = key_beq; same_iff = key_beq_iff }

pub record Policy : Type 0 where
  pub per_spend_cap : Dict Key ℕ
  pub approval_threshold : Dict Key ℕ
  pub auto_approve_below : Dict Key ℕ
  pub daily_velocity_cap : Dict Key ℕ
  pub destination_allowlist : Dict Key (List String)

pub data Reason : Type 0 where
  exceeds_cap : ℕ → ℕ → Reason
  velocity_breached : Reason
  not_on_allowlist : Reason
  at_or_below_auto : ℕ → ℕ → Reason
  exceeds_threshold : ℕ → ℕ → Reason
  no_policy : Reason

pub data Decision : Type 0 where
  approved queued denied : Reason → Decision

-- `limit is not None and limit < n`
abbrev pub exceeds : ℕ → Option ℕ → Bool
exceeds n none = false
exceeds n (some limit) = ltb limit n

-- `limit is not None and n <= limit`
abbrev pub within : ℕ → Option ℕ → Bool
within n none = false
within n (some limit) = leb n limit

-- `allow is not None and destination not in allow`
abbrev pub off_allowlist : String → Option (List String) → Bool
off_allowlist destination none = false
off_allowlist destination (some allow) = not (contains destination allow)

-- The limit that a test has found to be set.
abbrev limit_of : Option ℕ → ℕ
limit_of none = 0
limit_of (some limit) = limit

unfoldable pub evaluate : Policy → String → String → ℕ → String → ℕ → Decision
evaluate policy chain asset amount destination spent_last_24h =
    let key : Key = (chain, asset) in
    let cap = get key policy.per_spend_cap in
    let vcap = get key policy.daily_velocity_cap in
    let allow = get key policy.destination_allowlist in
    let auto = get key policy.auto_approve_below in
    let threshold = get key policy.approval_threshold in
    if exceeds amount cap
    then denied (exceeds_cap amount (limit_of cap))
    else if exceeds (spent_last_24h + amount) vcap
    then denied velocity_breached
    else if off_allowlist destination allow && not (within amount auto)
    then denied not_on_allowlist
    else if within amount auto
    then approved (at_or_below_auto amount (limit_of auto))
    else if exceeds amount threshold
    then queued (exceeds_threshold amount (limit_of threshold))
    else queued no_policy
