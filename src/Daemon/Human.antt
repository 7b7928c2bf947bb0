-- ===== src/Daemon/Human.antt =====
-- The intents of src/spellbook/daemon.py that a human sees whatever the policy says.
use spellbook.Prelude.{String, ◌≡◌, refl, Bool, true, List, ◌⊎◌, inl, inr, if◌then◌else◌}
use spellbook.Daemon.Data.{Params, Why, Daemon, Reply, World, contract_action, always_queued}
use spellbook.Daemon.Legs.{Entry}
use spellbook.Daemon.Fund.{
  Verdict, decide_fund_intent, always_queue, final_verdict, act_on, run_fund_intent, queue_it,
  deny_it,
}

-- The intent waits in the queue, or is denied: nothing has run.
abbrev pub IsHeld : World → Params → String → Daemon → Daemon × Reply → Type 0
IsHeld w params muse d x =
    ((why : Why) × (x ≡ queue_it w params muse why d))
    ⊎ ((why : Why) × (x ≡ deny_it w params muse why d))

act_on-IsHeld :
    (w : World) (params : Params) (muse : String) (v : Verdict) (d : Daemon)
    → always_queue params ≡ true
    → IsHeld w params muse d (act_on w params muse (final_verdict params v) d)
unfolding act_on
act_on-IsHeld w params muse (Verdict.approve why) d h = rw (h, act_on) (inl (always_queued, refl))
act_on-IsHeld w params muse (Verdict.queue why) d h = inl (why, refl)
act_on-IsHeld w params muse (Verdict.deny why) d h = inr (why, refl)

-- An option exercise, an option, DID or NFT move and a Forge swap are never executed on the policy's
-- word: under every policy the intent is queued or denied, and nothing else happens.
pub always_queue-IsHeld :
    (w : World) (params : Params) (muse : String) (es : List Entry) (force : Bool) (d : Daemon)
    → always_queue params ≡ true
    → IsHeld w params muse d (run_fund_intent w params muse es force d)
unfolding run_fund_intent
always_queue-IsHeld w params muse es force d h =
    act_on-IsHeld w params muse
      (if force then Verdict.queue contract_action else decide_fund_intent w.now d es) d h

-- A route that forces the queue never executes, and asks no policy: the intent is queued.
pub force_queue-queues :
    (w : World) (params : Params) (muse : String) (es : List Entry) (d : Daemon)
    → run_fund_intent w params muse es true d ≡ queue_it w params muse contract_action d
unfolding run_fund_intent act_on
force_queue-queues w params muse es d = refl
