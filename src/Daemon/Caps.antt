-- ===== src/Daemon/Caps.antt =====
-- The 24-hour velocity cap in src/spellbook/daemon.py: no call of the requester's takes a sum above it.
mod Fits
pub use Fits.{InCaps}
use spellbook.Prelude.{
  ℕ, ◌+◌, String, ◌≡◌, refl, sym, ap, ◌∙◌, subst, Bool, true, false, Option, none, some, List, [],
  ◌∷◌, arith, Option-cases, Bool-cases, inl, inr, ◌⊎◌, if◌then◌else◌,
}
use spellbook.Prelude.Dict.{get}
use spellbook.Policy.{Policy, Reason, Decision, evaluate, Key, key_IsKey}
use spellbook.Policy.Spec.{IsApproved, Keeps, evaluate-IsApproved}
use spellbook.Daemon.Data.{
  Daemon, World, Why, Params, Done, Mark, Outcome, Reply, within_policy, contract_action,
}
use spellbook.Daemon.State.{record_velocity, append_ledger, enqueue, spent_in, spent_last_24h}
use spellbook.Daemon.Legs.{Entry, velocity_entries}
use spellbook.Daemon.Legs.Totals.{total_for, IsDistinct, names}
use spellbook.Daemon.Legs.Distinct.{IsUnlike, AreDistinct, velocity_entries-AreDistinct}
use spellbook.Daemon.Fund.{
  Verdict, decide_fund_intent, decide_from, always_queue, record_entries, settle, settle_entries,
  finish, run_execution, run_fund_intent, act_on, final_verdict,
}
use spellbook.Daemon.Spend.{
  Checked, Fields, act_on_decision, check_spend, judge_spend, rt_request_spend,
}
use spellbook.Daemon.Handle.{
  Call, dispatch, fund_route, request_spend, fund, queue_approve, queue_reject, other,
}
use spellbook.Daemon.Induction.{IsRequest}
use Fits.{
  AllApproved, spent-record_entries, Decision-cases, decide_from-approve, Fits-approved, Keeps-le,
}

-- The entries could all be recorded within the caps.
abbrev AllFit : ℕ → Daemon → List Entry → Type 0
AllFit now d es =
    (chain asset : String)
    → Keeps (spent_last_24h now d chain asset + total_for chain asset es)
        (get (chain, asset) d.policy.daily_velocity_cap)

-- What running an intent with these entries does to the window: nothing, or it records them all.
abbrev Recorded : World → List Entry → Daemon → Daemon → Type 0
Recorded w es d e =
    (e.policy ≡ d.policy)
    × ((e.velocity ≡ d.velocity) ⊎ (e.velocity ≡ (record_entries w es d).velocity))

policy-record_entries :
    (w : World) (es : List Entry) (d : Daemon) → (record_entries w es d).policy ≡ d.policy
unfolding record_entries record_velocity
policy-record_entries w [] d = refl
policy-record_entries w ((c, a, m) ∷ es) d = policy-record_entries w es _

module _ (w : World) (params : Params) (muse : String) (es : List Entry)
    (readable : velocity_entries params ≡ some es) where
  Recorded-settle :
      (s : Option String) (m : Mark) (r : Reply) (d : Daemon)
      → Recorded w es d (settle w params muse s m r d).0
  unfolding settle settle_entries append_ledger
  Recorded-settle s m r d = rw (readable, settle_entries) (policy-record_entries w es d, inr refl)

  Recorded-if :
      (b : Bool) (d : Daemon) (x y : Daemon × Reply)
      → Recorded w es d x.0
      → Recorded w es d y.0
      → Recorded w es d (if b then x else y).0
  Recorded-if true d x y hx hy = hx
  Recorded-if false d x y hx hy = hy

  Recorded-finish :
      (m : Mark) (offer : Done → Option String) (o : Outcome) (d : Daemon)
      → Recorded w es d (finish w params muse m offer o d).0
  unfolding finish append_ledger
  Recorded-finish m offer (Outcome.broadcast_unknown ref) d = Recorded-settle _ _ _ d
  Recorded-finish m offer Outcome.submit_failed d = (refl, inl refl)
  Recorded-finish m offer Outcome.escaped d = (refl, inl refl)
  Recorded-finish m offer (Outcome.done r) d =
      Recorded-if r.submitted d _ _
        (Recorded-settle (some r.tx_hash) m (Reply.approved_tx r.tx_hash) d)
        (Recorded-settle (offer r) m (Reply.approved_note (offer r)) d)

spent-same :
    (now : ℕ) (c a : String) (d e : Daemon)
    → e.velocity ≡ d.velocity
    → spent_last_24h now e c a ≡ spent_last_24h now d c a
unfolding spent_last_24h
spent-same now c a d e h = ap (spent_in now c a) h

Keeps-moved :
    (p q : Policy) (key : Key) (m n : ℕ)
    → p ≡ q
    → m ≡ n
    → Keeps n (get key q.daily_velocity_cap)
    → Keeps m (get key p.daily_velocity_cap)
Keeps-moved p q key m n e f h =
    subst (λ (x : Policy). Keeps m (get key x.daily_velocity_cap)) (sym e) (rw f h)

InCaps-Recorded :
    (w : World) (es : List Entry) (d e : Daemon)
    → InCaps w.now d
    → AllFit w.now d es
    → Recorded w es d e
    → InCaps w.now e
InCaps-Recorded w es d e caps fits (p, inl v) c a =
    Keeps-moved e.policy d.policy (c, a) _ _ p (spent-same w.now c a d e v) (caps c a)
InCaps-Recorded w es d e caps fits (p, inr v) c a =
    Keeps-moved e.policy d.policy (c, a) _ _ p
      (spent-same w.now c a (record_entries w es d) e v ∙ spent-record_entries w c a es d)
      (fits c a)

InCaps-run_execution :
    (w : World) (params : Params) (muse : String) (es : List Entry) (m : Mark)
    (offer : Done → Option String) (d : Daemon)
    → velocity_entries params ≡ some es
    → InCaps w.now d
    → AllFit w.now d es
    → InCaps w.now (run_execution w params muse m offer d).0
unfolding run_execution append_ledger spent_last_24h
InCaps-run_execution w params muse es m offer d read caps fits =
    let e = append_ledger w.now muse (w.digest params) none Mark.executing d in
    InCaps-Recorded w es e (finish w params muse m offer (w.execute params) e).0 caps fits
      (Recorded-finish w params muse es read m offer (w.execute params) e)

-- A call of the requester's keeps the window where it was, or runs an intent whose entries fit.
InCaps-ledger :
    (now n : ℕ) (muse digest : String) (s : Option String) (m : Mark) (d : Daemon)
    → InCaps now d
    → InCaps now (append_ledger n muse digest s m d)
unfolding append_ledger spent_last_24h
InCaps-ledger now n muse digest s m d h = h

InCaps-enqueue :
    (w : World) (params : Params) (muse : String) (d : Daemon)
    → InCaps w.now d
    → InCaps w.now (enqueue w params muse d)
unfolding enqueue spent_last_24h
InCaps-enqueue w params muse d h = h

-- An approval of the verdict was an approval of the policy.
final-approve :
    (params : Params) (v : Verdict) (why : Why)
    → final_verdict params v ≡ Verdict.approve why
    → v ≡ Verdict.approve why
final-approve params (Verdict.approve x) why h = elim (Bool-cases (always_queue params)) [
  | inl e ↦ cc (rw (e, final_verdict) at h)
  | inr e ↦ rw (e, final_verdict) at h
]
final-approve params (Verdict.queue x) why h = cc
final-approve params (Verdict.deny x) why h = cc

InCaps-act_on :
    (w : World) (params : Params) (muse : String) (es : List Entry) (v : Verdict) (d : Daemon)
    → velocity_entries params ≡ some es
    → InCaps w.now d
    → ((why : Why) → v ≡ Verdict.approve why → AllFit w.now d es)
    → InCaps w.now (act_on w params muse v d).0
unfolding act_on
InCaps-act_on w params muse es (Verdict.queue why) d e h f = InCaps-enqueue w params muse d h
InCaps-act_on w params muse es (Verdict.deny why) d e h f =
    InCaps-ledger w.now w.now muse (w.digest params) none (Mark.denied_for why) d h
InCaps-act_on w params muse es (Verdict.approve why) d e h f =
    InCaps-run_execution w params muse es Mark.approved (λ r. r.offer_id) d e h (f why refl)

forced-approve :
    (now : ℕ) (d : Daemon) (es : List Entry) (force : Bool) (why : Why)
    → (if force then Verdict.queue contract_action else decide_fund_intent now d es)
      ≡ Verdict.approve why
    → AllApproved now d es
unfolding decide_fund_intent
forced-approve now d es true why h = cc
forced-approve now d es false why h = (decide_from-approve now d [] es why h).1

InCaps-fund_route :
    (w : World) (params : Params) (muse : String) (force : Bool) (o : Option (List Entry))
    (d : Daemon)
    → velocity_entries params ≡ o
    → AreDistinct o
    → InCaps w.now d
    → InCaps w.now (fund_route w params muse force o d).0
unfolding fund_route run_fund_intent
InCaps-fund_route w params muse force none d e dist h = h
InCaps-fund_route w params muse force (some es) d e dist h =
    InCaps-act_on w params muse es
      (final_verdict params
        (if force then Verdict.queue contract_action else decide_fund_intent w.now d es))
      d e h
      λ why v c a.
        Fits-approved w.now d c a es h
          (forced-approve w.now d es force why (final-approve params _ why v)) dist

InCaps-decision :
    (w : World) (chain asset : String) (amount : ℕ) (x : String) (muse : String) (v : Decision)
    (d : Daemon)
    → evaluate d.policy chain asset amount x (spent_last_24h w.now d chain asset) ≡ v
    → InCaps w.now d
    → InCaps w.now (act_on_decision w (Params.transfer chain (some asset) amount x) muse v d).0
unfolding act_on_decision velocity_entries
InCaps-decision w c a m x muse (Decision.queued r) d e h =
    InCaps-enqueue w (Params.transfer c (some a) m x) muse d h
InCaps-decision w c a m x muse (Decision.denied r) d e h =
    InCaps-ledger w.now w.now muse (w.digest (Params.transfer c (some a) m x)) none
      (Mark.denied_for (Why.policy r)) d h
InCaps-decision w c a m x muse (Decision.approved r) d e h =
    InCaps-run_execution w (Params.transfer c (some a) m x) muse ((c, a, m) ∷ []) Mark.approved
      (λ r. none) d refl h
      λ c' a'.
        Fits-approved w.now d c' a' ((c, a, m) ∷ []) h
          (
            (evaluate-IsApproved d.policy c a m "" (spent_last_24h w.now d c a)).1
                ((evaluate-IsApproved d.policy c a m x (spent_last_24h w.now d c a)).0 (rw e tt)),
            tt,
          )
          (unfold names in (refl, tt))

InCaps-judge_spend :
    (w : World) (c : Checked) (muse : String) (d : Daemon)
    → InCaps w.now d
    → InCaps w.now (judge_spend w c muse d).0
unfolding judge_spend
InCaps-judge_spend w (Checked.refused e) muse d h = h
InCaps-judge_spend w (Checked.spend c a m x) muse d h =
    InCaps-decision w c a m x muse (evaluate d.policy c a m x (spent_last_24h w.now d c a)) d refl h

-- Calls of the requester's, with two unlike tokens where they are a dex_lp_add.
abbrev pub IsJudged : Call → Type 0
IsJudged (fund route params force) = IsUnlike params
IsJudged (request_spend p) = Unit
IsJudged (other route) = Unit
IsJudged _ = ⊥

-- No call of the requester's takes a 24-hour sum above its velocity cap, unless it is a dex_lp_add
-- whose two tokens have the same key: where every sum of the window at the time of the call is within
-- the cap set for its chain and asset, every sum is afterwards too, however the execution ends.
pub dispatch-InCaps :
    (w : World) (c : Call) (muse : String) (d : Daemon)
    → IsJudged c
    → InCaps w.now d
    → InCaps w.now (dispatch w c muse d).0
unfolding dispatch rt_request_spend
dispatch-InCaps w (request_spend p) muse d j h = InCaps-judge_spend w (check_spend d p) muse d h
dispatch-InCaps w (fund route params force) muse d j h =
    InCaps-fund_route w params muse force (velocity_entries params) d refl
      (velocity_entries-AreDistinct params j) h
dispatch-InCaps w (queue_approve qid) muse d j h = absurd j
dispatch-InCaps w (queue_reject qid) muse d j h = absurd j
dispatch-InCaps w (other route) muse d j h = h
