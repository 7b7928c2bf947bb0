-- ===== src/Daemon/Fund.antt =====
-- How src/spellbook/daemon.py decides on a fund-moving intent and runs it: `_decide_fund_intent`, the
-- execution with its ledger lines, `_run_fund_intent`, and the human's `rt_queue_approve` and
-- `rt_queue_reject`.
use spellbook.Prelude.{
  ℕ, String, Bool, true, false, Option, none, some, List, [], ◌∷◌, ◌++◌, number_IsKey,
  if◌then◌else◌,
}
use spellbook.Prelude.Dict.{get}
use spellbook.Policy.{Reason, Decision, evaluate}
use spellbook.Daemon.Data.{
  Params, Done, Outcome, Why, Mark, Item, Daemon, Reply, World, let_through, unknown_queue_id,
  policy, legs, within_policy, contract_action, always_queued, executing, rejected_by_human,
  approved_by_human, denied_for, submit_unknown,
}
use spellbook.Daemon.State.{spent_last_24h, record_velocity, append_ledger, enqueue, pop_item}
use spellbook.Daemon.Legs.{Entry, velocity_entries}

pub data Verdict : Type 0 where
  approve queue deny : Why → Verdict

-- At the end of the legs: the reasons of those that queue, in order.
abbrev pub verdict_of : List (String × Reason) → Verdict
verdict_of [] = approve within_policy
verdict_of (r ∷ reasons) = queue (legs (r ∷ reasons))

unfoldable pub decide_from : ℕ → Daemon → List (String × Reason) → List Entry → Verdict
unfolding evaluate spent_last_24h
decide_from now d reasons [] = verdict_of reasons
decide_from now d reasons ((chain, asset, amount) ∷ entries) =
    elim (evaluate d.policy chain asset amount "" (spent_last_24h now d chain asset)) [
      | Decision.denied r ↦ deny (policy r)
      | Decision.queued r ↦ decide_from now d (reasons ++ (asset, r) ∷ []) entries
      | Decision.approved r ↦ decide_from now d reasons entries
    ]

unfoldable pub decide_fund_intent : ℕ → Daemon → List Entry → Verdict
unfolding decide_from
decide_fund_intent now d entries = decide_from now d [] entries

unfoldable pub record_entries : World → List Entry → Daemon → Daemon
unfolding record_velocity
record_entries w [] d = d
record_entries w ((chain, asset, amount) ∷ entries) d =
    record_entries w entries (record_velocity w chain asset amount d)

-- ALWAYS_QUEUE_INTENTS
unfoldable pub always_queue : Params → Bool
always_queue (Params.option_exercise _ _ _ _) = true
always_queue (Params.option_transfer _ _ _) = true
always_queue (Params.did_transfer _ _ _) = true
always_queue (Params.nft_assign_did _ _ _) = true
always_queue (Params.forge_swap _ _ _) = true
always_queue _ = false

-- The entries of an execution that may have moved funds count, and then the ledger has its outcome.
-- Where the entries cannot be read, the error is let through before either.
unfoldable pub settle_entries :
    World
    → Params
    → String
    → Option String
    → Mark
    → Reply
    → Option (List Entry)
    → Daemon
    → Daemon × Reply
unfolding record_entries append_ledger
settle_entries w params muse sighash mark reply none d = (d, Reply.error let_through)
settle_entries w params muse sighash mark reply (some entries) d =
    (append_ledger w.now muse (w.digest params) sighash mark (record_entries w entries d), reply)

unfoldable pub settle :
    World → Params → String → Option String → Mark → Reply → Daemon → Daemon × Reply
unfolding velocity_entries settle_entries
settle w params muse sighash mark reply d =
    settle_entries w params muse sighash mark reply (velocity_entries params) d

-- What follows the execution. `mark` is the word for success, and `offer` what the ledger keeps of a
-- result that submitted nothing.
unfoldable pub finish :
    World → Params → String → Mark → (Done → Option String) → Outcome → Daemon → Daemon × Reply
unfolding settle append_ledger
finish w params muse mark offer (Outcome.broadcast_unknown ref) d =
    settle w params muse (some ref) submit_unknown (Reply.unknown_fate ref) d
finish w params muse mark offer Outcome.submit_failed d =
    (append_ledger w.now muse (w.digest params) none Mark.submit_failed d, Reply.failed)
finish w params muse mark offer Outcome.escaped d = (d, Reply.error let_through)
finish w params muse mark offer (Outcome.done r) d =
    if r.submitted
    then settle w params muse (some r.tx_hash) mark (Reply.approved_tx r.tx_hash) d
    else settle w params muse (offer r) mark (Reply.approved_note (offer r)) d

-- From the "executing" line on.
unfoldable pub run_execution :
    World → Params → String → Mark → (Done → Option String) → Daemon → Daemon × Reply
unfolding finish append_ledger
run_execution w params muse mark offer d =
    finish w params muse mark offer (w.execute params)
      (append_ledger w.now muse (w.digest params) none executing d)

abbrev offer_of : Done → Option String
offer_of r = r.offer_id

abbrev pub queue_it : World → Params → String → Why → Daemon → Daemon × Reply
queue_it w params muse why d = (enqueue w params muse d, Reply.queued d.next_qid why)

abbrev pub deny_it : World → Params → String → Why → Daemon → Daemon × Reply
deny_it w params muse why d =
    (append_ledger w.now muse (w.digest params) none (denied_for why) d, Reply.denied why)

-- ALWAYS_QUEUE_INTENTS turns an approval into a queued verdict.
abbrev pub final_verdict : Params → Verdict → Verdict
final_verdict params (approve why) =
    if always_queue params then queue always_queued else approve why
final_verdict params (queue why) = queue why
final_verdict params (deny why) = deny why

unfoldable pub act_on : World → Params → String → Verdict → Daemon → Daemon × Reply
unfolding enqueue append_ledger run_execution
act_on w params muse (queue why) d = queue_it w params muse why d
act_on w params muse (deny why) d = deny_it w params muse why d
act_on w params muse (approve why) d = run_execution w params muse Mark.approved offer_of d

unfoldable pub run_fund_intent :
    World → Params → String → List Entry → (force_queue : Bool) → Daemon → Daemon × Reply
unfolding act_on decide_fund_intent always_queue
run_fund_intent w params muse entries force_queue d =
    let verdict : Verdict =
      if force_queue then queue contract_action else decide_fund_intent w.now d entries in
    act_on w params muse (final_verdict params verdict) d

-- The item that the id names, taken from the queue and run.
unfoldable pub approve_item : World → ℕ → String → Option Item → Daemon → Daemon × Reply
unfolding pop_item run_execution
approve_item w qid muse none d = (d, Reply.error unknown_queue_id)
approve_item w qid muse (some item) d =
    run_execution w item.params muse approved_by_human offer_of (pop_item qid d)

unfoldable pub rt_queue_approve : World → Option ℕ → String → Daemon → Daemon × Reply
unfolding approve_item
rt_queue_approve w none muse d = (d, Reply.error unknown_queue_id)
rt_queue_approve w (some qid) muse d = approve_item w qid muse (get qid d.queue) d

unfoldable pub reject_item : World → ℕ → String → Option Item → Daemon → Daemon × Reply
unfolding pop_item append_ledger
reject_item w qid muse none d = (d, Reply.error unknown_queue_id)
reject_item w qid muse (some item) d = (
  append_ledger w.now muse (w.digest item.params) none rejected_by_human (pop_item qid d),
  Reply.done_id qid,
)

unfoldable pub rt_queue_reject : World → Option ℕ → String → Daemon → Daemon × Reply
unfolding reject_item
rt_queue_reject w none muse d = (d, Reply.error unknown_queue_id)
rt_queue_reject w (some qid) muse d = reject_item w qid muse (get qid d.queue) d
