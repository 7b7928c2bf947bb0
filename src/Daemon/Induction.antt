-- ===== src/Daemon/Induction.antt =====
-- What every call of src/spellbook/daemon.py keeps: the handlers change the state by four steps only.
use spellbook.Prelude.{
  ℕ, Option, none, some, List, [], ◌∷◌, Bool, true, false, number_IsKey, String, if◌then◌else◌,
}
use spellbook.Prelude.Dict.{get}
use spellbook.Policy.{Decision}
use spellbook.Daemon.Data.{Params, Done, Outcome, Mark, Item, Daemon, Reply, World, Error}
use spellbook.Daemon.State.{append_ledger, record_velocity, enqueue, pop_item}
use spellbook.Daemon.Legs.{Entry, velocity_entries}
use spellbook.Daemon.Fund.{
  Verdict, record_entries, settle_entries, settle, finish, act_on, run_execution, run_fund_intent,
  approve_item, reject_item, rt_queue_approve, rt_queue_reject,
}
use spellbook.Daemon.Spend.{Checked, check_spend, act_on_decision, rt_request_spend, judge_spend}
use spellbook.Daemon.Handle.{
  Role, Request, Call, auth, guard_error, dispatch, fund_route, refuse, answer, handle_as, handle,
  request_spend, fund, queue_approve, queue_reject, other,
}

-- Calls that are no decision of the human's.
abbrev pub IsRequest : Call → Type 0
IsRequest (queue_approve qid) = ⊥
IsRequest (queue_reject qid) = ⊥
IsRequest _ = Unit

-- The steps that any route may take.
pub record Steps (w : World) (P : Daemon → Type 0) : Type 0 where
  pub on_ledger :
      (now : ℕ) (muse digest : String) (sighash : Option String) (mark : Mark) (d : Daemon)
      → P d
      → P (append_ledger now muse digest sighash mark d)
  pub on_velocity :
      (chain asset : String) (amount : ℕ) (d : Daemon)
      → P d
      → P (record_velocity w chain asset amount d)
  pub on_enqueue :
      (params : Params) (muse : String) (d : Daemon) → P d → P (enqueue w params muse d)

module _ {w : World} (P : Daemon → Type 0) (k : Steps w P) where
  keeps-record_entries : (es : List Entry) (d : Daemon) → P d → P (record_entries w es d)
  unfolding record_entries
  keeps-record_entries [] d h = h
  keeps-record_entries ((c, a, m) ∷ es) d h =
      keeps-record_entries es (record_velocity w c a m d) (k.on_velocity c a m d h)

  keeps-settle_entries :
      (params : Params) (muse : String) (s : Option String) (m : Mark) (r : Reply)
      (es : Option (List Entry)) (d : Daemon)
      → P d
      → P (settle_entries w params muse s m r es d).0
  unfolding settle_entries
  keeps-settle_entries params muse s m r none d h = h
  keeps-settle_entries params muse s m r (some es) d h =
      k.on_ledger w.now muse (w.digest params) s m (record_entries w es d)
        (keeps-record_entries es d h)

  keeps-settle :
      (params : Params) (muse : String) (s : Option String) (m : Mark) (r : Reply) (d : Daemon)
      → P d
      → P (settle w params muse s m r d).0
  unfolding settle
  keeps-settle params muse s m r d h =
      keeps-settle_entries params muse s m r (velocity_entries params) d h

  keeps-if : (b : Bool) (x y : Daemon × Reply) → P x.0 → P y.0 → P (if b then x else y).0
  keeps-if true x y hx hy = hx
  keeps-if false x y hx hy = hy

  keeps-finish :
      (params : Params) (muse : String) (m : Mark) (offer : Done → Option String) (o : Outcome)
      (d : Daemon)
      → P d
      → P (finish w params muse m offer o d).0
  unfolding finish
  keeps-finish params muse m offer (Outcome.broadcast_unknown ref) d h =
      keeps-settle params muse (some ref) Mark.submit_unknown (Reply.unknown_fate ref) d h
  keeps-finish params muse m offer Outcome.submit_failed d h =
      k.on_ledger w.now muse (w.digest params) none Mark.submit_failed d h
  keeps-finish params muse m offer Outcome.escaped d h = h
  keeps-finish params muse m offer (Outcome.done r) d h =
      keeps-if r.submitted _ _
        (keeps-settle params muse (some r.tx_hash) m (Reply.approved_tx r.tx_hash) d h)
        (keeps-settle params muse (offer r) m (Reply.approved_note (offer r)) d h)

  pub keeps-run_execution :
      (params : Params) (muse : String) (m : Mark) (offer : Done → Option String) (d : Daemon)
      → P d
      → P (run_execution w params muse m offer d).0
  unfolding run_execution
  keeps-run_execution params muse m offer d h =
      keeps-finish params muse m offer (w.execute params) _
        (k.on_ledger w.now muse (w.digest params) none Mark.executing d h)

  keeps-act_on :
      (params : Params) (muse : String) (v : Verdict) (d : Daemon)
      → P d
      → P (act_on w params muse v d).0
  unfolding act_on
  keeps-act_on params muse (Verdict.queue why) d h = k.on_enqueue params muse d h
  keeps-act_on params muse (Verdict.deny why) d h =
      k.on_ledger w.now muse (w.digest params) none (Mark.denied_for why) d h
  keeps-act_on params muse (Verdict.approve why) d h =
      keeps-run_execution params muse Mark.approved _ d h

  keeps-act_on_decision :
      (params : Params) (muse : String) (v : Decision) (d : Daemon)
      → P d
      → P (act_on_decision w params muse v d).0
  unfolding act_on_decision
  keeps-act_on_decision params muse (Decision.queued r) d h = k.on_enqueue params muse d h
  keeps-act_on_decision params muse (Decision.denied r) d h =
      k.on_ledger w.now muse (w.digest params) none _ d h
  keeps-act_on_decision params muse (Decision.approved r) d h =
      keeps-run_execution params muse Mark.approved _ d h

  keeps-judge_spend :
      (c : Checked) (muse : String) (d : Daemon) → P d → P (judge_spend w c muse d).0
  unfolding judge_spend
  keeps-judge_spend (Checked.refused e) muse d h = h
  keeps-judge_spend (Checked.spend c a m x) muse d h = keeps-act_on_decision _ muse _ d h

  keeps-fund_route :
      (params : Params) (muse : String) (force : Bool) (es : Option (List Entry)) (d : Daemon)
      → P d
      → P (fund_route w params muse force es d).0
  unfolding fund_route run_fund_intent
  keeps-fund_route params muse force none d h = h
  keeps-fund_route params muse force (some es) d h = keeps-act_on params muse _ d h

  pub keeps-dispatch :
      (c : Call) (muse : String) (d : Daemon) → IsRequest c → P d → P (dispatch w c muse d).0
  unfolding dispatch rt_request_spend
  keeps-dispatch (request_spend p) muse d r h = keeps-judge_spend (check_spend d p) muse d h
  keeps-dispatch (fund route params force) muse d r h = keeps-fund_route params muse force _ d h
  keeps-dispatch (queue_approve qid) muse d r h = absurd r
  keeps-dispatch (queue_reject qid) muse d r h = absurd r
  keeps-dispatch (other route) muse d r h = h

  keeps-refuse :
      (req : Request) (e : Error) (b : Bool) (d : Daemon) → P d → P (refuse w req (e, b) d).0
  keeps-refuse req e true d h = k.on_ledger w.now req.muse_id _ none _ d h
  keeps-refuse req e false d h = h

  pub keeps-answer_refused :
      (req : Request) (refusal : Error × Bool) (d : Daemon)
      → P d
      → P (answer w req (some refusal) d).0
  unfolding answer
  keeps-answer_refused req (e, b) d h = keeps-refuse req e b d h

  module _ (on_pop : (qid : ℕ) (d : Daemon) → P d → P (pop_item qid d)) where
    keeps-approve_item :
        (qid : ℕ) (muse : String) (o : Option Item) (d : Daemon)
        → P d
        → P (approve_item w qid muse o d).0
    unfolding approve_item
    keeps-approve_item qid muse none d h = h
    keeps-approve_item qid muse (some item) d h =
        keeps-run_execution item.params muse Mark.approved_by_human _ _ (on_pop qid d h)

    keeps-reject_item :
        (qid : ℕ) (muse : String) (o : Option Item) (d : Daemon)
        → P d
        → P (reject_item w qid muse o d).0
    unfolding reject_item
    keeps-reject_item qid muse none d h = h
    keeps-reject_item qid muse (some item) d h =
        k.on_ledger w.now muse (w.digest item.params) none _ _ (on_pop qid d h)

    keeps-call : (c : Call) (muse : String) (d : Daemon) → P d → P (dispatch w c muse d).0
    unfolding dispatch rt_queue_approve rt_queue_reject
    keeps-call (queue_approve none) muse d h = h
    keeps-call (queue_approve (some qid)) muse d h =
        keeps-approve_item qid muse (get qid d.queue) d h
    keeps-call (queue_reject none) muse d h = h
    keeps-call (queue_reject (some qid)) muse d h = keeps-reject_item qid muse (get qid d.queue) d h
    keeps-call (request_spend p) muse d h = keeps-dispatch (request_spend p) muse d tt h
    keeps-call (fund route params f) muse d h = keeps-dispatch (fund route params f) muse d tt h
    keeps-call (other route) muse d h = h

    keeps-answer :
        (req : Request) (o : Option (Error × Bool)) (d : Daemon) → P d → P (answer w req o d).0
    unfolding answer
    keeps-answer req none d h = keeps-call req.call req.muse_id d h
    keeps-answer req (some (e, b)) d h = keeps-refuse req e b d h

    keeps-handle_as :
        (pending : Bool) (req : Request) (o : Option Role) (d : Daemon)
        → P d
        → P (handle_as w pending req o d).0
    unfolding handle_as
    keeps-handle_as pending req none d h = h
    keeps-handle_as pending req (some role) d h =
        keeps-answer req (guard_error pending d role req) d h

    pub keeps-handle :
        (pending : Bool) (req : Request) (d : Daemon) → P d → P (handle w pending req d).0
    unfolding handle
    keeps-handle pending req d h = keeps-handle_as pending req (auth d req.token) d h
