-- ===== src/Daemon/Once.antt =====
-- A queued intent of src/spellbook/daemon.py is decided on once.
use spellbook.Prelude.{
  ℕ, ◌<◌, String, ◌≡◌, refl, Bool, none, some, List, [], ◌∷◌, number_IsKey, arith,
}
use spellbook.Prelude.Dict.{Dict, get, insert, erase}
use spellbook.Daemon.Data.{Mark, Item, Daemon, World, Reply, unknown_queue_id}
use spellbook.Daemon.State.{append_ledger, record_velocity, enqueue, pop_item}
use spellbook.Daemon.Fund.{approve_item, reject_item, rt_queue_approve, rt_queue_reject}
use spellbook.Daemon.Handle.{Request, handle}
use spellbook.Daemon.Induction.{Steps, keeps-run_execution, keeps-handle}
use spellbook.Daemon.Sound.{IsSound, HasIds}

-- The id has been given out, and no item has it.
abbrev pub IsSpent : ℕ → Daemon → Type 0
IsSpent qid d = (get qid d.queue ≡ none) × (qid < d.next_qid)

get-insert_ne_none :
    (j n : ℕ) (v : Item) (q : Dict ℕ Item) → j < n → get j q ≡ none → get j (insert n v q) ≡ none
get-insert_ne_none j n v [] h e = ground arith
get-insert_ne_none j n v (p ∷ q) h e = ground (arith, get-insert_ne_none j n v q h)

get-erase-none : (j k : ℕ) (q : Dict ℕ Item) → get j q ≡ none → get j (erase k q) ≡ none
get-erase-none j k [] h = refl
get-erase-none j k (p ∷ q) h = ground (arith, get-erase-none j k q)

get-erase_self : (n k : ℕ) (q : Dict ℕ Item) → HasIds n q → get k (erase k q) ≡ none
get-erase_self n k [] h = refl
get-erase_self n k ((j, v) ∷ q) h = ground (arith, get-erase_self n k q h.2)

id-lt : (n k : ℕ) (v : Item) (q : Dict ℕ Item) → HasIds n q → get k q ≡ some v → k < n
id-lt n k v [] h e = cc
id-lt n k v ((j, x) ∷ q) h e = ground (arith, id-lt n k v q h.2)

IsSpent-steps : (w : World) (qid : ℕ) → Steps w (IsSpent qid)
unfolding append_ledger record_velocity enqueue
IsSpent-steps w qid = record {
  on_ledger = λ now muse digest s m d h. h;
  on_velocity = λ c a m d h. h;
  on_enqueue =
      λ params muse d h. (get-insert_ne_none qid d.next_qid _ d.queue h.1 h.0, omega arith);
}

pop-IsSpent :
    (qid : ℕ) (v : Item) (d : Daemon)
    → IsSound d
    → get qid d.queue ≡ some v
    → IsSpent qid (pop_item qid d)
unfolding pop_item
pop-IsSpent qid v d s e =
    (get-erase_self d.next_qid qid d.queue s.ids, id-lt d.next_qid qid v d.queue s.ids e)

pub approve-IsSpent :
    (w : World) (qid : ℕ) (muse : String) (v : Item) (d : Daemon)
    → IsSound d
    → get qid d.queue ≡ some v
    → IsSpent qid (rt_queue_approve w (some qid) muse d).0
unfolding rt_queue_approve approve_item
approve-IsSpent w qid muse v d s e =
    rw (e, approve_item)
      (keeps-run_execution (IsSpent qid) (IsSpent-steps w qid) v.params muse _ _ (pop_item qid d)
        (pop-IsSpent qid v d s e))

pub reject-IsSpent :
    (w : World) (qid : ℕ) (muse : String) (v : Item) (d : Daemon)
    → IsSound d
    → get qid d.queue ≡ some v
    → IsSpent qid (rt_queue_reject w (some qid) muse d).0
unfolding rt_queue_reject reject_item
reject-IsSpent w qid muse v d s e =
    rw (e, reject_item)
      ((IsSpent-steps w qid).on_ledger w.now muse (w.digest v.params) none Mark.rejected_by_human
        (pop_item qid d) (pop-IsSpent qid v d s e))

-- One connection after another, each with what the world holds at its time.
abbrev pub Turn : Type 0
Turn = World × Bool × Request

unfoldable pub serve : List Turn → Daemon → Daemon
unfolding handle
serve [] d = d
serve ((w, pending, req) ∷ turns) d = serve turns (handle w pending req d).0

serve-IsSpent :
    (qid : ℕ) (turns : List Turn) (d : Daemon) → IsSpent qid d → IsSpent qid (serve turns d)
unfolding serve
serve-IsSpent qid [] d h = h
serve-IsSpent qid ((w, pending, req) ∷ turns) d h =
    serve-IsSpent qid turns (handle w pending req d).0 (
      keeps-handle (IsSpent qid) (IsSpent-steps w qid)
        (λ k e he. unfold pop_item in (get-erase-none qid k e.queue he.0, he.1)) pending req d h)

spent_unknown :
    (w : World) (qid : ℕ) (muse : String) (d : Daemon)
    → get qid d.queue ≡ none
    → rt_queue_approve w (some qid) muse d ≡ (d, Reply.error unknown_queue_id)
unfolding rt_queue_approve approve_item
spent_unknown w qid muse d e = rw (e, approve_item)

-- One approval is one execution attempt: once a queued item has been approved, whatever became of its
-- execution and whatever calls follow, approving the id again answers "unknown queue_id" and changes
-- nothing.
pub approve_once :
    (w w' : World) (qid : ℕ) (muse muse' : String) (v : Item) (d : Daemon) (turns : List Turn)
    → IsSound d
    → get qid d.queue ≡ some v
    → let e = serve turns (rt_queue_approve w (some qid) muse d).0 in
      rt_queue_approve w' (some qid) muse' e ≡ (e, Reply.error unknown_queue_id)
approve_once w w' qid muse muse' v d turns s g =
    spent_unknown w' qid muse' _ (serve-IsSpent qid turns _ (approve-IsSpent w qid muse v d s g)).0

-- A rejected item stays rejected: whatever calls follow, approving its id answers "unknown queue_id"
-- and changes nothing.
pub reject_final :
    (w w' : World) (qid : ℕ) (muse muse' : String) (v : Item) (d : Daemon) (turns : List Turn)
    → IsSound d
    → get qid d.queue ≡ some v
    → let e = serve turns (rt_queue_reject w (some qid) muse d).0 in
      rt_queue_approve w' (some qid) muse' e ≡ (e, Reply.error unknown_queue_id)
reject_final w w' qid muse muse' v d turns s g =
    spent_unknown w' qid muse' _ (serve-IsSpent qid turns _ (reject-IsSpent w qid muse v d s g)).0
