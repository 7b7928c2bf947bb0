-- ===== src/Daemon/State.antt =====
-- The queue, the velocity window and the ledger of src/spellbook/daemon.py.
use spellbook.Prelude.{
  ℕ, ◌+◌, ◌*◌, String, Bool, ◌&&◌, Option, none, some, List, [], ◌∷◌, ◌++◌, leb, ◌==◌, number_IsKey,
  text_IsKey, keep, length, if◌then◌else◌,
}
use spellbook.Prelude.Dict.{insert, erase}
use spellbook.Daemon.Data.{Params, Mark, VelocityRow, Item, Daemon, World, queued_as}

abbrev pub velocity_window_s : ℕ
velocity_window_s = 24 * 3600

-- `ts >= now - VELOCITY_WINDOW_S`
abbrev pub in_window : ℕ → VelocityRow → Bool
in_window now r = leb now (r.ts + velocity_window_s)

abbrev pub counts : ℕ → String → String → VelocityRow → Bool
counts now chain asset r = r.chain == chain && r.asset == asset && in_window now r

unfoldable pub spent_in : ℕ → String → String → List VelocityRow → ℕ
spent_in now chain asset [] = 0
spent_in now chain asset (r ∷ rows) =
    (if counts now chain asset r then r.amount else 0) + spent_in now chain asset rows

unfoldable pub spent_last_24h : ℕ → Daemon → String → String → ℕ
unfolding spent_in
spent_last_24h now d chain asset = spent_in now chain asset d.velocity

-- The rows stay in time order of their calls; the file is written anew only if a row is dropped.
unfoldable pub prune_velocity : ℕ → Daemon → Daemon
prune_velocity now d =
    let kept = keep (in_window now) d.velocity in
    if length kept == length d.velocity
    then d
    else record d { velocity = kept; velocity_file = kept }

unfoldable pub load_velocity : ℕ → Daemon → Daemon
unfolding prune_velocity
load_velocity now d = prune_velocity now (record d { velocity = d.velocity_file })

-- The memory's row and the file's line are stamped by two readings of the clock.
unfoldable pub record_velocity : World → String → String → ℕ → Daemon → Daemon
record_velocity w chain asset amount d =
    let row : VelocityRow = record { ts = w.now; chain = chain; asset = asset; amount = amount } in
    let line : VelocityRow = record row { ts = w.now + w.lag chain asset } in
    record d { velocity = d.velocity ++ row ∷ []; velocity_file = d.velocity_file ++ line ∷ [] }

unfoldable pub load_queue : Daemon → Daemon
load_queue d = elim d.queue_file [
  | none ↦ record d { queue = []; next_qid = 1 }
  | some (n, items) ↦ record d { queue = items; next_qid = n }
]

unfoldable pub save_queue : Daemon → Daemon
save_queue d = record d { queue_file = some (d.next_qid, d.queue) }

-- `Ledger.append`
unfoldable pub append_ledger : ℕ → String → String → Option String → Mark → Daemon → Daemon
append_ledger now muse digest sighash decision d = record d {
  ledger =
      d.ledger
      ++ record {
        ts = now;
        requester_muse = muse;
        canon_digest = digest;
        sighash = sighash;
        decision = decision;
      }
        ∷ [];
}

-- Queue an intent: the next id, the queue's file, and the ledger's line.
unfoldable pub enqueue : World → Params → String → Daemon → Daemon
unfolding save_queue append_ledger
enqueue w params muse d =
    let item : Item = record { params = params; muse_id = muse; queued_at = w.now } in
    let d' =
      save_queue (record d { next_qid = d.next_qid + 1; queue = insert d.next_qid item d.queue }) in
    append_ledger w.now muse (w.digest params) none (queued_as d.next_qid) d'

-- `item = self.queue.pop(qid); self._save_queue()`
unfoldable pub pop_item : ℕ → Daemon → Daemon
unfolding save_queue
pop_item qid d = save_queue (record d { queue = erase qid d.queue })
