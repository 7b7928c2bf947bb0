-- ===== src/Daemon/Sound.antt =====
-- The invariant of the daemon's state in src/spellbook/daemon.py: the ids of the queue, and the two
-- files that a restart reads.
use spellbook.Prelude.{
  ℕ, ◌+◌, ◌<◌, ◌≤◌, ◌≡◌, refl, Bool, Option, none, some, List, [], ◌∷◌, ◌++◌, number_IsKey, arith,
  String,
}
use spellbook.Prelude.Dict.{Dict, get, insert, erase}
use spellbook.Daemon.Data.{Params, Mark, Item, VelocityRow, Daemon, World}
use spellbook.Daemon.Induction.{Steps, keeps-handle}
use spellbook.Daemon.Handle.{Request, handle}
use spellbook.Daemon.State.{append_ledger, record_velocity, enqueue, pop_item}

-- Every id in the queue is below `n`, and stands there once.
abbrev pub HasIds : ℕ → Dict ℕ Item → Type 0
HasIds n [] = Unit
HasIds n ((k, v) ∷ q) = (k < n) × (get k q ≡ none) × HasIds n q

-- What `_load_queue` finds.
abbrev pub stored_queue : Option (ℕ × Dict ℕ Item) → ℕ × Dict ℕ Item
stored_queue none = (1, [])
stored_queue (some file) = file

-- The file has a line for each row of the memory, in its order, stamped no earlier than the row.
abbrev pub IsFiled : List VelocityRow → List VelocityRow → Type 0
IsFiled [] [] = Unit {0}
IsFiled (r ∷ rows) (l ∷ lines) =
    ((r.chain ≡ l.chain) × (r.asset ≡ l.asset) × (r.amount ≡ l.amount) × (r.ts ≤ l.ts))
    × IsFiled rows lines
IsFiled _ _ = ⊥

IsFiled-append :
    (rows lines : List VelocityRow) (r l : VelocityRow)
    → IsFiled rows lines
    → (r.chain ≡ l.chain) × (r.asset ≡ l.asset) × (r.amount ≡ l.amount) × (r.ts ≤ l.ts)
    → IsFiled (rows ++ r ∷ []) (lines ++ l ∷ [])
IsFiled-append [] [] r l h k = (k, tt)
IsFiled-append [] (y ∷ lines) r l h k = absurd h
IsFiled-append (x ∷ rows) [] r l h k = absurd h
IsFiled-append (x ∷ rows) (y ∷ lines) r l h k = (h.0, IsFiled-append rows lines r l h.1 k)

pub record IsSound (d : Daemon) : Type 0 where
  pub ids : HasIds d.next_qid d.queue
  pub saved : stored_queue d.queue_file ≡ (d.next_qid, d.queue)
  pub counted : IsFiled d.velocity d.velocity_file

HasIds-mono : (n : ℕ) (q : Dict ℕ Item) → HasIds n q → HasIds (n + 1) q
HasIds-mono n [] h = tt
HasIds-mono n ((k, v) ∷ q) h = (omega arith, h.1, HasIds-mono n q h.2)

pub get-fresh : (n : ℕ) (q : Dict ℕ Item) → HasIds n q → get n q ≡ none
get-fresh n [] h = refl
get-fresh n ((k, v) ∷ q) h = ground (arith, get-fresh n q h.2)

get-insert_ne : (j k : ℕ) (v : Item) (q : Dict ℕ Item) → ¬ (j ≡ k) → get j (insert k v q) ≡ get j q
get-insert_ne j k v [] h = ground arith
get-insert_ne j k v (p ∷ q) h = ground (arith, get-insert_ne j k v q h)

pub HasIds-insert :
    (n : ℕ) (v : Item) (q : Dict ℕ Item) → HasIds n q → HasIds (n + 1) (insert n v q)
HasIds-insert n v [] h = (omega arith, refl, tt)
HasIds-insert n v ((k, w) ∷ q) h =
    ground (arith, HasIds-insert n v q h.2, get-insert_ne k n v q, get-fresh n q h.2)

get-erase-none : (j k : ℕ) (q : Dict ℕ Item) → get j q ≡ none → get j (erase k q) ≡ none
get-erase-none j k [] h = refl
get-erase-none j k (p ∷ q) h = ground (arith, get-erase-none j k q)

pub HasIds-erase : (n k : ℕ) (q : Dict ℕ Item) → HasIds n q → HasIds n (erase k q)
HasIds-erase n k [] h = tt
HasIds-erase n k ((j, v) ∷ q) h = ground (arith, HasIds-erase n k q h.2, get-erase-none j k q h.1)

module _ {d : Daemon} (h : IsSound d) where
  append_ledger-IsSound :
      (now : ℕ) (muse digest : String) (sighash : Option String) (mark : Mark)
      → IsSound (append_ledger now muse digest sighash mark d)
  unfolding append_ledger
  append_ledger-IsSound now muse digest sighash mark = record {
    ids = h.ids;
    saved = h.saved;
    counted = h.counted;
  }

  record_velocity-IsSound :
      (w : World) (chain asset : String) (amount : ℕ)
      → IsSound (record_velocity w chain asset amount d)
  unfolding record_velocity
  record_velocity-IsSound w chain asset amount = record {
    ids = h.ids;
    saved = h.saved;
    counted =
        IsFiled-append d.velocity d.velocity_file _ _ h.counted (refl, refl, refl, omega arith);
  }

  enqueue-IsSound :
      (w : World) (params : Params) (muse : String) → IsSound (enqueue w params muse d)
  unfolding enqueue
  enqueue-IsSound w params muse = record {
    ids = HasIds-insert d.next_qid _ d.queue h.ids;
    saved = refl;
    counted = h.counted;
  }

  pop_item-IsSound : (qid : ℕ) → IsSound (pop_item qid d)
  unfolding pop_item
  pop_item-IsSound qid = record {
    ids = HasIds-erase d.next_qid qid d.queue h.ids;
    saved = refl;
    counted = h.counted;
  }

pub IsSound-steps : (w : World) → Steps w IsSound
IsSound-steps w = record {
  on_ledger =
      λ now muse digest sighash mark d h. append_ledger-IsSound h now muse digest sighash mark;
  on_velocity = λ chain asset amount d h. record_velocity-IsSound h w chain asset amount;
  on_enqueue = λ params muse d h. enqueue-IsSound h w params muse;
}

-- Every call, whatever its token, its route and the way that its execution ends, keeps the invariant:
-- the queue's ids stand once each and below the next id, the queue's file holds the queue and the
-- next id, and the velocity file has a line for each velocity row of the memory, in its order, with
-- its chain, asset and amount and a time that is no earlier.
pub handle-IsSound :
    (w : World) (pending : Bool) (req : Request) (d : Daemon)
    → IsSound d
    → IsSound (handle w pending req d).0
handle-IsSound w pending req d h =
    keeps-handle IsSound (IsSound-steps w) (λ qid e he. pop_item-IsSound he qid) pending req d h
