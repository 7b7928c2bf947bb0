-- ===== src/Daemon/Unresolved.antt =====
-- `unresolved_executions` of src/spellbook/daemon.py: the executions that the ledger shows as begun and
-- not ended, matched by digest.
use spellbook.Prelude.{
  ℕ, String, ◌≡◌, ◌≢◌, refl, ◌⊎◌, Bool, true, false, not, ◌&&◌, Option, none, some, List, [], ◌∷◌,
  ◌++◌, contains, text_IsKey, arith, eq_iff, if◌then◌else◌,
}
use spellbook.Daemon.Data.{Params, Done, Outcome, Mark, LedgerRow, Daemon, Reply, World}
use spellbook.Daemon.State.{append_ledger}
use spellbook.Daemon.Legs.{Entry, velocity_entries}
use spellbook.Daemon.Fund.{record_entries, settle, settle_entries, finish, run_execution}

-- _RESOLVED_EXECUTIONS
abbrev pub resolves : Mark → Bool
resolves Mark.approved = true
resolves Mark.approved_by_human = true
resolves Mark.submit_failed = true
resolves Mark.submit_unknown = true
resolves _ = false

abbrev pub is_executing : Mark → Bool
is_executing Mark.executing = true
is_executing _ = false

-- The digests of the rows that resolve one.
unfoldable pub resolved : List LedgerRow → List String
resolved [] = []
resolved (r ∷ rows) = if resolves r.decision then r.canon_digest ∷ resolved rows else resolved rows

pub record Begun : Type 0 where
  pub canon_digest : String
  pub ts : ℕ
  pub requester_muse : String

abbrev pub begun : LedgerRow → Begun
begun r = record { canon_digest = r.canon_digest; ts = r.ts; requester_muse = r.requester_muse }

unfoldable pub open_rows : List String → List LedgerRow → List Begun
open_rows digests [] = []
open_rows digests (r ∷ rows) =
    if is_executing r.decision && not (contains r.canon_digest digests)
    then begun r ∷ open_rows digests rows
    else open_rows digests rows

unfoldable pub unresolved_executions : List LedgerRow → List Begun
unfolding resolved open_rows
unresolved_executions rows = open_rows (resolved rows) rows

-- The marks of an execution that has come to an end.
abbrev pub IsOutcome : Mark → Type 0
IsOutcome m =
    (m ≡ Mark.approved)
    ⊎ ((m ≡ Mark.approved_by_human) ⊎ ((m ≡ Mark.submit_failed) ⊎ (m ≡ Mark.submit_unknown)))

-- Some line has such a mark for the digest.
abbrev pub IsResolved : String → List LedgerRow → Type 0
IsResolved x [] = ⊥
IsResolved x (r ∷ rows) = ((r.canon_digest ≡ x) × IsOutcome r.decision) ⊎ IsResolved x rows

contains-append :
    (x : String) (rows : List LedgerRow) (r : LedgerRow)
    → resolves r.decision ≡ true
    → r.canon_digest ≡ x
    → contains x (resolved (rows ++ r ∷ [])) ≡ true
unfolding resolved
contains-append x [] r h e = ground (arith, eq_iff x r.canon_digest)
contains-append x (y ∷ rows) r h e = ground (arith, contains-append x rows r h e)

abbrev Resolves : String → Daemon → Type 0
Resolves x d = contains x (resolved d.ledger) ≡ true

Resolves-append :
    (now : ℕ) (muse x : String) (s : Option String) (m : Mark) (d : Daemon)
    → resolves m ≡ true
    → Resolves x (append_ledger now muse x s m d)
unfolding append_ledger
Resolves-append now muse x s m d h = contains-append x d.ledger _ h refl

module _ (w : World) (params : Params) (muse : String) (es : List Entry)
    (readable : velocity_entries params ≡ some es) where
  Resolves-settle :
      (s : Option String) (m : Mark) (r : Reply) (d : Daemon)
      → resolves m ≡ true
      → Resolves (w.digest params) (settle w params muse s m r d).0
  unfolding settle settle_entries
  Resolves-settle s m r d h =
      rw (readable, settle_entries)
        (Resolves-append w.now muse (w.digest params) s m (record_entries w es d) h)

  Resolves-if :
      (b : Bool) (x y : Daemon × Reply)
      → Resolves (w.digest params) x.0
      → Resolves (w.digest params) y.0
      → Resolves (w.digest params) (if b then x else y).0
  Resolves-if true x y hx hy = hx
  Resolves-if false x y hx hy = hy

  Resolves-finish :
      (m : Mark) (offer : Done → Option String) (o : Outcome) (d : Daemon)
      → resolves m ≡ true
      → o ≢ Outcome.escaped
      → Resolves (w.digest params) (finish w params muse m offer o d).0
  unfolding finish
  Resolves-finish m offer (Outcome.broadcast_unknown ref) d h ne =
      Resolves-settle (some ref) Mark.submit_unknown (Reply.unknown_fate ref) d refl
  Resolves-finish m offer Outcome.submit_failed d h ne =
      Resolves-append w.now muse (w.digest params) none Mark.submit_failed d refl
  Resolves-finish m offer Outcome.escaped d h ne = absurd (ne refl)
  Resolves-finish m offer (Outcome.done r) d h ne =
      Resolves-if r.submitted _ _
        (Resolves-settle (some r.tx_hash) m (Reply.approved_tx r.tx_hash) d h)
        (Resolves-settle (offer r) m (Reply.approved_note (offer r)) d h)

  -- An execution that returns, fails to submit, or loses track of its broadcast leaves a line that
  -- resolves its digest, whichever handler runs it; only an error that the handlers let through does
  -- not.
  pub run_execution-Resolves :
      (m : Mark) (offer : Done → Option String) (d : Daemon)
      → resolves m ≡ true
      → w.execute params ≢ Outcome.escaped
      → contains (w.digest params) (resolved (run_execution w params muse m offer d).0.ledger)
        ≡ true
  unfolding run_execution
  run_execution-Resolves m offer d h ne = Resolves-finish m offer (w.execute params) _ h ne
