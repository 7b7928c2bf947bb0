-- ===== src/Relay/Peer/Steps.antt =====
-- Every interleaving of a connection's requests, messages, timeouts and closings.
use spellbook.Prelude.{
  ℕ, ◌≤◌, ◌≡◌, subst, ap, ◌⊎◌, inl, inr, refl, Bool, true, false, not, ◌&&◌, Option, none, some,
  ◌==◌, number_IsKey, arith, Bool-cases,
}
use spellbook.Streamable.Messages.{Message, Handshake, dec_handshake}
use spellbook.Relay.Peer.{
  Future, answered, lost, cancelled, timed_out, is_done, Pending, Call, Peer, new_peer, connected,
  set_future, call_done, id_matches, answers, on_push, on_handshake, dispatch, begin_request,
  end_request, drop_pending, is_waiting, msg_handshake, close, reader_ends,
}

-- `connect` has opened a socket: the events and the close information are cleared.
abbrev pub opened : Peer → Peer
opened p = record p { ws_open = true; closed = false; handshake_done = false }

pub data Step : Peer → Peer → Type 0 where
  opens : (p : Peer) → Step p (opened p)
  starts :
      (p : Peer) (expect : ℕ) → connected p ≡ true → p.call ≡ none → Step p (begin_request expect p)
  receives : (p : Peer) (now : ℕ) (m : Message) → Step p (dispatch now m p).0
  times_out : (p : Peer) → Step p (record p { call = set_future timed_out p.call })
  -- The send fails, or the caller's task is cancelled.
  aborts : (p : Peer) → Step p (end_request p)
  returns : (p : Peer) → call_done p.call ≡ true → Step p (end_request p)
  closes : (p : Peer) → Step p (close p)
  ends : (p : Peer) (still_open : Bool) → Step p (reader_ends still_open p)

pub data Reach (p : Peer) : Peer → Type 0 where
  here : Reach p p
  next : {q r : Peer} → Reach p q → Step q r → Reach p r

-- The pending request is that of the call.
abbrev IsLinked : Option Pending → Option Call → Type 0
IsLinked none c = Unit {0}
IsLinked (some q) none = ⊥
IsLinked (some q) (some c) = (q.expect_type ≡ c.expect_type) × (q.sent_id ≡ c.sent_id)

-- The message is of the type that the call expects, and carries its id or none.
abbrev pub Answers : Message → Call → Type 0
Answers m c = (m.msg_type ≡ c.expect_type) × ((m.id ≡ none) ⊎ (m.id ≡ some c.sent_id))

abbrev FutureAnswers : Call → Future → Type 0
FutureAnswers c (answered m) = Answers m c
FutureAnswers c _ = Unit {0}

abbrev CallAnswers : Option Call → Type 0
CallAnswers none = Unit {0}
CallAnswers (some c) = FutureAnswers c c.future

record IsMatched (p : Peer) : Type 0 where
  low : 1 ≤ p.next_id
  high : p.next_id ≤ 65535
  linked : IsLinked p.pending p.call
  right : CallAnswers p.call

set_future-IsLinked :
    (f : Future) (q : Option Pending) (c : Option Call) → IsLinked q c → IsLinked q (set_future f c)
set_future-IsLinked f none c h = tt
set_future-IsLinked f (some q) none h = h
set_future-IsLinked f (some q) (some c) h = ground arith

set_future-CallAnswers :
    (f : Future) (c : Option Call)
    → ((a : Call) → c ≡ some a → FutureAnswers a f)
    → CallAnswers c
    → CallAnswers (set_future f c)
set_future-CallAnswers f none g h = tt
set_future-CallAnswers f (some c) g h = elim (Bool-cases (is_done c.future)) [
  | inl done ↦ rw done h
  | inr more ↦ rw more (g c refl)
]

drop-IsMatched :
    (p : Peer) (f : Future)
    → IsMatched p
    → ((a : Call) → FutureAnswers a f)
    → IsMatched (drop_pending f p)
drop-IsMatched p f v plain = elim (Bool-cases (is_waiting p.pending p.call)) [
  | inl waits ↦ rw waits record {
    low = v.low;
    high = v.high;
    linked = tt;
    right = set_future-CallAnswers f p.call (λ a e. plain a) v.right;
  }
  | inr idle ↦ rw idle v
]

-- A push leaves the requests alone.
on_push-calls :
    (now : ℕ) (m : Message) (p : Peer)
    → ((on_push now m p).0.next_id ≡ p.next_id)
      × ((on_push now m p).0.pending ≡ p.pending)
      × ((on_push now m p).0.call ≡ p.call)
unfolding on_push
on_push-calls now m p = (ground arith, ground arith, ground arith)

on_push-IsMatched : (now : ℕ) (m : Message) (p : Peer) → IsMatched p → IsMatched (on_push now m p).0
on_push-IsMatched now m p v =
    let (same_id, same_pending, same_call) = on_push-calls now m p in
    record {
      low = rw same_id v.low;
      high = rw same_id v.high;
      linked = rw (same_pending, same_call) v.linked;
      right = rw same_call v.right;
    }

id_matches-cases : (i : Option ℕ) (n : ℕ) → id_matches i n ≡ true → (i ≡ none) ⊎ (i ≡ some n)
id_matches-cases none n h = inl refl
id_matches-cases (some k) n h = inr (ap some (ground arith))

answers-Answers :
    (m : Message) (q : Option Pending) (a : Call)
    → answers m q ≡ true
    → IsLinked q (some a)
    → Answers m a
answers-Answers m none a h k = cc
answers-Answers m (some q) a h k = (
  ground arith,
  subst (λ n. (m.id ≡ none) ⊎ (m.id ≡ some n)) k.1 (id_matches-cases m.id q.sent_id (ground arith)),
)

answered-IsMatched :
    (m : Message) (p : Peer)
    → IsMatched p
    → answers m p.pending ≡ true
    → IsMatched (record p { call = set_future (answered m) p.call; pending = none })
answered-IsMatched m p v h = record {
  low = v.low;
  high = v.high;
  linked = tt;
  right =
      set_future-CallAnswers (answered m) p.call
        (λ a e. answers-Answers m p.pending a h (subst (IsLinked p.pending) e v.linked)) v.right;
}

on_handshake-IsMatched :
    (h : Option Handshake) (p : Peer) → IsMatched p → IsMatched (on_handshake h p)
on_handshake-IsMatched none p v = v
on_handshake-IsMatched (some h) p v = record {
  low = v.low;
  high = v.high;
  linked = v.linked;
  right = v.right;
}

dispatch-IsMatched :
    (now : ℕ) (m : Message) (p : Peer) → IsMatched p → IsMatched (dispatch now m p).0
unfolding dispatch
dispatch-IsMatched now m p v =
    elim (Bool-cases (m.msg_type == msg_handshake && not p.handshake_done)) [
      | inl greets ↦ rw greets (on_handshake-IsMatched (dec_handshake m.payload) p v)
      | inr other ↦ rw other (elim (Bool-cases (answers m p.pending)) [
        | inl hit ↦ rw hit (answered-IsMatched m p v hit)
        | inr miss ↦ rw miss (on_push-IsMatched now m p v)
      ])
    ]

Step-IsMatched : {p q : Peer} → Step p q → IsMatched p → IsMatched q
Step-IsMatched (opens p) v = ground arith
Step-IsMatched (starts p expect up free) v =
    unfold begin_request in
    record { low = ground arith; high = ground arith; linked = (refl, refl); right = tt }
Step-IsMatched (receives p now m) v = dispatch-IsMatched now m p v
Step-IsMatched (times_out p) v = record {
  low = v.low;
  high = v.high;
  linked = set_future-IsLinked timed_out p.pending p.call v.linked;
  right = set_future-CallAnswers timed_out p.call (λ a e. tt) v.right;
}
Step-IsMatched (aborts p) v = unfold end_request in ground arith
Step-IsMatched (returns p done) v = unfold end_request in ground arith
Step-IsMatched (closes p) v =
    unfold close in
    drop-IsMatched (record p { ws_open = false; closed = true }) cancelled
      (record { low = v.low; high = v.high; linked = v.linked; right = v.right }) (λ a. tt)
Step-IsMatched (ends p still_open) v =
    unfold reader_ends in
    drop-IsMatched (record p { ws_open = still_open; closed = true }) lost
      (record { low = v.low; high = v.high; linked = v.linked; right = v.right }) (λ a. tt)

Reach-IsMatched : {p q : Peer} → Reach p q → IsMatched p → IsMatched q
Reach-IsMatched here v = v
Reach-IsMatched (next r st) v = Step-IsMatched st (Reach-IsMatched r v)

new_peer-IsMatched : IsMatched new_peer
new_peer-IsMatched = record { low = omega arith; high = omega arith; linked = tt; right = tt }

-- Whatever order requests, messages, timeouts and closings come in: when a call has got a reply, that
-- reply is of the type that it expects, with its own id or none, and the id of the next request is
-- between 1 and 65535.
pub Reach-Answers :
    {p : Peer} (c : Call) (m : Message)
    → Reach new_peer p
    → p.call ≡ some c
    → c.future ≡ answered m
    → Answers m c × ((1 ≤ p.next_id) × (p.next_id ≤ 65535))
Reach-Answers {p} c m r call_c future_m =
    let v = Reach-IsMatched r new_peer-IsMatched in
    (subst (FutureAnswers c) future_m (subst CallAnswers call_c v.right), (v.low, v.high))
