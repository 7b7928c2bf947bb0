-- ===== src/Relay/Peer.antt =====
-- `ChiaPeer` of relay/peer.py: one connection, its handshake, and the one request in flight. Where the
-- code awaits, a step ends: what may happen next is a constructor of Step (Peer/Steps).
pub mod Connect
pub mod Steps
use spellbook.Prelude.{
  ℕ, ◌+◌, ◌%◌, String, Bool, true, false, not, ◌&&◌, ◌||◌, Option, none, some, List, [], ◌∷◌, ◌==◌,
  number_IsKey, if◌then◌else◌,
}
use spellbook.Streamable.Bytes.{Bytes}
use spellbook.Streamable.Coins.{CoinState}
use spellbook.Streamable.Messages.{
  Message, Handshake, dec_handshake, dec_coin_state_update, dec_new_peak_wallet,
  dec_respond_to_updates,
}

-- `MsgType`
abbrev pub msg_handshake : ℕ
msg_handshake = 1

abbrev pub msg_new_peak_wallet : ℕ
msg_new_peak_wallet = 50

abbrev pub msg_coin_state_update : ℕ
msg_coin_state_update = 69

abbrev pub msg_respond_to_ph_updates : ℕ
msg_respond_to_ph_updates = 71

abbrev pub msg_respond_to_coin_updates : ℕ
msg_respond_to_coin_updates = 73

-- What an `asyncio.Future` of a request holds.
pub data Future : Type 0 where
  waiting : Future
  answered : Message → Future
  lost cancelled timed_out : Future

abbrev pub is_done : Future → Bool
is_done waiting = false
is_done _ = true

-- `PendingRequest`; its future is that of the call that holds the lock.
pub record Pending : Type 0 where
  pub expect_type : ℕ
  pub sent_id : ℕ

-- The call of `_request` that holds the lock.
pub record Call : Type 0 where
  pub expect_type : ℕ
  pub sent_id : ℕ
  pub future : Future

pub record Peer : Type 0 where
  pub ws_open : Bool
  pub handshake_done : Bool
  pub handshake_result : Option Handshake
  pub next_id : ℕ
  pub pending : Option Pending
  pub call : Option Call
  pub closed : Bool
  pub last_peak_at : Option ℕ

-- `ChiaPeer.__init__`
abbrev pub new_peer : Peer
new_peer = record {
  ws_open = false;
  handshake_done = false;
  handshake_result = none;
  next_id = 1;
  pending = none;
  call = none;
  closed = false;
  last_peak_at = none;
}

unfoldable pub connected : Peer → Bool
connected p = p.ws_open && p.handshake_done

-- The future of a call is set once.
abbrev pub set_future : Future → Option Call → Option Call
set_future f none = none
set_future f (some c) = if is_done c.future then some c else some (record c { future = f })

abbrev pub call_done : Option Call → Bool
call_done none = true
call_done (some c) = is_done c.future

-- What the callbacks `on_peak` and `on_coin_states` are given.
pub data Push : Type 0 where
  peak : ℕ → Push
  coin_states : List CoinState → Push

abbrev pub id_matches : Option ℕ → ℕ → Bool
id_matches none sent_id = true
id_matches (some n) sent_id = n == sent_id

-- Does the message answer the request?
abbrev pub answers : Message → Option Pending → Bool
answers m none = false
answers m (some q) = m.msg_type == q.expect_type && id_matches m.id q.sent_id

-- The pushes of a message that answers nothing; an undecodable one is dropped.
unfoldable pub on_push : ℕ → Message → Peer → Peer × List Push
on_push now m p =
    if m.msg_type == msg_coin_state_update
    then elim (dec_coin_state_update m.payload) [
      | none ↦ (p, [])
      | some (height, fork_height, peak_hash, items) ↦
          (record p { last_peak_at = some now }, peak height ∷ coin_states items ∷ [])
    ]
    else if m.msg_type == msg_new_peak_wallet
    then elim (dec_new_peak_wallet m.payload) [
      | none ↦ (p, [])
      | some (header_hash, height, weight, fork_point) ↦
          (record p { last_peak_at = some now }, peak height ∷ [])
    ]
    else if m.msg_type == msg_respond_to_ph_updates || m.msg_type == msg_respond_to_coin_updates
    then elim (dec_respond_to_updates m.payload) [
      | none ↦ (p, [])
      | some (ids, min_height, states) ↦ (p, coin_states states ∷ [])
    ]
    else (p, [])

-- A handshake that does not decode is dropped.
abbrev pub on_handshake : Option Handshake → Peer → Peer
on_handshake none p = p
on_handshake (some h) p = record p { handshake_result = some h; handshake_done = true }

-- `_dispatch`
unfoldable pub dispatch : ℕ → Message → Peer → Peer × List Push
unfolding on_push
dispatch now m p =
    if m.msg_type == msg_handshake && not p.handshake_done
    then (on_handshake (dec_handshake m.payload) p, [])
    else if answers m p.pending
    then (record p { call = set_future (answered m) p.call; pending = none }, [])
    else on_push now m p

-- The first part of `_request`, up to the await; the lock is free and the peer is connected.
unfoldable pub begin_request : ℕ → Peer → Peer
begin_request expect p =
    let next = (p.next_id + 1) % 65536 in
    record p {
      next_id = if next == 0 then 1 else next;
      pending = some (record { expect_type = expect; sent_id = p.next_id });
      call = some (record { expect_type = expect; sent_id = p.next_id; future = waiting });
    }

-- The last part of `_request`, once its future is done: the lock is free again.
unfoldable pub end_request : Peer → Peer
end_request p = record p { pending = none; call = none }

-- `self._pending is not None and not self._pending.future.done()`
abbrev pub is_waiting : Option Pending → Option Call → Bool
is_waiting none c = false
is_waiting (some q) c = not (call_done c)

-- A request that is still waiting ends with `f`.
abbrev pub drop_pending : Future → Peer → Peer
drop_pending f p =
    if is_waiting p.pending p.call
    then record p { call = set_future f p.call; pending = none }
    else p

-- `close`
unfoldable pub close : Peer → Peer
close p = drop_pending cancelled (record p { ws_open = false; closed = true })

-- The `finally` of `_reader`, the socket closed or not.
unfoldable pub reader_ends : Bool → Peer → Peer
reader_ends still_open p = drop_pending lost (record p { ws_open = still_open; closed = true })
