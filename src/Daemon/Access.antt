-- ===== src/Daemon/Access.antt =====
-- Who can do what through `handle` of src/spellbook/daemon.py.
use spellbook.Prelude.{
  ℕ, String, ◌≡◌, refl, Bool, true, false, Option, none, some, List, [], ◌∷◌, number_IsKey,
  text_IsKey, arith, contains, ◌⊎◌, inl, inr, Option-cases, Bool-cases, not, ◌&&◌, ◌||◌,
  if◌then◌else◌,
}
use spellbook.Prelude.Dict.{Dict, get, insert}
use spellbook.Daemon.Data.{
  Params, Item, Daemon, World, Error, Reply, approve_token_required, unknown_route, backup_pending,
  bad_token,
}
use spellbook.Daemon.State.{append_ledger, record_velocity, enqueue}
use spellbook.Daemon.Handle.{
  Role, Request, Call, auth, uid_error, route_error, guard_error, dispatch, answer, refuse,
  handle_as, handle, route_of, allowed_uids, uid_in, is_approve, request_routes, approve_routes,
  backup_pending_routes, request_spend, fund, queue_approve, queue_reject, other,
}
use spellbook.Daemon.Induction.{Steps, IsRequest, keeps-dispatch, keeps-answer_refused}
use spellbook.Daemon.Sound.{IsSound, get-fresh, IsSound-steps}

-- What the queue of `d` holds, the queue of `e` holds.
abbrev pub Extends : Daemon → Daemon → Type 0
Extends d e = (qid : ℕ) (item : Item) → get qid d.queue ≡ some item → get qid e.queue ≡ some item

abbrev Grown : Daemon → Daemon → Type 0
Grown d e = IsSound e × Extends d e

get-insert_fresh :
    (n j : ℕ) (v x : Item) (q : Dict ℕ Item)
    → get n q ≡ none
    → get j q ≡ some x
    → get j (insert n v q) ≡ some x
get-insert_fresh n j v x [] h e = cc
get-insert_fresh n j v x (p ∷ q) h e = ground (arith, get-insert_fresh n j v x q)

Extends-enqueue :
    (w : World) (params : Params) (muse : String) (d e : Daemon)
    → IsSound e
    → Extends d e
    → Extends d (enqueue w params muse e)
unfolding enqueue
Extends-enqueue w params muse d e s h qid item g =
    get-insert_fresh e.next_qid qid _ item e.queue (get-fresh e.next_qid e.queue s.ids)
      (h qid item g)

Grown-steps : (w : World) (d : Daemon) → Steps w (Grown d)
unfolding append_ledger record_velocity
Grown-steps w d = record {
  on_ledger = λ now muse digest s m e h.
      ((IsSound-steps w).on_ledger now muse digest s m e h.0, λ qid item g. h.1 qid item g);
  on_velocity =
      λ c a m e h. ((IsSound-steps w).on_velocity c a m e h.0, λ qid item g. h.1 qid item g);
  on_enqueue = λ params muse e h.
      ((IsSound-steps w).on_enqueue params muse e h.0, Extends-enqueue w params muse d e h.0 h.1);
}

-- With the request token no guard lets an approval or a rejection through.
route_IsRequest :
    (pending : Bool) (c : Call) → route_error pending Role.request (route_of c) ≡ none → IsRequest c
unfolding route_error
route_IsRequest pending (queue_approve qid) h = cc
route_IsRequest pending (queue_reject qid) h = cc
route_IsRequest pending (request_spend p) h = tt
route_IsRequest pending (fund r p f) h = tt
route_IsRequest pending (other r) h = tt

guard-none :
    (pending : Bool) (d : Daemon) (role : Role) (req : Request)
    → guard_error pending d role req ≡ none
    → (uid_error req.peer_uid (allowed_uids d role) ≡ none)
      × (route_error pending role (route_of req.call) ≡ none)
unfolding guard_error
guard-none pending d role req h =
    elim (Option-cases (uid_error req.peer_uid (allowed_uids d role))) [
      | inl e ↦ (e, rw (e, guard_error) at h)
      | inr (x, e) ↦ cc (rw (e, guard_error) at h)
    ]

answer-Grown :
    (w : World) (pending : Bool) (req : Request) (d : Daemon) (o : Option (Error × Bool))
    → guard_error pending d Role.request req ≡ o
    → Grown d d
    → Grown d (answer w req o d).0
answer-Grown w pending req d none e h =
    unfold answer in
    keeps-dispatch (Grown d) (Grown-steps w d) req.call req.muse_id d
      (route_IsRequest pending req.call (guard-none pending d Role.request req e).1) h
answer-Grown w pending req d (some refusal) e h =
    keeps-answer_refused (Grown d) (Grown-steps w d) req refusal d h

-- A caller that presents the request token cannot decide on a queued intent: whatever it sends, every
-- item that was in the queue is there afterwards, unchanged.
pub request_token_only_queues :
    (w : World) (pending : Bool) (req : Request) (d : Daemon)
    → IsSound d
    → auth d req.token ≡ some Role.request
    → (qid : ℕ) (item : Item) → get qid d.queue ≡ some item
    → get qid (handle w pending req d).0.queue ≡ some item
unfolding handle handle_as
request_token_only_queues w pending req d s e qid item g =
    rw (e, handle_as)
      ((answer-Grown w pending req d (guard_error pending d Role.request req) refl
          (s, λ j x i. i)).1
        qid item g)

-- What a call must meet before its handler runs.
pub record Permits (pending : Bool) (d : Daemon) (role : Role) (req : Request) : Type 0 where
  pub allowed : List ℕ
  pub configured : allowed_uids d role ≡ some allowed
  pub peer : uid_in req.peer_uid allowed ≡ true
  pub known :
      (contains (route_of req.call) request_routes || contains (route_of req.call) approve_routes)
      ≡ true
  pub human : is_approve role ≡ false → contains (route_of req.call) approve_routes ≡ false
  pub backed_up : pending ≡ true → contains (route_of req.call) backup_pending_routes ≡ true

uid-allowed :
    (uid : Option ℕ) (o : Option (List ℕ))
    → uid_error uid o ≡ none
    → (allowed : List ℕ) × (o ≡ some allowed) × (uid_in uid allowed ≡ true)
unfolding uid_error
uid-allowed uid none h = cc
uid-allowed uid (some allowed) h = elim (Bool-cases (uid_in uid allowed)) [
  | inl e ↦ (allowed, refl, e)
  | inr e ↦ cc (rw e at h)
]

module _ (pending : Bool) (role : Role) (route : String) where
  route-none :
      route_error pending role route ≡ none
      → ((contains route request_routes || contains route approve_routes) ≡ true)
        × (is_approve role ≡ false → contains route approve_routes ≡ false)
        × (pending ≡ true → contains route backup_pending_routes ≡ true)
  unfolding route_error
  route-none h =
      go (contains route request_routes) (contains route approve_routes) (is_approve role)
        (contains route backup_pending_routes) h
    where
      go :
          (r a p b : Bool)
          → ◌≡◌ {A = Option (Error × Bool)}
              (if a && not p
                then some (approve_token_required, true)
                else if not r && not a
                then some (unknown_route, false)
                else if not b && pending
                then some (backup_pending, true)
                else none)
              none
          → ((r || a) ≡ true) × (p ≡ false → a ≡ false) × (pending ≡ true → b ≡ true)
      go r a p b h = ground arith

permits :
    (pending : Bool) (d : Daemon) (role : Role) (req : Request)
    → guard_error pending d role req ≡ none
    → Permits pending d role req
permits pending d role req h =
    let (u, r) = guard-none pending d role req h in
    let (allowed, configured, peer) = uid-allowed req.peer_uid (allowed_uids d role) u in
    let (known, human, backed_up) = route-none pending role (route_of req.call) r in
    record {
      allowed = allowed;
      configured = configured;
      peer = peer;
      known = known;
      human = human;
      backed_up = backed_up;
    }

-- The state is that of `d`, but for the ledger.
abbrev pub OnlyLedger : Daemon → Daemon → Type 0
OnlyLedger d e = e ≡ record d { ledger = e.ledger }

-- What `handle` comes to: the handler ran, with a token of the role and all that the role needs; or
-- it did not, the reply is an error, and nothing but the ledger has changed.
abbrev pub Gated : World → Bool → Request → Daemon → Daemon × Reply → Type 0
Gated w pending req d x =
    ((role : Role) × (auth d req.token ≡ some role)
      × Permits pending d role req
      × (x ≡ dispatch w req.call req.muse_id d))
    ⊎ ((e : Error) × (x.1 ≡ Reply.error e) × OnlyLedger d x.0)

refuse-OnlyLedger :
    (w : World) (req : Request) (e : Error) (b : Bool) (d : Daemon)
    → OnlyLedger d (refuse w req (e, b) d).0
unfolding append_ledger
refuse-OnlyLedger w req e true d = refl
refuse-OnlyLedger w req e false d = refl

answer-Gated :
    (w : World) (pending : Bool) (req : Request) (d : Daemon) (role : Role)
    (o : Option (Error × Bool))
    → auth d req.token ≡ some role
    → guard_error pending d role req ≡ o
    → Gated w pending req d (answer w req o d)
unfolding answer
answer-Gated w pending req d role none a g = inl (role, a, permits pending d role req g, refl)
answer-Gated w pending req d role (some (e, b)) a g = inr (e, refl, refuse-OnlyLedger w req e b d)

role-Gated :
    (w : World) (pending : Bool) (req : Request) (d : Daemon) (o : Option Role)
    → auth d req.token ≡ o
    → Gated w pending req d (handle_as w pending req o d)
unfolding handle_as
role-Gated w pending req d none e = inr (bad_token, refl, refl)
role-Gated w pending req d (some role) e =
    answer-Gated w pending req d role (guard_error pending d role req) e refl

-- A handler runs only for a token of a role whose configured UIDs hold the peer's, on a known route,
-- on one of the human's routes only with the approve token, and while the backup is pending only on
-- the routes that move nothing. Every other request gets an error and changes only the ledger.
pub handle-Gated :
    (w : World) (pending : Bool) (req : Request) (d : Daemon)
    → Gated w pending req d (handle w pending req d)
unfolding handle
handle-Gated w pending req d = role-Gated w pending req d (auth d req.token) refl
