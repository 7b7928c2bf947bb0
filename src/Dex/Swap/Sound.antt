-- ===== src/Dex/Swap/Sound.antt =====
-- What a transaction that `decode_swap_tx` of dex.py accepts is bound to.
use spellbook.Prelude.{
  ℕ, ◌≡◌, ◌⊎◌, refl, true, some, List, [], ◌∷◌, bytes_same_iff, ◌==◌, number_IsKey, bytes_IsKey,
  contains, arith, if◌then◌else◌, Bool-cases, inl, inr,
}
use spellbook.Prelude.Options.{bind-some, guard-some, some-carry, if_true, if_false}
use spellbook.Prelude.Codes.{lower_text, with_0x}
use spellbook.Prelude.Dict.{has}
use spellbook.Streamable.Bytes.{Bytes}
use spellbook.Streamable.Utf8.{Text}
use spellbook.Dex.Tokens.{is_native_token, normalize_venue, is_address}
use spellbook.Dex.Pins.{Overrides, allowance_holder, universal_router, swap_target}
use spellbook.Dex.Pins.Accepted.{pinned_contract, pinned_set}
use spellbook.Dex.Calls.{split_selector, allowance_holder_exec, ur_execute, ur_execute_deadline}
use spellbook.Dex.Settler.{Bounds, decode_allowance_holder}
use spellbook.Dex.Settler.Sound.{IsHeld, decode_allowance_holder-IsHeld}
use spellbook.Dex.Router.{Routed, decode_universal_router}
use spellbook.Dex.Commands.Sound.{AllSay}
use spellbook.Dex.Router.Effects.{
  IsFair, total, promises, promises-AllHonour, RouterCall, decode_universal_router-AllSay,
  decode_universal_router-IsFair,
}
use spellbook.Dex.Swap.{
  Tx, value_of, is_paid, swap_selectors, Binding, held, routed, decode_route, Decoded,
  decode_swap_tx,
}

-- A call of the router, by its arguments: its commands are what their inputs say, and the least that
-- they have to do in all is fair.
pub record IsRouterCall (sel args : Text) (bounds : Bounds) (value_wei : ℕ) (r : Routed)
    : Type 0 where
  pub commands : Bytes
  pub inputs : List Text
  pub call : RouterCall sel args commands inputs
  pub says : AllSay bounds commands inputs r.bound
  pub fair : IsFair bounds value_wei (total (promises bounds r.bound))

-- A call of the holder, or of the router.
abbrev pub IsRouted : Text → Text → Text → Bounds → Text → ℕ → Binding → Type 0
IsRouted text sel args bounds target value_wei (held exec s) = IsHeld text bounds target exec s
IsRouted text sel args bounds target value_wei (routed r) = IsRouterCall sel args bounds value_wei r

decode_universal_router-IsRouterCall :
    (sel args : Text) (bounds : Bounds) (value_wei : ℕ) (r : Routed)
    → decode_universal_router sel args bounds value_wei ≡ some r
    → IsRouterCall sel args bounds value_wei r
decode_universal_router-IsRouterCall sel args bounds value_wei r ok =
    let (commands, inputs, call, says) =
      decode_universal_router-AllSay sel args bounds value_wei r ok in
    record {
      commands = commands;
      inputs = inputs;
      call = call;
      says = says;
      fair =
          decode_universal_router-IsFair sel args bounds value_wei r commands inputs
            (promises bounds r.bound) call ok
            (promises-AllHonour bounds commands inputs r.bound says);
    }

decode_route-IsRouted :
    (role text target sel args : Text) (bounds : Bounds) (value_wei : ℕ) (r : Binding)
    → decode_route role text target sel args bounds value_wei ≡ some r
    → IsRouted text sel args bounds target value_wei r
unfolding decode_route
decode_route-IsRouted role text target sel args bounds value_wei r ok =
    elim (Bool-cases (role == allowance_holder)) [
      | inl holder ↦
          let ok = if_true _ _ _ _ holder ok in
          let ((exec, s), h, ok) = bind-some (decode_allowance_holder text target bounds) _ r ok in
          some-carry (IsRouted text sel args bounds target value_wei) ok
            (decode_allowance_holder-IsHeld text target bounds exec s h)
      | inr router ↦
          let ok = if_false _ _ _ _ router ok in
          let (d, h, ok) = bind-some (decode_universal_router sel args bounds value_wei) _ r ok in
          some-carry (IsRouted text sel args bounds target value_wei) ok
            (decode_universal_router-IsRouterCall sel args bounds value_wei d h)
    ]

-- The functions that may be called on a contract of each role.
abbrev pub IsEntry : Text → Text → Type 0
IsEntry role sel =
    ((role ≡ allowance_holder) × (sel ≡ allowance_holder_exec))
    ⊎ ((role ≡ universal_router) × ((sel ≡ ur_execute) ⊎ (sel ≡ ur_execute_deadline)))

one_of : (s a : Text) → contains s (a ∷ []) ≡ true → s ≡ a
one_of s a h = ground (arith, bytes_same_iff s a)

two_of : (s a b : Text) → contains s (a ∷ b ∷ []) ≡ true → (s ≡ a) ⊎ (s ≡ b)
two_of s a b h = elim (Bool-cases (s == a)) [
  | inl e ↦ inl ((bytes_same_iff s a).0 e)
  | inr e ↦ inr (ground (arith, e, bytes_same_iff s b))
]

swap_selectors-IsEntry :
    (role sel : Text) → contains sel (swap_selectors role) ≡ true → IsEntry role sel
swap_selectors-IsEntry role sel h = elim (Bool-cases (role == allowance_holder)) [
  | inl e ↦
      inl ((bytes_same_iff role allowance_holder).0 e, one_of sel allowance_holder_exec (rw e at h))
  | inr e ↦ elim (Bool-cases (role == universal_router)) [
    | inl f ↦ inr (
      (bytes_same_iff role universal_router).0 f,
      two_of sel ur_execute ur_execute_deadline (rw (e, f) at h),
    )
    | inr f ↦ cc (rw (e, f) at h)
  ]
]

-- The decoded transaction goes to a pinned contract of the venue's role, with the right value; its data
-- call an entry of that role, and the call is bound to the sale.
pub record IsBound (venue_name : Text) (chain_id : ℕ) (tx : Tx) (bounds : Bounds)
    (overrides : Overrides) (d : Decoded) : Type 0 where
  pub venue : normalize_venue venue_name ≡ some d.venue
  pub to : Text
  pub sent_to : tx.to ≡ some to
  pub target : d.target ≡ lower_text to
  pub role : d.target_role ≡ swap_target d.venue
  pub pinned : has d.target (pinned_set chain_id d.target_role overrides) ≡ true
  pub value : value_of tx.value ≡ some d.value_wei
  pub paid : d.value_wei ≡ (if is_native_token bounds.sell_token then bounds.sell_amount else 0)
  pub text : Text
  pub sel : Text
  pub args : Text
  pub sent : tx.data_hex ≡ some text
  pub split : split_selector text ≡ some (sel, args)
  pub entry : IsEntry d.target_role sel
  pub selector : d.selector ≡ with_0x sel
  pub call : IsRouted text sel args bounds d.target d.value_wei d.route

is_paid-value :
    (bounds : Bounds) (value_wei : ℕ)
    → is_paid bounds value_wei ≡ true
    → value_wei ≡ (if is_native_token bounds.sell_token then bounds.sell_amount else 0)
unfolding is_paid
is_paid-value bounds value_wei h = ground arith

-- An accepted transaction goes to a contract that is pinned for the venue's role on the chain, carries
-- the sell amount of a native sale and nothing of a token's. Its data call AllowanceHolder.exec, or one
-- of the router's two execute functions, after that role, and the arguments are bound to the sale: the
-- holder lets only the sell leg be pulled, by a Settler call inside that pays the wallet the minimum;
-- the router's commands are what their inputs say, and the least they have to do in all takes exactly
-- the sale and pays the wallet the minimum.
pub decode_swap_tx-IsBound :
    (venue_name : Text) (chain_id : ℕ) (tx : Tx) (bounds : Bounds) (overrides : Overrides)
    (d : Decoded)
    → decode_swap_tx venue_name chain_id tx bounds overrides ≡ some d
    → IsBound venue_name chain_id tx bounds overrides d
unfolding decode_swap_tx
decode_swap_tx-IsBound venue_name chain_id tx bounds overrides d ok =
    let (venue, named, ok) = bind-some (normalize_venue venue_name) _ d ok in
    let role = swap_target venue in
    let (primary, _, ok) = bind-some (pinned_contract chain_id role overrides) _ d ok in
    let (to, sent_to, ok) = bind-some tx.to _ d ok in
    let (_, ok) = guard-some (is_address to) _ d ok in
    let (pinned, ok) =
      guard-some (has (lower_text to) (pinned_set chain_id role overrides)) _ d ok in
    let (value_wei, value, ok) = bind-some (value_of tx.value) _ d ok in
    let (paid, ok) = guard-some (is_paid bounds value_wei) _ d ok in
    let (text, sent, ok) = bind-some tx.data_hex _ d ok in
    let ((sel, args), split, ok) = bind-some (split_selector text) _ d ok in
    let (entry, ok) = guard-some (contains sel (swap_selectors role)) _ d ok in
    let (route, h, ok) =
      bind-some (decode_route role text (lower_text to) sel args bounds value_wei) _ d ok in
    some-carry (IsBound venue_name chain_id tx bounds overrides) ok record {
      venue = named;
      to = to;
      sent_to = sent_to;
      target = refl;
      role = refl;
      pinned = pinned;
      value = value;
      paid = is_paid-value bounds value_wei paid;
      text = text;
      sel = sel;
      args = args;
      sent = sent;
      split = split;
      entry = swap_selectors-IsEntry role sel entry;
      selector = refl;
      call = decode_route-IsRouted role text (lower_text to) sel args bounds value_wei route h;
    }
