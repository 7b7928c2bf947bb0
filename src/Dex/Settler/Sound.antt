-- ===== src/Dex/Settler/Sound.antt =====
-- What a call of the AllowanceHolder that dex.py accepts is bound to.
use spellbook.Prelude.{
  ℕ, ◌≤◌, ◌≡◌, ◌≢◌, true, false, not, some, ◌==◌, leb, number_IsKey, bytes_IsKey, bytes_same_iff,
  arith, if◌then◌else◌, Bool-cases, inl, inr, contains, subst,
}
use spellbook.Prelude.Options.{bind-some, guard-some, some-carry, not-true}
use spellbook.Prelude.Codes.{lower_text}
use spellbook.Streamable.Utf8.{Text}
use spellbook.Abi.Values.{Values}
use spellbook.Dex.Tokens.{is_native_token, same_token, is_zero_address}
use spellbook.Dex.Calls.{split_selector, settler_execute, abi_decode}
use spellbook.Dex.Settler.{
  Bounds, Slippage, slippage_of, settler_types, decode_settler_execute, Exec, exec_of, exec_types,
  is_sell_leg, swap_tokens, is_barred, decode_allowance_holder,
}

-- A call of Settler.execute, by its selector and its arguments, that makes it enforce on the chain that
-- the wallet is paid the minimum of the token bought.
pub record IsPaid (text : Text) (bounds : Bounds) (s : Slippage) : Type 0 where
  pub args : Text
  pub values : Values
  pub selected : split_selector text ≡ some (settler_execute, args)
  pub decoded : abi_decode settler_types args ≡ some values
  pub read : slippage_of values ≡ some s
  pub recipient : s.recipient ≡ lower_text bounds.wallet
  pub bought : same_token s.buy_token bounds.buy_token ≡ true
  pub enough : bounds.min_buy ≤ s.min_out

leb-le : (m n : ℕ) → leb m n ≡ true → m ≤ n
leb-le m n h = ground arith

decode_settler_execute-IsPaid :
    (text : Text) (bounds : Bounds) (s : Slippage)
    → decode_settler_execute text bounds ≡ some s
    → IsPaid text bounds s
unfolding decode_settler_execute
decode_settler_execute-IsPaid text bounds s ok =
    let ((sel, args), split, ok) = bind-some (split_selector text) _ s ok in
    let (same, ok) = guard-some (sel == settler_execute) _ s ok in
    let (vs, decoded, ok) = bind-some (abi_decode settler_types args) _ s ok in
    let (slippage, read, ok) = bind-some (slippage_of vs) _ s ok in
    let (recipient, ok) = guard-some (slippage.recipient == lower_text bounds.wallet) _ s ok in
    let (bought, ok) = guard-some (same_token slippage.buy_token bounds.buy_token) _ s ok in
    let (enough, ok) = guard-some (leb bounds.min_buy slippage.min_out) _ s ok in
    some-carry (IsPaid text bounds) ok record {
      args = args;
      values = vs;
      selected =
          subst (λ (t : Text). split_selector text ≡ some (t, args))
            ((bytes_same_iff sel settler_execute).0 same) split;
      decoded = decoded;
      read = read;
      recipient = (bytes_same_iff _ _).0 recipient;
      bought = bought;
      enough = leb-le bounds.min_buy slippage.min_out enough;
    }

-- What the holder lets be pulled: no more than the sale.
abbrev pub IsLeg : Text → ℕ → Bounds → Type 0
IsLeg token amount bounds =
    if is_native_token bounds.sell_token
    then (is_native_token token ≡ true) × (amount ≤ bounds.sell_amount)
    else (token ≡ lower_text bounds.sell_token) × (amount ≡ bounds.sell_amount)

is_sell_leg-IsLeg :
    (token : Text) (amount : ℕ) (bounds : Bounds)
    → is_sell_leg token amount bounds ≡ true
    → IsLeg token amount bounds
unfolding is_sell_leg
is_sell_leg-IsLeg token amount bounds h = elim (Bool-cases (is_native_token bounds.sell_token)) [
  | inl native ↦ rw native (ground (arith, native), ground (arith, native))
  | inr other ↦ rw other ((bytes_same_iff token _).0 (ground (arith, other)), ground (arith, other))
]

is_barred-free :
    (inner holder : Text) (bounds : Bounds)
    → is_barred inner holder bounds ≡ false
    → (inner ≢ lower_text bounds.wallet)
      × (inner ≢ holder)
      × (contains inner (swap_tokens bounds) ≡ false)
      × (is_zero_address inner ≡ false)
unfolding is_barred
is_barred-free inner holder bounds h = (
  ground (arith, bytes_same_iff inner (lower_text bounds.wallet)),
  ground (arith, bytes_same_iff inner holder),
  ground arith,
  ground arith,
)

-- A call of the holder, by its arguments: what it lets be pulled, and by whom, and the Settler call
-- inside it.
pub record IsHeld (text : Text) (bounds : Bounds) (holder : Text) (exec : Exec) (s : Slippage)
    : Type 0 where
  pub sel : Text
  pub args : Text
  pub values : Values
  pub split : split_selector text ≡ some (sel, args)
  pub decoded : abi_decode exec_types args ≡ some values
  pub read : exec_of values ≡ some exec
  pub leg : IsLeg exec.token exec.amount bounds
  pub operator : exec.operator ≡ exec.target
  pub free :
      (exec.target ≢ lower_text bounds.wallet)
      × (exec.target ≢ holder)
      × (contains exec.target (swap_tokens bounds) ≡ false)
      × (is_zero_address exec.target ≡ false)
  pub settles : IsPaid exec.inner_data bounds s

pub decode_allowance_holder-IsHeld :
    (text holder : Text) (bounds : Bounds) (exec : Exec) (s : Slippage)
    → decode_allowance_holder text holder bounds ≡ some (exec, s)
    → IsHeld text bounds holder exec s
unfolding decode_allowance_holder
decode_allowance_holder-IsHeld text holder bounds exec s ok =
    let out : Exec × Slippage = (exec, s) in
    let ((sel, args), split, ok) = bind-some (split_selector text) _ out ok in
    let (vs, decoded, ok) = bind-some (abi_decode exec_types args) _ out ok in
    let (e, read, ok) = bind-some (exec_of vs) _ out ok in
    let (leg, ok) = guard-some (is_sell_leg e.token e.amount bounds) _ out ok in
    let (operator, ok) = guard-some (e.operator == e.target) _ out ok in
    let (free, ok) = guard-some (not (is_barred e.target holder bounds)) _ out ok in
    let (slippage, settles, ok) = bind-some (decode_settler_execute e.inner_data bounds) _ out ok in
    some-carry (λ (p : Exec × Slippage). IsHeld text bounds holder p.0 p.1) ok
      record {
        sel = sel;
        args = args;
        values = vs;
        split = split;
        decoded = decoded;
        read = read;
        leg = is_sell_leg-IsLeg e.token e.amount bounds leg;
        operator = (bytes_same_iff _ _).0 operator;
        free = is_barred-free e.target holder bounds (not-true _ free);
        settles = decode_settler_execute-IsPaid e.inner_data bounds slippage settles;
      }
