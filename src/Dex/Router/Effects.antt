-- ===== src/Dex/Router/Effects.antt =====
-- What the commands that dex.py accepts of a Universal Router call do to the wallet. The router is no
-- part of the repository: what each command is documented to do is a relation on its effect.
use spellbook.Prelude.{
  ℕ, ◌+◌, ◌≤◌, ◌≡◌, refl, Bool, true, not, ◌&&◌, ◌||◌, some, List, [], ◌∷◌, ◌==◌, length,
  number_IsKey, nat_beq_iff, bytes_IsKey, arith, if◌then◌else◌,
}
use spellbook.Prelude.Options.{bind-some, bind_same, guard-some, some-carry, both}
use spellbook.Prelude.Codes.{lower_text}
use spellbook.Streamable.Utf8.{Text}
use spellbook.Dex.Tokens.{is_native_token}
use spellbook.Dex.Settler.{Bounds}
use spellbook.Dex.V4Swap.{ur_address_this, V4Swap}
use spellbook.Dex.V4Swap.Sale.{IsV4Sale}
use spellbook.Dex.Commands.Sound.{Says, AllSay, read_commands-AllSay}
use spellbook.Streamable.Bytes.{Bytes}
use spellbook.Abi.Values.{Values}
use spellbook.Dex.Calls.{abi_decode, bytes_of, texts_of}
use spellbook.Dex.Commands.{Command, wrap_eth, unwrap_weth, swap, v4_swap, sweep, read_commands}
use spellbook.Dex.Router.{
  Accrued, no_totals, is_to_wallet, is_pull, is_bought, bind_command, bind_commands, is_settled,
  inputs_of, router_types, Routed, decode_universal_router,
}

-- What a command does: it pulls the token sold, or another one, from the wallet, it spends of the
-- transaction's value, and it pays what is bought to the wallet.
pub record Effect : Type 0 where
  pub pulled : ℕ
  pub other : ℕ
  pub spent : ℕ
  pub paid : ℕ

-- The token that a swap takes is the one sold.
unfoldable pub is_sale : Bounds → Text → Bool
is_sale bounds token = token == lower_text bounds.sell_token

-- An amount where both hold, and nothing else.
abbrev pub in_case : Bool → Bool → ℕ → ℕ
in_case a b amt = if a && b then amt else 0

-- What a sale by V4_SWAP does: it takes what its swaps sell, and pays the wallet what they promise.
abbrev pub Sells : Bounds → V4Swap → Effect → Type 0
Sells bounds s e =
    (e.pulled ≡ (if is_native_token bounds.sell_token then 0 else s.amount_in))
    × (e.other ≡ 0)
    × (e.spent ≡ (if is_native_token bounds.sell_token then s.amount_in else 0))
    × (s.min_out ≤ e.paid)

-- What the router's documentation promises of the effect of a command with its number and its input.
-- Of a V4_SWAP it promises it only where the input is a sale: exact-input swaps of the token sold into
-- the one bought, one settle of it by the wallet, or from the value of a native sale, and one take to
-- the wallet.
abbrev pub Honours : Bounds → ℕ → Text → Command → Effect → Type 0
Honours bounds cmd inp (wrap_eth rcpt amt) e = (e.pulled ≡ 0) × (e.other ≡ 0) × (e.spent ≡ amt)
Honours bounds cmd inp (swap s) e =
    (e.pulled ≡ in_case s.payer_user (is_sale bounds s.token_in) s.amount_in)
    × (e.other ≡ in_case s.payer_user (not (is_sale bounds s.token_in)) s.amount_in)
    × (e.spent ≡ 0)
    × (in_case (is_to_wallet bounds s.recipient) (is_bought bounds s.token_out) s.min_out ≤ e.paid)
Honours bounds cmd inp (v4_swap s) e = IsV4Sale bounds inp s → Sells bounds s e
Honours bounds cmd inp (sweep tok rcpt amt) e =
    (e.pulled ≡ 0)
    × (e.other ≡ 0)
    × (e.spent ≡ 0)
    × (in_case (is_to_wallet bounds rcpt) (is_bought bounds tok) amt ≤ e.paid)
Honours bounds cmd inp (unwrap_weth rcpt amt) e =
    (e.pulled ≡ 0)
    × (e.other ≡ 0)
    × (e.spent ≡ 0)
    × (in_case (is_to_wallet bounds rcpt) (is_native_token bounds.buy_token) amt ≤ e.paid)

-- An effect for each command, in turn.
abbrev pub AllHonour : Bounds → Bytes → List Text → List Command → List Effect → Type 0
AllHonour bounds [] [] [] [] = Unit {0}
AllHonour bounds (cmd ∷ commands) (inp ∷ inputs) (c ∷ cs) (e ∷ es) =
    Honours bounds cmd inp c e × AllHonour bounds commands inputs cs es
AllHonour bounds _ _ _ _ = ⊥

-- What an execution does in all.
abbrev pub total : List Effect → Effect
total [] = record { pulled = 0; other = 0; spent = 0; paid = 0 }
total (e ∷ es) = record {
  pulled = e.pulled + (total es).pulled;
  other = e.other + (total es).other;
  spent = e.spent + (total es).spent;
  paid = e.paid + (total es).paid;
}

-- What the loop has added up, against an effect.
abbrev Accounts : Bounds → Accrued → Accrued → Effect → Type 0
Accounts bounds t u e =
    (u.user_in ≡ t.user_in + e.pulled)
    × (e.other ≡ 0)
    × (u.wrapped + u.v4_native ≡ t.wrapped + t.v4_native + e.spent)
    × (u.delivered ≤ t.delivered + e.paid)
    × ((if is_native_token bounds.sell_token then e.pulled else e.spent) ≡ 0)

bind_command-Accounts :
    (bounds : Bounds) (cmd : ℕ) (inp : Text) (c : Command) (e : Effect) (t u : Accrued)
    → Says bounds cmd inp c
    → Honours bounds cmd inp c e
    → bind_command bounds c t ≡ some u
    → Accounts bounds t u e
unfolding bind_command is_pull is_sale
bind_command-Accounts bounds cmd inp (wrap_eth rcpt amt) e t u says h ok =
    let (g, r) = guard-some (is_native_token bounds.sell_token && rcpt == ur_address_this) _ u ok in
    some-carry (λ u. Accounts bounds t u e) r (ground arith)
bind_command-Accounts bounds cmd inp (swap s) e t u says h ok =
    let (g, k) = guard-some (not s.payer_user || is_pull bounds s) _ u ok in
    let (g', r) =
      guard-some
        (if is_to_wallet bounds s.recipient
          then is_bought bounds s.token_out
          else s.recipient == ur_address_this)
        _ u k in
    some-carry (λ u. Accounts bounds t u e) r (ground arith)
bind_command-Accounts bounds cmd inp (v4_swap s) e t u says h ok =
    let h = h (says.1) in some-carry (λ u. Accounts bounds t u e) ok (ground arith)
bind_command-Accounts bounds cmd inp (sweep tok rcpt amt) e t u says h ok =
    let (g, k) = guard-some (is_to_wallet bounds rcpt) _ u ok in
    let (g', r) = guard-some (is_bought bounds tok) _ u k in
    some-carry (λ u. Accounts bounds t u e) r (ground arith)
bind_command-Accounts bounds cmd inp (unwrap_weth rcpt amt) e t u says h ok =
    let (g, k) = guard-some (is_to_wallet bounds rcpt) _ u ok in
    let (g', r) = guard-some (is_native_token bounds.buy_token) _ u k in
    some-carry (λ u. Accounts bounds t u e) r (ground arith)

bind_commands-Accounts :
    (bounds : Bounds) (commands : Bytes) (inputs : List Text) (cs : List Command) (es : List Effect)
    (t u : Accrued)
    → AllSay bounds commands inputs cs
    → AllHonour bounds commands inputs cs es
    → bind_commands bounds cs t ≡ some u
    → Accounts bounds t u (total es)
unfolding bind_commands
bind_commands-Accounts bounds [] [] [] [] t u says h ok =
    some-carry (λ u. Accounts bounds t u (total [])) ok (ground arith)
bind_commands-Accounts bounds (cmd ∷ commands) (inp ∷ inputs) (c ∷ cs) (e ∷ es) t u says h ok =
    let (v, here, after) = bind-some (bind_command bounds c t) _ u ok in
    let one = bind_command-Accounts bounds cmd inp c e t v says.0 h.0 here in
    let rest = bind_commands-Accounts bounds commands inputs cs es v u says.1 h.1 after in
    ground arith
bind_commands-Accounts bounds [] [] [] (e ∷ es) t u says h ok = absurd h
bind_commands-Accounts bounds [] [] (c ∷ cs) es t u says h ok = absurd says
bind_commands-Accounts bounds [] (inp ∷ inputs) cs es t u says h ok = absurd says
bind_commands-Accounts bounds (cmd ∷ commands) [] cs es t u says h ok = absurd says
bind_commands-Accounts bounds (cmd ∷ commands) (inp ∷ inputs) [] es t u says h ok = absurd says
bind_commands-Accounts bounds (cmd ∷ commands) (inp ∷ inputs) (c ∷ cs) [] t u says h ok = absurd h

-- What is taken in a call: exactly the sell amount, of the token or, as all of it, of the value that
-- goes along, and no other token; and the least that the wallet is paid.
pub record IsFair (bounds : Bounds) (value_wei : ℕ) (e : Effect) : Type 0 where
  pub pulled : e.pulled ≡ (if is_native_token bounds.sell_token then 0 else bounds.sell_amount)
  pub other : e.other ≡ 0
  pub spent : e.spent ≡ (if is_native_token bounds.sell_token then bounds.sell_amount else 0)
  pub covered : e.spent ≡ (if is_native_token bounds.sell_token then value_wei else 0)
  pub paid : bounds.min_buy ≤ e.paid

is_settled-IsFair :
    (bounds : Bounds) (value_wei : ℕ) (t : Accrued) (e : Effect)
    → Accounts bounds no_totals t e
    → is_settled bounds value_wei t ≡ true
    → IsFair bounds value_wei e
unfolding is_settled
is_settled-IsFair bounds value_wei t e a h = record {
  pulled = ground arith;
  other = ground arith;
  spent = ground arith;
  covered = ground arith;
  paid = ground arith;
}

-- The commands of a call with their inputs, as its arguments encode them.
pub record RouterCall (sel args : Text) (commands : Bytes) (inputs : List Text) : Type 0 where
  pub values : Values
  pub text : Text
  pub listed : Values
  pub decoded : abi_decode (router_types sel) args ≡ some values
  pub read : inputs_of values ≡ some (text, listed)
  pub bytes : bytes_of text ≡ some commands
  pub texts : texts_of listed ≡ some inputs

-- What the decoder has read and checked of a call.
record IsRead (bounds : Bounds) (value_wei : ℕ) (commands : Bytes) (inputs : List Text) (r : Routed)
    : Type 0 where
  totals : Accrued
  says : AllSay bounds commands inputs r.bound
  sum : bind_commands bounds r.bound no_totals ≡ some totals
  settled : is_settled bounds value_wei totals ≡ true

decode_universal_router-IsRead :
    (sel args : Text) (bounds : Bounds) (value_wei : ℕ) (r : Routed) (commands : Bytes)
    (inputs : List Text)
    → RouterCall sel args commands inputs
    → decode_universal_router sel args bounds value_wei ≡ some r
    → IsRead bounds value_wei commands inputs r
unfolding decode_universal_router
decode_universal_router-IsRead sel args bounds value_wei r commands inputs call ok =
    let ok = bind_same (abi_decode (router_types sel) args) _ call.values r call.decoded ok in
    let ok = bind_same (inputs_of call.values) _ (call.text, call.listed) r call.read ok in
    let ok = bind_same (bytes_of call.text) _ commands r call.bytes ok in
    let ok = bind_same (texts_of call.listed) _ inputs r call.texts ok in
    let (sizes, ok) =
      guard-some (length commands == length inputs && not (length commands == 0)) _ r ok in
    let (bound, read, ok) = bind-some (read_commands bounds commands inputs) _ r ok in
    let (totals, sum, ok) = bind-some (bind_commands bounds bound no_totals) _ r ok in
    let (settled, ok) = guard-some (is_settled bounds value_wei totals) _ r ok in
    some-carry (IsRead bounds value_wei commands inputs) ok record {
      totals = totals;
      says =
          read_commands-AllSay bounds commands inputs bound
            ((nat_beq_iff (length commands) (length inputs)).0 (both _ _ sizes).0) read;
      sum = sum;
      settled = settled;
    }

-- An accepted call of the router has commands that are what their inputs say.
pub decode_universal_router-AllSay :
    (sel args : Text) (bounds : Bounds) (value_wei : ℕ) (r : Routed)
    → decode_universal_router sel args bounds value_wei ≡ some r
    → (commands : Bytes) × (inputs : List Text) × RouterCall sel args commands inputs
      × AllSay bounds commands inputs r.bound
unfolding decode_universal_router
decode_universal_router-AllSay sel args bounds value_wei r accepted =
    let (vs, decoded, ok) = bind-some (abi_decode (router_types sel) args) _ r accepted in
    let ((text, listed), read, ok) = bind-some (inputs_of vs) _ r ok in
    let (commands, bytes, ok) = bind-some (bytes_of text) _ r ok in
    let (inputs, texts, ok) = bind-some (texts_of listed) _ r ok in
    let call : RouterCall sel args commands inputs = record {
      values = vs;
      text = text;
      listed = listed;
      decoded = decoded;
      read = read;
      bytes = bytes;
      texts = texts;
    } in
    (
      commands,
      inputs,
      call,
      (decode_universal_router-IsRead sel args bounds value_wei r commands inputs call
          accepted).says,
    )

-- An accepted call of the router, whose commands with their inputs each do what the router documents,
-- takes exactly the approved amount of what is sold, no other token, and pays the wallet the approved
-- minimum. Of a V4_SWAP no more is taken as documented than what it does where its input encodes
-- exact-input swaps of the token sold into the one bought, one settle of it and one take to the wallet.
pub decode_universal_router-IsFair :
    (sel args : Text) (bounds : Bounds) (value_wei : ℕ) (r : Routed) (commands : Bytes)
    (inputs : List Text) (es : List Effect)
    → RouterCall sel args commands inputs
    → decode_universal_router sel args bounds value_wei ≡ some r
    → AllHonour bounds commands inputs r.bound es
    → IsFair bounds value_wei (total es)
decode_universal_router-IsFair sel args bounds value_wei r commands inputs es call ok h =
    let read = decode_universal_router-IsRead sel args bounds value_wei r commands inputs call ok in
    is_settled-IsFair bounds value_wei read.totals (total es)
      (bind_commands-Accounts bounds commands inputs r.bound es no_totals read.totals read.says h
        read.sum)
      read.settled

-- The least that a command has to do.
abbrev pub promise : Bounds → Command → Effect
promise bounds (wrap_eth rcpt amt) = record { pulled = 0; other = 0; spent = amt; paid = 0 }
promise bounds (swap s) = record {
  pulled = in_case s.payer_user (is_sale bounds s.token_in) s.amount_in;
  other = in_case s.payer_user (not (is_sale bounds s.token_in)) s.amount_in;
  spent = 0;
  paid = in_case (is_to_wallet bounds s.recipient) (is_bought bounds s.token_out) s.min_out;
}
promise bounds (v4_swap s) = record {
  pulled = if is_native_token bounds.sell_token then 0 else s.amount_in;
  other = 0;
  spent = if is_native_token bounds.sell_token then s.amount_in else 0;
  paid = s.min_out;
}
promise bounds (sweep tok rcpt amt) = record {
  pulled = 0;
  other = 0;
  spent = 0;
  paid = in_case (is_to_wallet bounds rcpt) (is_bought bounds tok) amt;
}
promise bounds (unwrap_weth rcpt amt) = record {
  pulled = 0;
  other = 0;
  spent = 0;
  paid = in_case (is_to_wallet bounds rcpt) (is_native_token bounds.buy_token) amt;
}

abbrev pub promises : Bounds → List Command → List Effect
promises bounds [] = []
promises bounds (c ∷ cs) = promise bounds c ∷ promises bounds cs

promise-Honours :
    (bounds : Bounds) (cmd : ℕ) (inp : Text) (c : Command)
    → Honours bounds cmd inp c (promise bounds c)
promise-Honours bounds cmd inp (wrap_eth rcpt amt) = (refl, refl, refl)
promise-Honours bounds cmd inp (swap s) = (refl, refl, refl, omega arith)
promise-Honours bounds cmd inp (v4_swap s) = λ sale. (refl, refl, refl, omega arith)
promise-Honours bounds cmd inp (sweep tok rcpt amt) = (refl, refl, refl, omega arith)
promise-Honours bounds cmd inp (unwrap_weth rcpt amt) = (refl, refl, refl, omega arith)

pub promises-AllHonour :
    (bounds : Bounds) (commands : Bytes) (inputs : List Text) (cs : List Command)
    → AllSay bounds commands inputs cs
    → AllHonour bounds commands inputs cs (promises bounds cs)
promises-AllHonour bounds [] [] [] says = tt
promises-AllHonour bounds (cmd ∷ commands) (inp ∷ inputs) (c ∷ cs) says =
    (promise-Honours bounds cmd inp c, promises-AllHonour bounds commands inputs cs says.1)
promises-AllHonour bounds [] [] (c ∷ cs) says = absurd says
promises-AllHonour bounds [] (inp ∷ inputs) cs says = absurd says
promises-AllHonour bounds (cmd ∷ commands) [] cs says = absurd says
promises-AllHonour bounds (cmd ∷ commands) (inp ∷ inputs) [] says = absurd says
