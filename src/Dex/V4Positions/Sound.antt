-- ===== src/Dex/V4Positions/Sound.antt =====
-- What a v4 addition, and a removal or a claim, that dex.py accepts is bound to.
use spellbook.Prelude.{
  ℕ, ◌≤◌, ◌≡◌, ap, sym, ◌∙◌, Bool, true, false, ◌&&◌, Option, some, List, [], ◌∷◌, ◌==◌, leb,
  number_IsKey, nat_beq_iff, bytes_IsKey, bytes_same_iff, arith, if◌then◌else◌, Bool-cases, inl,
  inr, subst,
}
use spellbook.Prelude.Options.{
  bind-some, guard-some, some-carry, both, if_true, if_false, guard-true,
}
use spellbook.Prelude.Codes.{lower_text}
use spellbook.Streamable.Utf8.{Text}
use spellbook.Dex.Tokens.{native_zero, is_zero_address}
use spellbook.Streamable.Bytes.{Bytes}
use spellbook.Abi.Values.{pos, number, str, items, Values, nil, cons}
use spellbook.Dex.Calls.{
  split_selector, lp_selector, abi_decode, address_type, bytes_of, texts_of, bytes_type,
  bytes_list_type, uint256_type, v4_modify_liquidities,
}
use spellbook.Dex.Calls.Splits.{lp_selector-split}
use spellbook.Dex.V4Swap.{actions_of}
use spellbook.Dex.Liquidity.{Exit}
use spellbook.Dex.Positions.{is_exit}
use spellbook.Dex.Positions.Sound.{IsExit, is_exit-IsExit}
use spellbook.Dex.V4Positions.{
  unlock_of, unlock_data, Mint, mint_of, mint_types, two_texts, two_params, Deposit, is_funded,
  decode_v4_lp_add, V4Decrease, v4_decrease_of, v4_decrease_types, TakePair, take_pair_of,
  take_pair_types, take_actions, take_params, one_number, burns, decode_v4_lp_take,
}

-- A call of modifyLiquidities: its selector, and its actions with the parameters of each.
pub record UnlockCall (text : Text) (actions : Bytes) (params : List Text) (deadline : ℕ)
    : Type 0 where
  pub args : Text
  pub unlock : Text
  pub actions_text : Text
  pub listed : Values
  pub selected : split_selector text ≡ some (v4_modify_liquidities, args)
  pub outer :
      abi_decode (bytes_type ∷ uint256_type ∷ []) args
      ≡ some (cons (str unlock) (cons (number (pos deadline)) nil))
  pub inner :
      abi_decode (bytes_type ∷ bytes_list_type ∷ []) unlock
      ≡ some (cons (str actions_text) (cons (items listed) nil))
  pub bytes : bytes_of actions_text ≡ some actions
  pub texts : texts_of listed ≡ some params

unlock_of-some :
    (vs : Values) (u : Text) (n : ℕ)
    → unlock_of vs ≡ some (u, n)
    → vs ≡ cons (str u) (cons (number (pos n)) nil)
unlock_of-some (cons (str x) (cons (number (pos m)) nil)) u n h = cc
unlock_of-some _ u n h = cc

actions_of-some :
    (vs : Values) (a : Text) (l : Values)
    → actions_of vs ≡ some (a, l)
    → vs ≡ cons (str a) (cons (items l) nil)
actions_of-some (cons (str x) (cons (items m) nil)) a l h = cc
actions_of-some _ a l h = cc

unlock_data-UnlockCall :
    (text : Text) (actions : Bytes) (params : List Text) (deadline : ℕ)
    → unlock_data text ≡ some (actions, params, deadline)
    → UnlockCall text actions params deadline
unfolding unlock_data
unlock_data-UnlockCall text actions params deadline ok =
    let out : Bytes × List Text × ℕ = (actions, params, deadline) in
    let (args, sel, ok) = bind-some (lp_selector text v4_modify_liquidities) _ out ok in
    let (vs, outer, ok) = bind-some (abi_decode (bytes_type ∷ uint256_type ∷ []) args) _ out ok in
    let ((unlock, end), u, ok) = bind-some (unlock_of vs) _ out ok in
    let (us, inner, ok) =
      bind-some (abi_decode (bytes_type ∷ bytes_list_type ∷ []) unlock) _ out ok in
    let ((actions_text, listed), a, ok) = bind-some (actions_of us) _ out ok in
    let (acts, bytes, ok) = bind-some (bytes_of actions_text) _ out ok in
    let (ps, texts, ok) = bind-some (texts_of listed) _ out ok in
    some-carry (λ (p : Bytes × List Text × ℕ). UnlockCall text p.0 p.1 p.2) ok
      record {
        args = args;
        unlock = unlock;
        actions_text = actions_text;
        listed = listed;
        selected = lp_selector-split text v4_modify_liquidities args sel;
        outer = outer ∙ ap some (unlock_of-some vs unlock end u);
        inner = inner ∙ ap some (actions_of-some us actions_text listed a);
        bytes = bytes;
        texts = texts;
      }

-- A position of the approved pool, with no hooks, that is the wallet's and costs no more than the caps.
pub record IsMinted (deposit : Deposit) (m : Mint) : Type 0 where
  pub pool :
      (m.currency0 ≡ lower_text deposit.currency0) × (m.currency1 ≡ lower_text deposit.currency1)
  pub hookless : is_zero_address m.hooks ≡ true
  pub owner : m.owner ≡ lower_text deposit.wallet
  pub capped : (m.max0 ≤ deposit.cap0) × (m.max1 ≤ deposit.cap1)
  pub value :
      if m.currency0 == native_zero
      then (m.max0 ≤ deposit.value_wei) × (deposit.value_wei ≤ deposit.cap0)
      else deposit.value_wei ≡ 0

same_pair : (a b c d : Text) → (a == b && c == d) ≡ true → (a ≡ b) × (c ≡ d)
same_pair a b c d h =
    let (p, q) = both (a == b) (c == d) h in ((bytes_same_iff a b).0 p, (bytes_same_iff c d).0 q)

les : (a b c d : ℕ) → (leb a b && leb c d) ≡ true → (a ≤ b) × (c ≤ d)
les a b c d h = (ground arith, ground arith)

is_funded-value :
    (m : Mint) (deposit : Deposit)
    → is_funded m deposit ≡ true
    → if m.currency0 == native_zero
      then (m.max0 ≤ deposit.value_wei) × (deposit.value_wei ≤ deposit.cap0)
      else deposit.value_wei ≡ 0
is_funded-value m deposit h = elim (Bool-cases (m.currency0 == native_zero)) [
  | inl native ↦ rw native (
      let (within, covers) =
        les deposit.value_wei deposit.cap0 m.max0 deposit.value_wei (if_true _ _ _ _ native h) in
      (covers, within))
  | inr token ↦ rw token ((nat_beq_iff _ _).0 (if_false _ _ _ _ token h))
]

-- The call: MINT_POSITION of `m`, and SETTLE_PAIR of the two currencies of its pool.
pub record MintCall (text : Text) (m : Mint) (deadline : ℕ) : Type 0 where
  pub mint_params : Text
  pub settle_params : Text
  pub values : Values
  pub unlocked : UnlockCall text (2 ∷ 13 ∷ []) (mint_params ∷ settle_params ∷ []) deadline
  pub mints : abi_decode mint_types mint_params ≡ some values
  pub read : mint_of values ≡ some m
  pub settles :
      abi_decode (address_type ∷ address_type ∷ []) settle_params
      ≡ some (cons (str m.currency0) (cons (str m.currency1) nil))

two_params-some : (ts : List Text) (a b : Text) → two_params ts ≡ some (a, b) → ts ≡ a ∷ b ∷ []
two_params-some [] a b h = cc
two_params-some (x ∷ []) a b h = cc
two_params-some (x ∷ y ∷ []) a b h = cc
two_params-some (x ∷ y ∷ z ∷ ts) a b h = cc

two_texts-some :
    (vs : Values) (a b c d : Text)
    → two_texts vs ≡ some (a, b)
    → a ≡ c
    → b ≡ d
    → vs ≡ cons (str c) (cons (str d) nil)
two_texts-some (cons (str x) (cons (str y) nil)) a b c d h p q = cc
two_texts-some _ a b c d h p q = cc

unlocked-as :
    (text : Text) (acts want : Bytes) (ps qs : List Text) (end : ℕ)
    → unlock_data text ≡ some (acts, ps, end)
    → (acts == want) ≡ true
    → ps ≡ qs
    → UnlockCall text want qs end
unlocked-as text acts want ps qs end unlocked same listed =
    subst (λ (l : List Text). UnlockCall text want l end) listed
      (subst (λ (a : Bytes). UnlockCall text a ps end) ((bytes_same_iff acts want).0 same)
        (unlock_data-UnlockCall text acts ps end unlocked))

-- An accepted addition is a modifyLiquidities of two actions: MINT_POSITION of one position, of the
-- approved tokens and without hooks, to the wallet, which costs no more than the caps, and SETTLE_PAIR
-- of the same two tokens; the value that goes along covers the native leg within its cap, and is
-- nothing without one.
pub decode_v4_lp_add-IsMinted :
    (text : Text) (deposit : Deposit) (m : Mint) (deadline : ℕ)
    → decode_v4_lp_add text deposit ≡ some (m, deadline)
    → MintCall text m deadline × IsMinted deposit m
unfolding decode_v4_lp_add
decode_v4_lp_add-IsMinted text deposit m deadline ok =
    let out : Mint × ℕ = (m, deadline) in
    let ((actions, params, end), unlocked, ok) = bind-some (unlock_data text) _ out ok in
    let (acts, ok) = guard-some (actions == 2 ∷ 13 ∷ []) _ out ok in
    let ((x, y), two, ok) = bind-some (two_params params) _ out ok in
    let (ms, mints, ok) = bind-some (abi_decode mint_types x) _ out ok in
    let (n, read, ok) = bind-some (mint_of ms) _ out ok in
    let (ss, settles, ok) = bind-some (abi_decode (address_type ∷ address_type ∷ []) y) _ out ok in
    let ((s0, s1), pair, ok) = bind-some (two_texts ss) _ out ok in
    let (pool, ok) =
      guard-some
        (n.currency0 == lower_text deposit.currency0 && n.currency1 == lower_text deposit.currency1)
        _ out ok in
    let (settled, ok) = guard-some (s0 == n.currency0 && s1 == n.currency1) _ out ok in
    let (hookless, ok) = guard-some (is_zero_address n.hooks) _ out ok in
    let (owner, ok) = guard-some (n.owner == lower_text deposit.wallet) _ out ok in
    let (capped, ok) = guard-some (leb n.max0 deposit.cap0 && leb n.max1 deposit.cap1) _ out ok in
    let (funded, ok) = guard-some (is_funded n deposit) _ out ok in
    let (same0, same1) = same_pair s0 n.currency0 s1 n.currency1 settled in
    some-carry (λ (p : Mint × ℕ). MintCall text p.0 p.1 × IsMinted deposit p.0) ok
      (
        record {
          mint_params = x;
          settle_params = y;
          values = ms;
          unlocked =
              unlocked-as text actions _ params _ end unlocked acts
                (two_params-some params x y two);
          mints = mints;
          read = read;
          settles = settles ∙ ap some (two_texts-some ss s0 s1 _ _ pair same0 same1);
        },
        record {
          pool = same_pair _ _ _ _ pool;
          hookless = hookless;
          owner = (bytes_same_iff _ _).0 owner;
          capped = les n.max0 deposit.cap0 n.max1 deposit.cap1 capped;
          value = is_funded-value n deposit funded;
        },
      )

-- What a removal or a claim takes from a position, and to whom.
pub record IsTaken (exit : Exit) (currency0 currency1 : Text) (d : V4Decrease) (t : TakePair)
    : Type 0 where
  pub leaves : IsExit exit d.token_id d.liquidity d.min0 d.min1
  pub pair : (t.currency0 ≡ lower_text currency0) × (t.currency1 ≡ lower_text currency1)
  pub recipient : t.recipient ≡ lower_text exit.wallet

-- The parameters of an optional BURN_POSITION: there where it was approved, and of the position.
abbrev pub IsBurn : Bool → ℕ → List Text → Type 0
IsBurn true token_id (p ∷ []) =
    abi_decode (uint256_type ∷ []) p ≡ some (cons (number (pos token_id)) nil)
IsBurn false token_id [] = Unit {0}
IsBurn _ _ _ = ⊥

-- The call: DECREASE_LIQUIDITY by `d`, TAKE_PAIR by `t`, and BURN_POSITION where it was approved.
pub record TakeCall (text : Text) (token_id : ℕ) (burn_nft : Bool) (d : V4Decrease) (t : TakePair)
    (deadline : ℕ) : Type 0 where
  pub dec_params : Text
  pub pair_params : Text
  pub burn_params : List Text
  pub dec_values : Values
  pub pair_values : Values
  pub unlocked :
      UnlockCall text (take_actions burn_nft) (dec_params ∷ pair_params ∷ burn_params) deadline
  pub decreases : abi_decode v4_decrease_types dec_params ≡ some dec_values
  pub dec_read : v4_decrease_of dec_values ≡ some d
  pub takes : abi_decode take_pair_types pair_params ≡ some pair_values
  pub pair_read : take_pair_of pair_values ≡ some t
  pub burn : IsBurn burn_nft token_id burn_params

one_number-some :
    (vs : Values) (n m : ℕ) → one_number vs ≡ some n → n ≡ m → vs ≡ cons (number (pos m)) nil
one_number-some (cons (number (pos x)) nil) n m h e = cc
one_number-some _ n m h e = cc

burns-true :
    (token_id : ℕ) (p : Text)
    → burns token_id (some p) ≡ some tt
    → abi_decode (uint256_type ∷ []) p ≡ some (cons (number (pos token_id)) nil)
unfolding burns
burns-true token_id p ok =
    let (vs, decoded, ok) = bind-some (abi_decode (uint256_type ∷ []) p) _ tt ok in
    let (burnt, one, ok) = bind-some (one_number vs) _ tt ok in
    decoded
    ∙ ap some (
        one_number-some vs burnt token_id one
          ((nat_beq_iff burnt token_id).0 (guard-true (burnt == token_id) ok)))

-- What stands behind the parameters of the two actions that always stand.
take_params-IsBurn :
    (burn_nft : Bool) (ts : List Text) (a b : Text) (o : Option Text) (token_id : ℕ)
    → take_params burn_nft ts ≡ some (a, b, o)
    → burns token_id o ≡ some tt
    → (burn_params : List Text) × (ts ≡ a ∷ b ∷ burn_params) × IsBurn burn_nft token_id burn_params
take_params-IsBurn false (x ∷ y ∷ []) a b o token_id h k = ([], cc, tt)
take_params-IsBurn true (x ∷ y ∷ z ∷ []) a b o token_id h k =
    let same : some z ≡ o = cc in
    (
      z ∷ [],
      cc,
      burns-true token_id z (subst (λ (o : Option Text). burns token_id o ≡ some tt) (sym same) k),
    )
take_params-IsBurn _ _ a b o token_id h k = cc

-- An accepted removal or claim is a modifyLiquidities of the approved actions and no other:
-- DECREASE_LIQUIDITY of exactly the approved liquidity of the approved position, for the minimums at
-- least; TAKE_PAIR of both currencies to the wallet; and, only where that was approved, BURN_POSITION
-- of that position.
pub decode_v4_lp_take-IsTaken :
    (text : Text) (exit : Exit) (currency0 currency1 : Text) (burn_nft : Bool) (d : V4Decrease)
    (t : TakePair) (deadline : ℕ)
    → decode_v4_lp_take text exit currency0 currency1 burn_nft ≡ some (d, t, deadline)
    → TakeCall text exit.token_id burn_nft d t deadline × IsTaken exit currency0 currency1 d t
unfolding decode_v4_lp_take
decode_v4_lp_take-IsTaken text exit currency0 currency1 burn_nft d t deadline ok =
    let out : V4Decrease × TakePair × ℕ = (d, t, deadline) in
    let ((actions, params, end), unlocked, ok) = bind-some (unlock_data text) _ out ok in
    let (acts, ok) = guard-some (actions == take_actions burn_nft) _ out ok in
    let ((x, y, z), listed, ok) = bind-some (take_params burn_nft params) _ out ok in
    let (ds, decreases, ok) = bind-some (abi_decode v4_decrease_types x) _ out ok in
    let (e, dec_read, ok) = bind-some (v4_decrease_of ds) _ out ok in
    let (leaves, ok) = guard-some (is_exit e.token_id e.liquidity e.min0 e.min1 exit) _ out ok in
    let (ts, takes, ok) = bind-some (abi_decode take_pair_types y) _ out ok in
    let (u, pair_read, ok) = bind-some (take_pair_of ts) _ out ok in
    let (pair, ok) =
      guard-some (u.currency0 == lower_text currency0 && u.currency1 == lower_text currency1) _ out
        ok in
    let (recipient, ok) = guard-some (u.recipient == lower_text exit.wallet) _ out ok in
    let (_, burnt, ok) = bind-some (burns exit.token_id z) _ out ok in
    let (burn_params, shape, burn) =
      take_params-IsBurn burn_nft params x y z exit.token_id listed burnt in
    some-carry
      (λ (p : V4Decrease × TakePair × ℕ).
        TakeCall text exit.token_id burn_nft p.0 p.1 p.2 × IsTaken exit currency0 currency1 p.0 p.1)
      ok
      (
        record {
          dec_params = x;
          pair_params = y;
          burn_params = burn_params;
          dec_values = ds;
          pair_values = ts;
          unlocked = unlocked-as text actions _ params _ end unlocked acts shape;
          decreases = decreases;
          dec_read = dec_read;
          takes = takes;
          pair_read = pair_read;
          burn = burn;
        },
        record {
          leaves = is_exit-IsExit exit e.token_id e.liquidity e.min0 e.min1 leaves;
          pair = same_pair _ _ _ _ pair;
          recipient = (bytes_same_iff _ _).0 recipient;
        },
      )
