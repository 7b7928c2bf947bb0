-- ===== src/Dex/Positions/Sound.antt =====
-- What a v3 removal that dex.py accepts is bound to.
use spellbook.Prelude.{
  ℕ, ◌≤◌, ◌≡◌, ap, ◌∙◌, true, some, [], ◌∷◌, ◌==◌, number_IsKey, nat_beq_iff, bytes_IsKey,
  bytes_same_iff, arith,
}
use spellbook.Prelude.Options.{bind-some, guard-some, some-carry}
use spellbook.Prelude.Codes.{lower_text}
use spellbook.Streamable.Utf8.{Text}
use spellbook.Abi.Values.{str, items, Values, nil, cons}
use spellbook.Dex.Calls.{
  v3_multicall, v3_decrease_liquidity, v3_collect, split_selector, lp_selector, abi_decode,
  bytes_list_type,
}
use spellbook.Dex.Calls.Splits.{lp_selector-split}
use spellbook.Dex.Liquidity.{Exit}
use spellbook.Dex.Positions.{
  Collect, collect_of, collect_types, v3_collect_args, Decrease, decrease_of, decrease_types,
  two_calls, is_exit, decode_v3_remove,
}

-- A decrease of exactly the approved liquidity of the approved position, which pays the minimums.
pub record IsExit (exit : Exit) (token_id liquidity min0 min1 : ℕ) : Type 0 where
  pub position : token_id ≡ exit.token_id
  pub exact : liquidity ≡ exit.liquidity
  pub pays0 : exit.min0 ≤ min0
  pub pays1 : exit.min1 ≤ min1

pub is_exit-IsExit :
    (exit : Exit) (token_id liquidity min0 min1 : ℕ)
    → is_exit token_id liquidity min0 min1 exit ≡ true
    → IsExit exit token_id liquidity min0 min1
is_exit-IsExit exit token_id liquidity min0 min1 h = record {
  position = ground arith;
  exact = ground arith;
  pays0 = ground arith;
  pays1 = ground arith;
}

-- A collection of the position that goes to the wallet.
pub record IsCollected (token_id : ℕ) (wallet : Text) (c : Collect) : Type 0 where
  pub position : c.token_id ≡ token_id
  pub recipient : c.recipient ≡ lower_text wallet

pub v3_collect_args-IsCollected :
    (args : Text) (token_id : ℕ) (wallet : Text) (c : Collect)
    → v3_collect_args args token_id wallet ≡ some c
    → IsCollected token_id wallet c
unfolding v3_collect_args
v3_collect_args-IsCollected args token_id wallet c ok =
    let (vs, _, ok) = bind-some (abi_decode collect_types args) _ c ok in
    let (d, _, ok) = bind-some (collect_of vs) _ c ok in
    let (position, ok) = guard-some (d.token_id == token_id) _ c ok in
    let (recipient, ok) = guard-some (d.recipient == lower_text wallet) _ c ok in
    some-carry (IsCollected token_id wallet) ok record {
      position = (nat_beq_iff _ _).0 position;
      recipient = (bytes_same_iff _ _).0 recipient;
    }

-- A call that collects: its selector, and its arguments.
pub record CollectCall (text : Text) (c : Collect) : Type 0 where
  pub args : Text
  pub values : Values
  pub selected : split_selector text ≡ some (v3_collect, args)
  pub decoded : abi_decode collect_types args ≡ some values
  pub read : collect_of values ≡ some c

-- A call that takes liquidity.
pub record DecreaseCall (text : Text) (d : Decrease) : Type 0 where
  pub args : Text
  pub values : Values
  pub selected : split_selector text ≡ some (v3_decrease_liquidity, args)
  pub decoded : abi_decode decrease_types args ≡ some values
  pub read : decrease_of values ≡ some d

-- A multicall of one call that takes and one that collects, and no other.
pub record RemoveCall (text : Text) (d : Decrease) (c : Collect) : Type 0 where
  pub args : Text
  pub first_call : Text
  pub second_call : Text
  pub selected : split_selector text ≡ some (v3_multicall, args)
  pub decoded :
      abi_decode (bytes_list_type ∷ []) args
      ≡ some (cons (items (cons (str first_call) (cons (str second_call) nil))) nil)
  pub decreases : DecreaseCall first_call d
  pub collects : CollectCall second_call c

two_calls-some :
    (vs : Values) (a b : Text)
    → two_calls vs ≡ some (a, b)
    → vs ≡ cons (items (cons (str a) (cons (str b) nil))) nil
two_calls-some (cons (items (cons (str x) (cons (str y) nil))) nil) a b h = cc
two_calls-some _ a b h = cc

v3_collect_args-CollectCall :
    (text args : Text) (token_id : ℕ) (wallet : Text) (c : Collect)
    → split_selector text ≡ some (v3_collect, args)
    → v3_collect_args args token_id wallet ≡ some c
    → CollectCall text c
unfolding v3_collect_args
v3_collect_args-CollectCall text args token_id wallet c selected ok =
    let (vs, decoded, ok) = bind-some (abi_decode collect_types args) _ c ok in
    let (d, read, ok) = bind-some (collect_of vs) _ c ok in
    let (_, ok) = guard-some (d.token_id == token_id) _ c ok in
    let (_, ok) = guard-some (d.recipient == lower_text wallet) _ c ok in
    some-carry (CollectCall text) ok
      record { args = args; values = vs; selected = selected; decoded = decoded; read = read }

-- An accepted removal is a multicall of two calls and no other: the first, by its selector and its
-- arguments, takes exactly the approved liquidity from the approved position, for the minimums at
-- least, and the second collects from that position to the wallet.
pub decode_v3_remove-IsExit :
    (text : Text) (exit : Exit) (d : Decrease) (c : Collect)
    → decode_v3_remove text exit ≡ some (d, c)
    → RemoveCall text d c
      × IsExit exit d.token_id d.liquidity d.min0 d.min1
      × IsCollected exit.token_id exit.wallet c
unfolding decode_v3_remove
decode_v3_remove-IsExit text exit d c ok =
    let out : Decrease × Collect = (d, c) in
    let (args, is_multicall, ok) = bind-some (lp_selector text v3_multicall) _ out ok in
    let (vs, decoded, ok) = bind-some (abi_decode (bytes_list_type ∷ []) args) _ out ok in
    let ((x, y), two, ok) = bind-some (two_calls vs) _ out ok in
    let (dec_args, dec_call, ok) = bind-some (lp_selector x v3_decrease_liquidity) _ out ok in
    let (ds, dec_values, ok) = bind-some (abi_decode decrease_types dec_args) _ out ok in
    let (e, dec_read, ok) = bind-some (decrease_of ds) _ out ok in
    let (leaves, ok) = guard-some (is_exit e.token_id e.liquidity e.min0 e.min1 exit) _ out ok in
    let (col_args, col_call, ok) = bind-some (lp_selector y v3_collect) _ out ok in
    let (f, h, ok) = bind-some (v3_collect_args col_args exit.token_id exit.wallet) _ out ok in
    some-carry
      (λ (p : Decrease × Collect).
        RemoveCall text p.0 p.1
        × IsExit exit p.0.token_id p.0.liquidity p.0.min0 p.0.min1
        × IsCollected exit.token_id exit.wallet p.1)
      ok
      (
        record {
          args = args;
          first_call = x;
          second_call = y;
          selected = lp_selector-split text v3_multicall args is_multicall;
          decoded = decoded ∙ ap some (two_calls-some vs x y two);
          decreases = record {
            args = dec_args;
            values = ds;
            selected = lp_selector-split x v3_decrease_liquidity dec_args dec_call;
            decoded = dec_values;
            read = dec_read;
          };
          collects =
              v3_collect_args-CollectCall y col_args exit.token_id exit.wallet f
                (lp_selector-split y v3_collect col_args col_call) h;
        },
        is_exit-IsExit exit e.token_id e.liquidity e.min0 e.min1 leaves,
        v3_collect_args-IsCollected col_args exit.token_id exit.wallet f h,
      )
