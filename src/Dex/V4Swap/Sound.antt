-- ===== src/Dex/V4Swap/Sound.antt =====
-- A V4_SWAP that dex.py accepts is a sale.
use spellbook.Prelude.{
  ℕ, zero, suc, ◌≡◌, ◌≢◌, inl, inr, refl, ap, ◌∙◌, true, false, not, ◌&&◌, some, List, [], ◌∷◌,
  ◌==◌, leb, length, take, drop, number_IsKey, nat_beq_iff, bytes_IsKey, bytes_same_iff, arith,
  if◌then◌else◌, Bool-cases,
}
use spellbook.Prelude.Options.{bind-some, guard-some, some-carry, both, if_true, if_false}
use spellbook.Prelude.Codes.{lower_text}
use spellbook.Streamable.Bytes.{Bytes}
use spellbook.Streamable.Utf8.{Text}
use spellbook.Dex.Tokens.{same_token}
use spellbook.Dex.Words.{enc_bytes, enc_bytes_array, dynamic, head_tail}
use spellbook.Dex.Calls.{abi_decode, bytes_of, texts_of, bytes_type, bytes_list_type}
use spellbook.Dex.Settler.{Bounds}
use spellbook.Dex.Layout.{Trade, v4_exact_in_single}
use spellbook.Dex.Layout.Paths.{v4_exact_in}
use spellbook.Dex.V4Swap.{
  is_swap_action, swap_count, is_ending, bytes_each, bound_trade, bound_trades, total_in, total_out,
  bound_endings, actions_of, V4Swap, decode_ur_v4_swap,
}
use spellbook.Dex.V4Swap.Sale.{IsSwap, AreSwaps, IsV4Sale}
use spellbook.Dex.V4Swap.Endings.{bound_endings-IsEnding}

other_swap : (a : ℕ) → is_swap_action a ≡ true → (a == 6) ≡ false → a ≡ 7
other_swap a h e = ground arith

not-zero : (n : ℕ) → not (n == 0) ≡ true → n ≢ 0
not-zero n h e = ground arith

bound_trade-IsSwap :
    (bounds : Bounds) (a : ℕ) (p : Bytes) (t : Trade)
    → is_swap_action a ≡ true
    → bound_trade bounds a p ≡ some t
    → IsSwap bounds a p t
unfolding bound_trade
bound_trade-IsSwap bounds a p t swaps ok =
    let (u, read, ok) = bind-some (if a == 6 then v4_exact_in_single p else v4_exact_in p) _ t ok in
    let (sells, ok) = guard-some (same_token u.token_in bounds.sell_token) _ t ok in
    let (buys, ok) = guard-some (same_token u.token_out bounds.buy_token) _ t ok in
    let (stated, ok) = guard-some (not (u.amount_in == 0)) _ t ok in
    some-carry (IsSwap bounds a p) ok record {
      read = elim (Bool-cases (a == 6)) [
        | inl e ↦ inl ((nat_beq_iff a 6).0 e, if_true _ _ _ _ e read)
        | inr e ↦ inr (other_swap a swaps e, if_false _ _ _ _ e read)
      ];
      sells = sells;
      buys = buys;
      stated = not-zero u.amount_in stated;
    }

bound_trades-AreSwaps :
    (bounds : Bounds) (actions : Bytes) (params : List Bytes) (trades : List Trade)
    → length actions ≡ length params
    → bound_trades bounds (take (swap_count actions) actions) (take (swap_count actions) params)
      ≡ some trades
    → AreSwaps bounds (take (swap_count actions) actions) (take (swap_count actions) params) trades
unfolding bound_trades swap_count
bound_trades-AreSwaps bounds [] [] trades same ok = some-carry (AreSwaps bounds [] []) ok tt
bound_trades-AreSwaps bounds [] (p ∷ params) trades same ok = absurd (omega arith)
bound_trades-AreSwaps bounds (a ∷ actions) [] trades same ok = absurd (omega arith)
bound_trades-AreSwaps bounds (a ∷ actions) (p ∷ params) trades same ok =
    elim (Bool-cases (is_swap_action a)) [
      | inr e ↦ rw e (some-carry (AreSwaps bounds [] []) (rw e at ok) tt)
      | inl e ↦
          let ok = rw e at ok in
          let (t, here, ok) = bind-some (bound_trade bounds a p) _ trades ok in
          let (ts, there, ok) =
            bind-some
              (bound_trades bounds (take (swap_count actions) actions)
                (take (swap_count actions) params))
              _ trades ok in
          rw e (
            some-carry
              (AreSwaps bounds (a ∷ take (swap_count actions) actions)
                (p ∷ take (swap_count actions) params))
              ok
              (
                bound_trade-IsSwap bounds a p t e here,
                bound_trades-AreSwaps bounds actions params ts (omega arith) there,
              ))
    ]

length-drop_eq :
    {A B : Type 0} (n : ℕ) (xs : List A) (ys : List B)
    → length xs ≡ length ys
    → length (drop n xs) ≡ length (drop n ys)
length-drop_eq zero xs ys h = h
length-drop_eq (suc n) [] [] h = refl
length-drop_eq (suc n) [] (y ∷ ys) h = absurd (omega arith)
length-drop_eq (suc n) (x ∷ xs) [] h = absurd (omega arith)
length-drop_eq (suc n) (x ∷ xs) (y ∷ ys) h = length-drop_eq n xs ys (omega arith)

-- An accepted V4_SWAP is the encoding of a sale.
pub decode_ur_v4_swap-IsV4Sale :
    (inp : Text) (bounds : Bounds) (s : V4Swap)
    → decode_ur_v4_swap inp (lower_text bounds.wallet) bounds ≡ some s
    → IsV4Sale bounds inp s
unfolding decode_ur_v4_swap
decode_ur_v4_swap-IsV4Sale inp bounds s ok =
    let me = lower_text bounds.wallet in
    let (vs, _, ok) = bind-some (abi_decode (bytes_type ∷ bytes_list_type ∷ []) inp) _ s ok in
    let ((text, listed), _, ok) = bind-some (actions_of vs) _ s ok in
    let (actions, _, ok) = bind-some (bytes_of text) _ s ok in
    let (texts, _, ok) = bind-some (texts_of listed) _ s ok in
    let (params, _, ok) = bind-some (bytes_each texts) _ s ok in
    let (e, head, ok) = bind-some (enc_bytes actions) _ s ok in
    let (es, tail, ok) = bind-some (enc_bytes_array params) _ s ok in
    let (canon, whole, ok) = bind-some (head_tail (dynamic ∷ dynamic ∷ []) (e ∷ es ∷ [])) _ s ok in
    let (b, bytes, ok) = bind-some (bytes_of inp) _ s ok in
    let (same, ok) = guard-some (canon == b) _ s ok in
    let (sizes, ok) =
      guard-some (length actions == length params && leb 3 (length actions)) _ s ok in
    let n = swap_count actions in
    let (shape, ok) = guard-some (not (n == 0) && is_ending (drop n actions)) _ s ok in
    let (trades, read, ok) =
      bind-some (bound_trades bounds (take n actions) (take n params)) _ s ok in
    let (least, ends, ok) =
      bind-some
        (bound_endings bounds me (total_in trades) (total_out trades) (drop n actions)
          (drop n params))
        _ s ok in
    let lengths : length actions ≡ length params =
      (nat_beq_iff (length actions) (length params)).0 (both _ _ sizes).0 in
    some-carry (IsV4Sale bounds inp) ok record {
      actions = actions;
      params = params;
      head = e;
      tail = es;
      input = b;
      encodes = (head, tail);
      bytes = bytes;
      canonical = whole ∙ ap some ((bytes_same_iff canon b).0 same);
      count = n;
      trades = trades;
      swaps = bound_trades-AreSwaps bounds actions params trades lengths read;
      sold = refl;
      ending =
          bound_endings-IsEnding bounds (total_in trades) (total_out trades) least (drop n actions)
            (drop n params) (both _ _ shape).1 (length-drop_eq n actions params lengths) ends;
    }
