-- ===== src/Dex/V4Swap/Endings.antt =====
-- The settle and the take behind the swaps of a V4_SWAP that dex.py accepts.
use mathlib.Core.Option.{some-injective}
use spellbook.Prelude.{
  List, ℕ, ◌≡◌, ◌⊎◌, inl, inr, refl, ap, ◌∙◌, sym, subst, Bool, true, false, ◌||◌, Option, some, [],
  ◌∷◌, ◌==◌, leb, ltb, length, number_IsKey, nat_beq_iff, bytes_IsKey, bytes_same_iff, arith,
  if◌then◌else◌, Bool-cases,
}
use spellbook.Prelude.Options.{bind-some, guard-some, both, if_true, if_false}
use spellbook.Prelude.Codes.{lower_text}
use spellbook.Streamable.Bytes.{Bytes}
use spellbook.Streamable.Utf8.{Text}
use spellbook.Dex.Tokens.{is_native_token, same_token}
use spellbook.Dex.Settler.{Bounds}
use spellbook.Dex.Layout.{word_at, word_addr, word_bool}
use spellbook.Dex.V4Swap.{bound_endings, ur_msg_sender, is_settle_action, is_ending, ending_of}
use spellbook.Dex.V4Swap.Sale.{IsEnding, SettleKind, IsSettle, TakeKind, IsTake}

-- The two actions behind the swaps.
pub ending-kinds :
    (a b : ℕ)
    → is_ending (a ∷ b ∷ []) ≡ true
    → ((is_settle_action a ≡ true) × ((b ≡ 14) ⊎ (b ≡ 15)))
      ⊎ (((a ≡ 14) ⊎ (a ≡ 15)) × (is_settle_action b ≡ true))
ending-kinds a b h = elim (Bool-cases (leb a b)) [
  | inl e ↦
      let (settles, takes) = both (is_settle_action a) (b == 14 || b == 15) (rw e at h) in
      inl (
        settles,
        elim (Bool-cases (b == 14)) [
          | inl x ↦ inl ((nat_beq_iff b 14).0 x)
          | inr x ↦ inr ((nat_beq_iff b 15).0 (rw x at takes))
        ],
      )
  | inr e ↦
      let (settles, takes) = both (is_settle_action b) (a == 14 || a == 15) (rw e at h) in
      inr (
        elim (Bool-cases (a == 14)) [
          | inl x ↦ inl ((nat_beq_iff a 14).0 x)
          | inr x ↦ inr ((nat_beq_iff a 15).0 (rw x at takes))
        ],
        settles,
      )
]

other_settle : (a : ℕ) → is_settle_action a ≡ true → (a == 11) ≡ false → a ≡ 12
other_settle a h e = ground arith

amount_is :
    (o : Option ℕ) (amt sold : ℕ)
    → o ≡ some amt
    → (amt == 0 || amt == sold) ≡ true
    → (o ≡ some 0) ⊎ (o ≡ some sold)
amount_is o amt sold e h = elim (Bool-cases (amt == 0)) [
  | inl x ↦ inl (e ∙ ap some ((nat_beq_iff amt 0).0 x))
  | inr x ↦ inr (e ∙ ap some ((nat_beq_iff amt sold).0 (rw x at h)))
]

payer_is :
    (native : Bool) (o : Option Bool) (payer : Bool)
    → o ≡ some payer
    → (native || payer) ≡ true
    → (native ≡ true) ⊎ (o ≡ some true)
payer_is true o payer e h = inl refl
payer_is false o payer e h = inr (e ∙ ap some h)

settled :
    (bounds : Bounds) (sold least a : ℕ) (p : Bytes) (c cur : Text) (next : ℕ)
    → ◌≡◌ {A = Text × ℕ} (c, least) (cur, next)
    → word_addr p 0 ≡ some c
    → same_token cur bounds.sell_token ≡ true
    → SettleKind bounds sold a p
    → IsSettle bounds sold a p × (next ≡ least)
settled bounds sold least a p c cur next e currency same kind = (
  record {
    cur = cur;
    currency = currency ∙ ap (λ (x : Text × ℕ). some x.0) e;
    sells = same;
    kind = kind;
  },
  sym (ap (λ (x : Text × ℕ). x.1) e),
)

pub ending_of-IsSettle :
    (bounds : Bounds) (sold least a : ℕ) (p : Bytes) (cur : Text) (next : ℕ)
    → is_settle_action a ≡ true
    → ending_of bounds (lower_text bounds.wallet) sold least a p ≡ some (cur, next)
    → same_token cur bounds.sell_token ≡ true
    → IsSettle bounds sold a p × (next ≡ least)
unfolding ending_of
ending_of-IsSettle bounds sold least a p cur next settles ok same =
    let out : Text × ℕ = (cur, next) in
    elim (Bool-cases (a == 11)) [
      | inl e ↦
          let ok = if_true _ _ _ (some out) e ok in
          let (size, ok) = guard-some (length p == 96) _ out ok in
          let (c, currency, ok) = bind-some (word_addr p 0) _ out ok in
          let (amt, amount, ok) = bind-some (word_at p 32) _ out ok in
          let (payer, paid, ok) = bind-some (word_bool p 64) _ out ok in
          let (owed, ok) = guard-some (amt == 0 || amt == sold) _ out ok in
          let (from, ok) = guard-some (is_native_token bounds.sell_token || payer) _ out ok in
          settled bounds sold least a p c cur next (some-injective _ _ ok) currency same (
            inr (
              (nat_beq_iff a 11).0 e,
              (nat_beq_iff (length p) 96).0 size,
              amount_is (word_at p 32) amt sold amount owed,
              payer_is (is_native_token bounds.sell_token) (word_bool p 64) payer paid from,
            ))
      | inr e ↦
          let twelve = other_settle a settles e in
          let ok = if_false _ _ _ (some out) e ok in
          let ok = if_true _ _ _ (some out) ((nat_beq_iff a 12).1 twelve) ok in
          let (size, ok) = guard-some (length p == 64) _ out ok in
          let (c, currency, ok) = bind-some (word_addr p 0) _ out ok in
          settled bounds sold least a p c cur next (some-injective _ _ ok) currency same
            (inl (twelve, (nat_beq_iff (length p) 64).0 size))
    ]

taken :
    (bounds : Bounds) (out least a : ℕ) (p : Bytes) (c cur : Text) (next : ℕ)
    → ◌≡◌ {A = Text × ℕ} (c, next) (cur, least)
    → word_addr p 0 ≡ some c
    → same_token cur bounds.buy_token ≡ true
    → TakeKind bounds out next a p
    → IsTake bounds out least a p
taken bounds out least a p c cur next e currency same kind = record {
  cur = cur;
  currency = currency ∙ ap (λ (x : Text × ℕ). some x.0) e;
  buys = same;
  kind = subst (λ (n : ℕ). TakeKind bounds out n a p) (ap (λ (x : Text × ℕ). x.1) e) kind;
}

recipient_is :
    (o : Option Text) (rcpt me : Text)
    → o ≡ some rcpt
    → (rcpt == ur_msg_sender || rcpt == me) ≡ true
    → (o ≡ some ur_msg_sender) ⊎ (o ≡ some me)
recipient_is o rcpt me e h = elim (Bool-cases (rcpt == ur_msg_sender)) [
  | inl x ↦ inl (e ∙ ap some ((bytes_same_iff rcpt ur_msg_sender).0 x))
  | inr x ↦ inr (e ∙ ap some ((bytes_same_iff rcpt me).0 (rw x at h)))
]

pub ending_of-IsTake :
    (bounds : Bounds) (sold out a : ℕ) (p : Bytes) (cur : Text) (least : ℕ)
    → (a ≡ 14) ⊎ (a ≡ 15)
    → ending_of bounds (lower_text bounds.wallet) sold out a p ≡ some (cur, least)
    → same_token cur bounds.buy_token ≡ true
    → IsTake bounds out least a p
unfolding ending_of
ending_of-IsTake bounds sold out a p cur least (inl e) ok same =
    let end : Text × ℕ = (cur, least) in
    let ok = rw e at ok in
    let (size, ok) = guard-some (length p == 96) _ end ok in
    let (c, currency, ok) = bind-some (word_addr p 0) _ end ok in
    let (rcpt, to, ok) = bind-some (word_addr p 32) _ end ok in
    let (amt, amount, ok) = bind-some (word_at p 64) _ end ok in
    let (mine, ok) =
      guard-some (rcpt == ur_msg_sender || rcpt == lower_text bounds.wallet) _ end ok in
    let (all, ok) = guard-some (amt == 0) _ end ok in
    taken bounds out least a p c cur out (some-injective _ _ ok) currency same (
      inl (
        e,
        (nat_beq_iff (length p) 96).0 size,
        refl,
        amount ∙ ap some ((nat_beq_iff amt 0).0 all),
        recipient_is (word_addr p 32) rcpt (lower_text bounds.wallet) to mine,
      ))
ending_of-IsTake bounds sold out a p cur least (inr e) ok same =
    let end : Text × ℕ = (cur, least) in
    let ok = rw e at ok in
    let (size, ok) = guard-some (length p == 64) _ end ok in
    let (c, currency, ok) = bind-some (word_addr p 0) _ end ok in
    let (amt, amount, ok) = bind-some (word_at p 32) _ end ok in
    taken bounds out least a p c cur (if ltb out amt then amt else out) (some-injective _ _ ok)
      currency same (inr (e, (nat_beq_iff (length p) 64).0 size, (amt, amount, refl)))

settle-wants :
    (t : Bool) (c sell buy : Text)
    → t ≡ true
    → same_token c (if t then sell else buy) ≡ true
    → same_token c sell ≡ true
settle-wants true c sell buy e h = h
settle-wants false c sell buy e h = cc

take-wants :
    (t : Bool) (c sell buy : Text)
    → t ≡ false
    → same_token c (if t then sell else buy) ≡ true
    → same_token c buy ≡ true
take-wants true c sell buy e h = cc
take-wants false c sell buy e h = h

take-no_settle : (a : ℕ) → (a ≡ 14) ⊎ (a ≡ 15) → is_settle_action a ≡ false
take-no_settle a h = ground arith

-- The two actions, one of each kind.
pub bound_endings-IsEnding :
    (bounds : Bounds) (sold out least : ℕ) (actions : Bytes) (params : List Bytes)
    → is_ending actions ≡ true
    → length actions ≡ length params
    → bound_endings bounds (lower_text bounds.wallet) sold out actions params ≡ some least
    → IsEnding bounds sold out least actions params
unfolding bound_endings
bound_endings-IsEnding bounds sold out least [] ps h same ok = cc
bound_endings-IsEnding bounds sold out least (a ∷ []) ps h same ok = cc
bound_endings-IsEnding bounds sold out least (a ∷ b ∷ c ∷ rest) ps h same ok = cc
bound_endings-IsEnding bounds sold out least (a ∷ b ∷ []) [] h same ok = absurd (omega arith)
bound_endings-IsEnding bounds sold out least (a ∷ b ∷ []) (p ∷ []) h same ok = absurd (omega arith)
bound_endings-IsEnding bounds sold out least (a ∷ b ∷ []) (p ∷ q ∷ r ∷ ps) h same ok =
    absurd (omega arith)
bound_endings-IsEnding bounds sold out least (a ∷ b ∷ []) (p ∷ q ∷ []) h same ok =
    let me = lower_text bounds.wallet in
    let ((c, next), first, ok) = bind-some (ending_of bounds me sold out a p) _ least ok in
    let (want, ok) =
      guard-some (same_token c (if is_settle_action a then bounds.sell_token else bounds.buy_token))
        _ least ok in
    let ((c', last), second, ok) = bind-some (ending_of bounds me sold next b q) _ least ok in
    let (want', ok) =
      guard-some
        (same_token c' (if is_settle_action b then bounds.sell_token else bounds.buy_token)) _ least
        ok in
    let end = some-injective last least ok in
    elim (ending-kinds a b h) [
      | inl (settles, takes) ↦
          let (is_settle, kept) =
            ending_of-IsSettle bounds sold out a p c next settles first (
              settle-wants (is_settle_action a) c bounds.sell_token bounds.buy_token settles
                want) in
          inl (
            is_settle,
            ending_of-IsTake bounds sold out b q c' least takes
                (subst (λ (n : ℕ). ending_of bounds me sold n b q ≡ some (c', least)) kept
                  (second ∙ ap (λ (n : ℕ). some (c', n)) end))
                (take-wants (is_settle_action b) c' bounds.sell_token bounds.buy_token
                  (take-no_settle b takes) want'),
          )
      | inr (takes, settles) ↦
          let (is_settle, kept) = ending_of-IsSettle bounds sold next b q c' last settles second (
            settle-wants (is_settle_action b) c' bounds.sell_token bounds.buy_token settles
              want') in
          inr (
            ending_of-IsTake bounds sold out a p c least takes
                (first ∙ ap (λ (n : ℕ). some (c, n)) (sym kept ∙ end))
                (take-wants (is_settle_action a) c bounds.sell_token bounds.buy_token
                  (take-no_settle a takes) want),
            is_settle,
          )
    ]
