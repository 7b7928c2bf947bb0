-- ===== src/Dex/Builders/Accepted.antt =====
-- What the builders of dex.py make for an approved intent passes the check before it is signed.
use spellbook.Prelude.{
  ℕ, ◌≤◌, ◌≡◌, refl, ◌∙◌, true, Option, none, some, List, [], ◌∷◌, ◌==◌, leb, number_IsKey,
  bytes_IsKey, bytes_same_iff, arith,
}
use spellbook.Prelude.Options.{◌>>=◌, bind-some, bind_of, guard_of}
use spellbook.Prelude.Codes.{lower_text, decimal_from}
use spellbook.Streamable.Utf8.{Text}
use spellbook.Abi.Values.{address, uint, pos, number, str, Kind, Values, nil, cons}
use spellbook.Abi.Types.{parse_types, parse_type, strip_dims, dim_of, kind_of, sized_kind, width}
use spellbook.Dex.Tokens.{require_positive_int}
use spellbook.Dex.Words.{u256, u128, addr}
use spellbook.Dex.Calls.{v3_collect, v2_add_liquidity, lp_selector, abi_decode}
use spellbook.Dex.Liquidity.{are_erc20, v2_add_types, Legs, decode_v2_add_liquidity}
use spellbook.Dex.Positions.{collect_types, v3_collect_args, decode_v3_collect}
use spellbook.Dex.Builders.{build_v3_collect, build_v2_add_liquidity}
use spellbook.Dex.Builders.Words.{u256-IsWord, u128-IsWord}
use spellbook.Dex.Builders.Decoded.{addr-IsWord, statics, static_call-decodes}

same_text : (s : Text) → (s == s) ≡ true
same_text s = (bytes_same_iff s s).1 refl

same_number : (n : ℕ) → (n == n) ≡ true
same_number n = ground arith

le : (m n : ℕ) → m ≤ n → leb m n ≡ true
le m n h = ground arith

bind_through {ℓ} :
    {A B C : Type ℓ} (m : Option A) (f : A → Option B) (g : B → Option C) (b : B)
    → (m >>= f) ≡ some b
    → (m >>= λ a. (f a >>= g)) ≡ g b
bind_through none f g b h = absurd cc
bind_through (some a) f g b h = bind_of (f a) g b h

parse_types-collect_kinds :
    parse_types collect_types ≡ some (statics (uint 256 ∷ address ∷ uint 128 ∷ uint 128 ∷ []))
unfolding parse_types parse_type strip_dims dim_of kind_of sized_kind width decimal_from
parse_types-collect_kinds = refl

-- A claim that is built for a position and a wallet is accepted for them.
pub decode_v3_collect-build_v3_collect :
    (token_id : ℕ) (wallet : Text) (max0 max1 : ℕ) (text : Text)
    → build_v3_collect token_id wallet max0 max1 ≡ some text
    → decode_v3_collect text token_id wallet
      ≡ some record { token_id = token_id; recipient = lower_text wallet; max0 = max0; max1 = max1 }
unfolding build_v3_collect decode_v3_collect v3_collect_args
decode_v3_collect-build_v3_collect token_id wallet max0 max1 text ok =
    let (_, _, ok) = bind-some (require_positive_int token_id) _ text ok in
    let cs : Values =
      cons (number (pos token_id)) (
        cons (str (lower_text wallet)) (cons (number (pos max0)) (cons (number (pos max1)) nil))) in
    let decodes =
      static_call-decodes v3_collect (u256 token_id ∷ addr wallet ∷ u128 max0 ∷ u128 max1 ∷ []) text
        collect_types (uint 256 ∷ address ∷ uint 128 ∷ uint 128 ∷ [])
        (cons (number (pos token_id))
          (cons (str wallet) (cons (number (pos max0)) (cons (number (pos max1)) nil))))
        cs refl refl parse_types-collect_kinds refl
        (u256-IsWord token_id, (addr-IsWord wallet, (u128-IsWord max0, (u128-IsWord max1, tt))))
        ok in
    bind_through (lp_selector text v3_collect) (abi_decode collect_types) _ cs decodes
    ∙ (guard_of (token_id == token_id) _ (same_number token_id)
        ∙ guard_of (lower_text wallet == lower_text wallet) _ (same_text (lower_text wallet)))

abbrev add_kinds : List Kind
add_kinds = address ∷ address ∷ uint 256 ∷ uint 256 ∷ uint 256 ∷ uint 256 ∷ address ∷ uint 256 ∷ []

parse_types-add_kinds : parse_types v2_add_types ≡ some (statics add_kinds)
unfolding parse_types parse_type strip_dims dim_of kind_of sized_kind width decimal_from
parse_types-add_kinds = refl

-- The values of an addition, as they are given or as they are decoded.
abbrev add_values : Text → Text → ℕ → ℕ → ℕ → ℕ → Text → ℕ → Values
add_values a b a_des b_des a_min b_min to deadline = cons (str a) (
    cons (str b) (
      cons (number (pos a_des)) (
        cons (number (pos b_des)) (
          cons (number (pos a_min))
            (cons (number (pos b_min)) (cons (str to) (cons (number (pos deadline)) nil)))))))

-- An addition that is built for two ERC-20 tokens and the wallet is accepted where the desired amounts
-- are within the caps and the minimums are not below the approved ones.
pub decode_v2_add_liquidity-build_v2_add_liquidity :
    (legs : Legs) (a_des b_des a_min b_min deadline : ℕ) (text : Text)
    → are_erc20 legs.token_a legs.token_b ≡ true
    → a_des ≤ legs.a_cap
    → b_des ≤ legs.b_cap
    → legs.a_min ≤ a_min
    → legs.b_min ≤ b_min
    → build_v2_add_liquidity legs.token_a legs.token_b a_des b_des a_min b_min legs.wallet deadline
      ≡ some text
    → decode_v2_add_liquidity text legs
      ≡ some record {
        token_a = lower_text legs.token_a;
        token_b = lower_text legs.token_b;
        a_desired = a_des;
        b_desired = b_des;
        a_min = a_min;
        b_min = b_min;
        to = lower_text legs.wallet;
        deadline = deadline;
      }
unfolding build_v2_add_liquidity decode_v2_add_liquidity
decode_v2_add_liquidity-build_v2_add_liquidity legs a_des b_des a_min b_min deadline text erc20 h k
      l m ok =
    let (_, _, ok) = bind-some (require_positive_int a_des) _ text ok in
    let (_, _, ok) = bind-some (require_positive_int b_des) _ text ok in
    let (_, _, ok) = bind-some (require_positive_int deadline) _ text ok in
    let a = lower_text legs.token_a in
    let b = lower_text legs.token_b in
    let to = lower_text legs.wallet in
    let cs : Values = add_values a b a_des b_des a_min b_min to deadline in
    let decodes =
      static_call-decodes v2_add_liquidity
        (addr legs.token_a
          ∷ addr legs.token_b
          ∷ u256 a_des
          ∷ u256 b_des
          ∷ u256 a_min
          ∷ u256 b_min
          ∷ addr legs.wallet
          ∷ u256 deadline
          ∷ [])
        text v2_add_types add_kinds
        (add_values legs.token_a legs.token_b a_des b_des a_min b_min legs.wallet deadline) cs refl
        refl parse_types-add_kinds refl
        (
          addr-IsWord legs.token_a,
          (
            addr-IsWord legs.token_b,
            (
              u256-IsWord a_des,
              (
                u256-IsWord b_des,
                (
                  u256-IsWord a_min,
                  (u256-IsWord b_min, (addr-IsWord legs.wallet, (u256-IsWord deadline, tt))),
                ),
              ),
            ),
          ),
        )
        ok in
    guard_of (are_erc20 legs.token_a legs.token_b) _ erc20
    ∙ (bind_through (lp_selector text v2_add_liquidity) (abi_decode v2_add_types) _ cs decodes
        ∙ rw (
          same_text a,
          same_text b,
          le a_des legs.a_cap h,
          le b_des legs.b_cap k,
          le legs.a_min a_min l,
          le legs.b_min b_min m,
          same_text to,
        ))
