-- ===== src/Dex/Validate/Sound.antt =====
-- What the daemon will sign for an approved swap, according to dex.py.
use spellbook.Prelude.{
  ℕ, ◌^◌, ◌≤◌, ◌<◌, ◌≡◌, refl, sym, subst, ap, ◌∙◌, Bool, true, false, ◌&&◌, Option, none, some,
  ◌==◌, leb, ltb, number_IsKey, bytes_IsKey, bytes_same_iff, arith, if◌then◌else◌, Bool-cases, inl,
  inr,
}
use spellbook.Prelude.Options.{
  bind-some, guard-some, some-carry, bind_same, guard-true, if-some, if_true, if_false,
}
use mathlib.Core.Option.{some-injective}
use spellbook.Prelude.Codes.{lower_text}
use spellbook.Streamable.Utf8.{Text}
use spellbook.Dex.Tokens.{
  Venue, matcha, uniswap, cast, is_native_token, normalize_venue, is_address,
}
use spellbook.Dex.Pins.{Overrides, permit2, approval_spender, universal_router}
use spellbook.Dex.Pins.Accepted.{pinned_contract, require_pinned_member}
use spellbook.Dex.Settler.{Bounds}
use spellbook.Dex.Swap.{Decoded, is_sold, check_swap_approval, check_permit2_approval}
use spellbook.Dex.Validate.{
  Quote, Plan, number_or_zero, filled, or_else, Approval, spender_of, approve, plan_of,
}

and_right : (a b : Bool) → (a && b) ≡ true → b ≡ true
and_right true b h = h
and_right false b h = absurd cc

-- The spender is the pinned one, and the amount is above zero and at most that of the sale.
check_swap_approval-pinned :
    (chain_id : ℕ) (venue_name token spender : Text) (amt : ℕ) (sell_token : Text) (sell_amount : ℕ)
    (overrides : Overrides) (venue : Venue)
    → normalize_venue venue_name ≡ some venue
    → check_swap_approval chain_id venue_name token spender amt sell_token sell_amount overrides
      ≡ some tt
    → (pinned_contract chain_id (approval_spender venue) overrides ≡ some (lower_text spender))
      × (0 < amt)
      × (amt ≤ sell_amount)
unfolding check_swap_approval
check_swap_approval-pinned chain_id venue_name token spender amt sell_token sell_amount overrides
      venue named ok =
    let ok = bind_same (normalize_venue venue_name) _ venue tt named ok in
    let (pinned, h, ok) =
      bind-some (pinned_contract chain_id (approval_spender venue) overrides) _ tt ok in
    let (same, ok) = guard-some (is_address spender && lower_text spender == pinned) _ tt ok in
    let (_, ok) = guard-some (is_sold token sell_token) _ tt ok in
    let amounts = guard-true (ltb 0 amt && leb amt sell_amount) ok in
    (
      subst (λ a. pinned_contract chain_id (approval_spender venue) overrides ≡ some a)
          (sym ((bytes_same_iff (lower_text spender) pinned).0 (and_right _ _ same))) h,
      ground (arith, amounts),
      ground (arith, amounts),
    )

-- The venue's spender, and whether it pulls through Permit2.
abbrev pub router_of : Venue → Text → Option Text
router_of uniswap target = some target
router_of _ target = none

check_permit2_approval-target :
    (chain_id : ℕ) (token target : Text) (amt : ℕ) (sell_token : Text) (sell_amount : ℕ)
    (overrides : Overrides) (router : Text)
    → check_permit2_approval chain_id token target amt sell_token sell_amount overrides
      ≡ some router
    → router ≡ lower_text target
unfolding check_permit2_approval require_pinned_member
check_permit2_approval-target chain_id token target amt sell_token sell_amount overrides router ok =
    let (r, h, ok) =
      bind-some (require_pinned_member chain_id universal_router target overrides) _ router ok in
    let (_, ok) = guard-some (is_sold token sell_token) _ router ok in
    let (_, ok) =
      guard-some (ltb 0 amt && (leb amt sell_amount && ltb amt (2 ^ 160))) _ router ok in
    some-carry (λ r. r ≡ lower_text target) ok (sym (some-injective _ _ (if-some _ _ _ h).1))

spender_of-router :
    (venue : Venue) (chain_id : ℕ) (bounds : Bounds) (target : Text) (named : Option Text)
    (overrides : Overrides) (a : Approval)
    → lower_text target ≡ target
    → spender_of venue chain_id bounds target named overrides ≡ some a
    → a.permit2_spender ≡ router_of venue target
unfolding spender_of
spender_of-router uniswap chain_id bounds target named overrides a low ok =
    let (s, _, ok) =
      bind-some (or_else (filled named) (pinned_contract chain_id permit2 overrides)) _ a ok in
    let (router, h, ok) =
      bind-some
        (check_permit2_approval chain_id bounds.sell_token target bounds.sell_amount
          bounds.sell_token bounds.sell_amount overrides)
        _ a ok in
    some-carry (λ a. a.permit2_spender ≡ some target) ok
      (ap some (
        check_permit2_approval-target chain_id bounds.sell_token target bounds.sell_amount
          bounds.sell_token bounds.sell_amount overrides router h
        ∙ low))
spender_of-router matcha chain_id bounds target named overrides a low ok =
    let (s, _, ok) = bind-some (filled named) _ a ok in
    some-carry (λ a. a.permit2_spender ≡ none) ok refl
spender_of-router cast chain_id bounds target named overrides a low ok =
    let (s, _, ok) = bind-some (filled named) _ a ok in
    some-carry (λ a. a.permit2_spender ≡ none) ok refl

-- What the daemon approves before it sends: nothing for a native sale; for a token's, the spender that
-- is pinned for the venue, exactly the sell amount, and behind Permit2 the router that is called.
abbrev pub IsApproved : ℕ → Bounds → Overrides → Venue → Plan → Type 0
IsApproved chain_id bounds overrides venue p =
    if is_native_token bounds.sell_token
    then (p.allowance_target ≡ none) × (p.approve_amount_wei ≡ 0) × (p.permit2_spender ≡ none)
    else ((spender : Text) × (p.allowance_target ≡ some spender)
        × (pinned_contract chain_id (approval_spender venue) overrides ≡ some spender)
        × (p.approve_amount_wei ≡ bounds.sell_amount)
        × (0 < p.approve_amount_wei)
        × (p.permit2_spender ≡ router_of venue p.to))

-- What a plan takes over from the decoded transaction and the quote.
pub record IsPlanned (tx_text : Text) (quote : Quote) (d : Decoded) (p : Plan) : Type 0 where
  pub decoded : p.decoded ≡ d
  pub to : p.to ≡ d.target
  pub value : p.value_wei ≡ d.value_wei
  pub text : p.data_hex ≡ tx_text
  pub buys : p.buy_amount_wei ≡ number_or_zero quote.buy_amount

approve-pinned :
    (venue_name : Text) (chain_id : ℕ) (bounds : Bounds) (target : Text) (named : Option Text)
    (overrides : Overrides) (venue : Venue) (a : Approval)
    → normalize_venue venue_name ≡ some venue
    → lower_text target ≡ target
    → approve venue_name chain_id bounds target named overrides ≡ some a
    → (pinned_contract chain_id (approval_spender venue) overrides ≡ some a.spender)
      × (0 < bounds.sell_amount)
      × (a.permit2_spender ≡ router_of venue target)
unfolding approve
approve-pinned venue_name chain_id bounds target named overrides venue a is low ok =
    let ok = bind_same (normalize_venue venue_name) _ venue a is ok in
    let (b, h, ok) = bind-some (spender_of venue chain_id bounds target named overrides) _ a ok in
    let (_, ok) = guard-some (is_address b.spender) _ a ok in
    let (_, checked, ok) =
      bind-some
        (check_swap_approval chain_id venue_name bounds.sell_token b.spender bounds.sell_amount
          bounds.sell_token bounds.sell_amount overrides)
        _ a ok in
    let (pinned, above, _) =
      check_swap_approval-pinned chain_id venue_name bounds.sell_token b.spender bounds.sell_amount
        bounds.sell_token bounds.sell_amount overrides venue is checked in
    some-carry
      (λ a.
        (pinned_contract chain_id (approval_spender venue) overrides ≡ some a.spender)
        × (0 < bounds.sell_amount)
        × (a.permit2_spender ≡ router_of venue target))
      ok (pinned, above, spender_of-router venue chain_id bounds target named overrides b low h)

pub plan_of-IsPlanned :
    (venue_name : Text) (chain_id : ℕ) (bounds : Bounds) (text : Text) (quote : Quote)
    (overrides : Overrides) (venue : Venue) (d : Decoded) (p : Plan)
    → normalize_venue venue_name ≡ some venue
    → lower_text d.target ≡ d.target
    → plan_of venue_name chain_id bounds text quote overrides d ≡ some p
    → IsPlanned text quote d p × IsApproved chain_id bounds overrides venue p
unfolding plan_of
plan_of-IsPlanned venue_name chain_id bounds text quote overrides venue d p is low ok =
    elim (Bool-cases (is_native_token bounds.sell_token)) [
      | inl native ↦
          some-carry (λ p. IsPlanned text quote d p × IsApproved chain_id bounds overrides venue p)
            (if_true _ _ _ _ native ok)
            (
              record { decoded = refl; to = refl; value = refl; text = refl; buys = refl },
              rw native (refl, refl, refl),
            )
      | inr token ↦
          let ok = if_false _ _ _ _ token ok in
          let (a, h, ok) =
            bind-some (approve venue_name chain_id bounds d.target quote.allowance_target overrides)
              _ p ok in
          let (pinned, above, router) =
            approve-pinned venue_name chain_id bounds d.target quote.allowance_target overrides
              venue a is low h in
          some-carry (λ p. IsPlanned text quote d p × IsApproved chain_id bounds overrides venue p)
            ok
            (
              record { decoded = refl; to = refl; value = refl; text = refl; buys = refl },
              rw token (a.spender, refl, pinned, refl, above, router),
            )
    ]
