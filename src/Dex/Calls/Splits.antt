-- ===== src/Dex/Calls/Splits.antt =====
-- What `_lp_selector` of dex.py shows of a call.
use spellbook.Prelude.{◌≡◌, subst, some, ◌==◌, bytes_IsKey, bytes_same_iff}
use spellbook.Prelude.Options.{bind-some, guard-some, some-carry}
use spellbook.Streamable.Utf8.{Text}
use spellbook.Dex.Calls.{split_selector, lp_selector}

-- The call has the selector that is wanted, and its arguments behind it.
pub lp_selector-split :
    (text want args : Text)
    → lp_selector text want ≡ some args
    → split_selector text ≡ some (want, args)
unfolding lp_selector
lp_selector-split text want args ok =
    let ((sel, rest), split, ok) = bind-some (split_selector text) _ args ok in
    let (same, ok) = guard-some (sel == want) _ args ok in
    some-carry (λ (x : Text). split_selector text ≡ some (want, x)) ok
      (subst (λ (s : Text). split_selector text ≡ some (s, rest)) ((bytes_same_iff sel want).0 same)
        split)
