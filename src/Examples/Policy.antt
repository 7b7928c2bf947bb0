-- ===== src/Examples/Policy.antt =====
-- The policy's theorems at a concrete policy.
use spellbook.Prelude.{◌≡◌, refl, ◌↔◌, some, [], ◌∷◌, ◌≤◌, ◌<◌, ◌⊎◌, text_IsKey}
use spellbook.Policy.{evaluate, key_IsKey, denied, velocity_breached}
use spellbook.Policy.Spec.{IsApproved, IsDenied, Off, evaluate-IsApproved, evaluate-IsDenied}
use spellbook.Examples.Sample.{small_policy}

evaluate-IsApproved_example :
    IsApproved (evaluate small_policy "evm-1" "native" 3 "0xb" 9) ↔ ((3 ≤ 4) × (3 ≤ 10) × (12 ≤ 12))
evaluate-IsApproved_example = evaluate-IsApproved small_policy "evm-1" "native" 3 "0xb" 9

evaluate-IsDenied_example :
    IsDenied (evaluate small_policy "evm-1" "native" 5 "0xb" 0)
    ↔ ((10 < 5) ⊎ ((12 < 5) ⊎ (Off "0xb" (some ("0xa" ∷ [])) × ¬ (5 ≤ 4))))
evaluate-IsDenied_example = evaluate-IsDenied small_policy "evm-1" "native" 5 "0xb" 0

three-IsApproved : IsApproved (evaluate small_policy "evm-1" "native" 3 "0xb" 9)
unfolding evaluate
three-IsApproved = tt

-- The cap of a day denies what the other limits would approve.
four_denied : evaluate small_policy "evm-1" "native" 4 "0xa" 9 ≡ denied velocity_breached
unfolding evaluate
four_denied = refl
