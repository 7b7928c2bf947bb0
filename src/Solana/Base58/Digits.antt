-- ===== src/Solana/Base58/Digits.antt =====
-- The digits of a number and the number of some digits, in src/spellbook/solana.py.
use mathlib.Core.List.{append_assoc, append-nil}
use native.Mathlib.Nat.{
  div-eq_of_lt, div-lt_self, add_comm, add-mul-div_right, zero-add, mul-le-mul_left, mod-lt,
  mod-add-div', add-mul-mod_self_right, mod-eq_of_lt,
}
use spellbook.Prelude.{
  subst, All, All-append, ℕ, zero, suc, ◌+◌, ◌*◌, ◌/◌, ◌%◌, ◌<◌, ◌≤◌, ◌≡◌, refl, sym, ap, ◌∙◌, true,
  false, Bool-cases, inl, inr, List, [], ◌∷◌, ◌++◌, ◌==◌, number_IsKey, arith,
}
use spellbook.Solana.Base58.{leading, digits_from, digits, value_onto}

pub value_onto-append :
    (base n : ℕ) (xs ys : List ℕ)
    → value_onto base n (xs ++ ys) ≡ value_onto base (value_onto base n xs) ys
unfolding value_onto
value_onto-append base n [] ys = refl
value_onto-append base n (x ∷ xs) ys = value_onto-append base (n * base + x) xs ys

module _ (base fuel n : ℕ) where
  digits_from-none : (n == 0) ≡ true → digits_from base (suc fuel) n ≡ []
  unfolding digits_from
  digits_from-none h =
      ap (λ t. elim t [ true ↦ [] | false ↦ digits_from base fuel (n / base) ++ n % base ∷ [] ]) h

  digits_from-turn :
      (n == 0) ≡ false
      → digits_from base (suc fuel) n ≡ digits_from base fuel (n / base) ++ n % base ∷ []
  unfolding digits_from
  digits_from-turn h =
      ap (λ t. elim t [ true ↦ [] | false ↦ digits_from base fuel (n / base) ++ n % base ∷ [] ]) h

module _ (base : ℕ) (big : 2 ≤ base) where
  quotient_le : (n k : ℕ) → n ≤ suc k → n / base ≤ k
  quotient_le zero k h = omega (arith, div-eq_of_lt {n = 0} {m = base} (omega arith))
  quotient_le (suc n) k h =
      omega (arith, div-lt_self {n = suc n} {k = base} (omega arith) (omega arith))

  is_zero : (n : ℕ) → (n == 0) ≡ true → n ≡ 0
  is_zero n h = ground arith

  value_onto-digits_from : (fuel n : ℕ) → n ≤ fuel → value_onto base 0 (digits_from base fuel n) ≡ n
  unfolding value_onto digits_from
  value_onto-digits_from zero n h = omega arith
  value_onto-digits_from (suc fuel) n h = elim (Bool-cases (n == 0)) [
    | inl nil ↦ ap (value_onto base 0) (digits_from-none base fuel n nil) ∙ sym (is_zero n nil)
    | inr more ↦
        ap (value_onto base 0) (digits_from-turn base fuel n more)
        ∙ value_onto-append base 0 (digits_from base fuel (n / base)) (n % base ∷ [])
        ∙ ap (λ m. m * base + n % base)
            (value_onto-digits_from fuel (n / base) (quotient_le n fuel h))
        ∙ omega (arith, mod-add-div' n base)
  ]

  zero_digits : (n : ℕ) → n ≡ 0 → (g : ℕ) → [] ≡ digits_from base g n
  unfolding digits_from
  zero_digits n h zero = refl
  zero_digits n h (suc g) = rw h refl

  digits_from-fuel : (f g n : ℕ) → n ≤ f → n ≤ g → digits_from base f n ≡ digits_from base g n
  unfolding digits_from
  digits_from-fuel zero zero n h k = refl
  digits_from-fuel zero (suc g) n h k = zero_digits n (omega arith) (suc g)
  digits_from-fuel (suc f) zero n h k = sym (zero_digits n (omega arith) (suc f))
  digits_from-fuel (suc f) (suc g) n h k = elim (Bool-cases (n == 0)) [
    | inl nil ↦ digits_from-none base f n nil ∙ sym (digits_from-none base g n nil)
    | inr more ↦
        digits_from-turn base f n more
        ∙ ap (λ ds. ds ++ n % base ∷ [])
            (digits_from-fuel f g (n / base) (quotient_le n f h) (quotient_le n g k))
        ∙ sym (digits_from-turn base g n more)
  ]

  nonzero : (n : ℕ) → 1 ≤ n → (n == 0) ≡ false
  nonzero n h = ground arith

  quotient_of : (m x : ℕ) → x < base → (m * base + x) / base ≡ m
  quotient_of m x h =
      ap (λ n. n / base) (add_comm (m * base) x)
      ∙ add-mul-div_right x m (omega arith)
      ∙ ap (λ n. n + m) (div-eq_of_lt h)
      ∙ zero-add m

  remainder_of : (m x : ℕ) → x < base → (m * base + x) % base ≡ x
  remainder_of m x h =
      ap (λ n. n % base) (add_comm (m * base) x) ∙ add-mul-mod_self_right x m base ∙ mod-eq_of_lt h

  below : (m x : ℕ) → m ≤ m * base + x
  below m x = omega (arith, mul-le-mul_left m big)

  -- One digit more.
  digits-next :
      (m x : ℕ) → x < base → 1 ≤ m * base + x → digits base (m * base + x) ≡ digits base m ++ x ∷ []
  unfolding digits
  digits-next m x h k =
      let n : ℕ = m * base + x in
      let q : n / base ≡ m = quotient_of m x h in
      let r : n % base ≡ x = remainder_of m x h in
      digits_from-fuel n (suc n) n (omega arith) (omega arith)
      ∙ digits_from-turn base n n (nonzero n k)
      ∙ ap (λ d. digits_from base n (n / base) ++ d ∷ []) r
      ∙ ap (λ d. digits_from base n d ++ x ∷ []) q
      ∙ ap (λ ds. ds ++ x ∷ []) (digits_from-fuel n m m (below m x) (omega arith))

  pub digits-one : (x : ℕ) → 1 ≤ x → x < base → digits base x ≡ x ∷ []
  digits-one x h k =
      ap (digits base) (omega arith)
      ∙ digits-next 0 x k (omega arith)
      ∙ (unfold digits digits_from in refl)

  pub digits-value_onto :
      (m : ℕ) (xs : List ℕ)
      → All (λ x. x < base) xs
      → 1 ≤ m
      → digits base (value_onto base m xs) ≡ digits base m ++ xs
  unfolding value_onto
  digits-value_onto m [] h k = sym (append-nil (digits base m))
  digits-value_onto m (x ∷ xs) h k =
      digits-value_onto (m * base + x) xs h.1 (omega (arith, below m x))
      ∙ ap (λ ds. ds ++ xs) (digits-next m x h.0 (omega (arith, below m x)))
      ∙ append_assoc (digits base m) (x ∷ []) xs

-- The digits are those of the number.
pub value_onto-digits : (base n : ℕ) → 2 ≤ base → value_onto base 0 (digits base n) ≡ n
unfolding digits
value_onto-digits base n big = value_onto-digits_from base big n n (omega arith)

-- The digits are below the base.
pub digits_from-below : (base fuel n : ℕ) → 1 ≤ base → All (λ d. d < base) (digits_from base fuel n)
unfolding digits_from
digits_from-below base zero n big = tt
digits_from-below base (suc fuel) n big = elim (Bool-cases (n == 0)) [
  | inl nil ↦ subst (All (λ d. d < base)) (sym (digits_from-none base fuel n nil)) tt
  | inr more ↦ subst (All (λ d. d < base)) (sym (digits_from-turn base fuel n more)) (
      All-append (λ d. d < base) (digits_from base fuel (n / base)) (n % base ∷ [])
        (digits_from-below base fuel (n / base) big) (mod-lt n big, tt))
]

leading-append :
    (xs ys : List ℕ) → leading 0 xs ≡ 0 → (xs ≡ [] → leading 0 ys ≡ 0) → leading 0 (xs ++ ys) ≡ 0
unfolding leading
leading-append [] ys h k = k refl
leading-append (x ∷ xs) ys h k = ground arith

last_digit : (base n : ℕ) → (n == 0) ≡ false → n / base ≡ 0 → leading 0 (n % base ∷ []) ≡ 0
unfolding leading
last_digit base n more none_left = ground (arith, mod-add-div' n base)

-- The first digit is not zero.
pub digits_from-first :
    (base fuel n : ℕ) → 2 ≤ base → n ≤ fuel → leading 0 (digits_from base fuel n) ≡ 0
unfolding digits_from leading value_onto
digits_from-first base zero n big h = refl
digits_from-first base (suc fuel) n big h =
    let left : n / base ≤ fuel = quotient_le base big n fuel h in
    elim (Bool-cases (n == 0)) [
      | inl nil ↦ ap (leading 0) (digits_from-none base fuel n nil)
      | inr more ↦
          ap (leading 0) (digits_from-turn base fuel n more)
          ∙ leading-append (digits_from base fuel (n / base)) (n % base ∷ [])
              (digits_from-first base fuel (n / base) big left)
              (λ e. last_digit base n more (
                sym (value_onto-digits_from base big fuel (n / base) left)
                ∙ ap (value_onto base 0) e))
    ]
