-- ===== src/Streamable/Clvm/Scanner.antt =====
-- The scanner of Clvm: it ends within its fuel and its buffer, and what follows a program does not
-- change where it ends.
use mathlib.Core.Option.{some-injective}
use spellbook.Prelude.{
  ℕ, zero, suc, ◌+◌, ◌-◌, ◌≤◌, ◌<◌, ◌≡◌, ◌≢◌, refl, sym, ap, ◌∙◌, none, some, List, [], ◌∷◌, ◌++◌,
  number_IsKey, length, take, drop, length-append, Option-cases, arith, inl, inr,
}
use spellbook.Streamable.Bytes.{Bytes}
use spellbook.Streamable.Clvm.{
  leading_ones, sized_total, atom_total, clvm_step, Scan, ended, malformed, out_of_fuel, clvm_loop,
  ended_at, clvm_program_length,
}

leading_ones-pos : (fuel b : ℕ) → 128 ≤ b → 1 ≤ leading_ones (suc fuel) b
unfolding leading_ones
leading_ones-pos fuel b h = ground arith

sized-bounds :
    (n b0 : ℕ) (s : Bytes) (total : ℕ)
    → sized_total n b0 s ≡ some total
    → (n ≤ total) × (total ≤ suc (length s))
unfolding sized_total
sized-bounds n b0 s total h = ground arith

total-bounds :
    (b0 : ℕ) (s : Bytes) (n : ℕ) → atom_total (b0 ∷ s) ≡ some n → (1 ≤ n) × (n ≤ suc (length s))
unfolding atom_total
total-bounds b0 s n h =
    ground (arith, leading_ones-pos 7 b0, sized-bounds (leading_ones 8 b0) b0 s n)

abbrev pub IsMove : Bytes → ℕ × ℕ → Type 0
IsMove s move = (1 ≤ move.0) × (move.0 ≤ length s)

pub step-IsMove : (s : Bytes) (n c : ℕ) → clvm_step s ≡ some (n, c) → IsMove s (n, c)
unfolding clvm_step
step-IsMove [] n c h = cc
step-IsMove (b0 ∷ s) n c h = ground (arith, total-bounds b0 s n)

take-append_left : {A : Type 0} (n : ℕ) (s t : List A) → n ≤ length s → take n (s ++ t) ≡ take n s
take-append_left zero s t h = refl
take-append_left (suc n) [] t h = absurd (omega arith)
take-append_left (suc n) (x ∷ s) t h = ap (λ r. x ∷ r) (take-append_left n s t (omega arith))

drop-append_left :
    {A : Type 0} (n : ℕ) (s t : List A) → n ≤ length s → drop n (s ++ t) ≡ drop n s ++ t
drop-append_left zero s t h = refl
drop-append_left (suc n) [] t h = absurd (omega arith)
drop-append_left (suc n) (x ∷ s) t h = drop-append_left n s t (omega arith)

sized-append :
    (n b0 : ℕ) (s t : Bytes) (total : ℕ)
    → sized_total n b0 s ≡ some total
    → sized_total n b0 (s ++ t) ≡ some total
unfolding sized_total
sized-append n b0 s t total h = ground (arith, length-append s t, take-append_left (n - 1) s t)

total-append :
    (b0 : ℕ) (s t : Bytes) (n : ℕ)
    → atom_total (b0 ∷ s) ≡ some n
    → atom_total (b0 ∷ s ++ t) ≡ some n
unfolding atom_total
total-append b0 s t n h = ground (arith, sized-append (leading_ones 8 b0) b0 s t n)

pub step-append :
    (s t : Bytes) (n c : ℕ) → clvm_step s ≡ some (n, c) → clvm_step (s ++ t) ≡ some (n, c)
unfolding clvm_step
step-append [] t n c h = cc
step-append (b0 ∷ s) t n c h = ground (arith, total-append b0 s t n)

length-drop : {A : Type 0} (n : ℕ) (s : List A) → n ≤ length s → length (drop n s) + n ≡ length s
length-drop zero s h = omega arith
length-drop (suc n) [] h = absurd (omega arith)
length-drop (suc n) (x ∷ s) h = omega (arith, length-drop n s (omega arith))

pub loop-turn :
    (fuel pending pos : ℕ) (s : Bytes) (n c : ℕ)
    → clvm_step s ≡ some (n, c)
    → clvm_loop (suc fuel) (suc pending) pos s ≡ clvm_loop fuel (c + pending) (pos + n) (drop n s)
unfolding clvm_loop
loop-turn fuel pending pos s n c h =
    ap
      (λ r. elim r [
        | none ↦ malformed
        | some (n, children) ↦ clvm_loop fuel (children + pending) (pos + n) (drop n s)
      ])
      h

loop-stop :
    (fuel pending pos : ℕ) (s : Bytes)
    → clvm_step s ≡ none
    → clvm_loop (suc fuel) (suc pending) pos s ≡ malformed
unfolding clvm_loop
loop-stop fuel pending pos s h =
    ap
      (λ r. elim r [
        | none ↦ malformed
        | some (n, children) ↦ clvm_loop fuel (children + pending) (pos + n) (drop n s)
      ])
      h

-- With more fuel than bytes, the loop never runs out of it.
pub loop-total :
    (fuel pending pos : ℕ) (s : Bytes)
    → length s < fuel
    → clvm_loop fuel pending pos s ≢ out_of_fuel
unfolding clvm_loop
loop-total fuel zero pos s h e = cc
loop-total zero (suc pending) pos s h e = omega arith
loop-total (suc fuel) (suc pending) pos s h e = elim (Option-cases (clvm_step s)) [
  | inl stop ↦ let turn = loop-stop fuel pending pos s stop in cc
  | inr ((n, c), turn) ↦
      let (low, high) = step-IsMove s n c turn in
      loop-total fuel (c + pending) (pos + n) (drop n s) (omega (arith, length-drop n s high))
        (sym (loop-turn fuel pending pos s n c turn) ∙ e)
]

-- The loop ends within the buffer.
pub loop-bounds :
    (fuel pending pos : ℕ) (s : Bytes) (end : ℕ)
    → clvm_loop fuel pending pos s ≡ ended end
    → (pos ≤ end) × (end ≤ pos + length s)
unfolding clvm_loop
loop-bounds fuel zero pos s end h = ground arith
loop-bounds zero (suc pending) pos s end h = cc
loop-bounds (suc fuel) (suc pending) pos s end h = elim (Option-cases (clvm_step s)) [
  | inl stop ↦ absurd (let turn = loop-stop fuel pending pos s stop in cc)
  | inr ((n, c), turn) ↦
      let (low, high) = step-IsMove s n c turn in
      let (after, before) =
        loop-bounds fuel (c + pending) (pos + n) (drop n s) end
          (sym (loop-turn fuel pending pos s n c turn) ∙ h) in
      (omega arith, omega (arith, length-drop n s high))
]

-- More fuel and more bytes do not change where it ends.
pub loop-append :
    (fuel pending pos : ℕ) (s : Bytes) (end : ℕ)
    → clvm_loop fuel pending pos s ≡ ended end
    → (enough : ℕ) (t : Bytes) → fuel ≤ enough
    → clvm_loop enough pending pos (s ++ t) ≡ ended end
unfolding clvm_loop
loop-append fuel zero pos s end h enough t le = h
loop-append zero (suc pending) pos s end h enough t le = cc
loop-append (suc fuel) (suc pending) pos s end h zero t le = absurd (omega arith)
loop-append (suc fuel) (suc pending) pos s end h (suc enough) t le =
    elim (Option-cases (clvm_step s)) [
      | inl stop ↦ absurd (let turn = loop-stop fuel pending pos s stop in cc)
      | inr ((n, c), turn) ↦
          loop-turn enough pending pos (s ++ t) n c (step-append s t n c turn)
          ∙ ap (clvm_loop enough (c + pending) (pos + n))
              (drop-append_left n s t (step-IsMove s n c turn).1)
          ∙ loop-append fuel (c + pending) (pos + n) (drop n s) end
              (sym (loop-turn fuel pending pos s n c turn) ∙ h) enough t (omega arith)
    ]

ended_at-eq-some : (scan : Scan) (n : ℕ) → ended_at scan ≡ some n → scan ≡ ended n
unfolding ended_at
ended_at-eq-some (ended m) n h = ap ended (some-injective m n h)
ended_at-eq-some malformed n h = cc
ended_at-eq-some out_of_fuel n h = cc

-- Where the scanner finds a program at the front of a buffer, bytes after the buffer do not change its
-- length.
pub clvm_program_length-append :
    (s t : Bytes) (n : ℕ) → clvm_program_length s ≡ some n → clvm_program_length (s ++ t) ≡ some n
unfolding clvm_program_length
clvm_program_length-append s t n h =
    ap ended_at (
      loop-append (suc (length s)) 1 0 s n (ended_at-eq-some _ n h) (suc (length (s ++ t))) t
        (omega (arith, length-append s t)))
    ∙ unfold ended_at in refl

program-bounds :
    (s : Bytes) (end : ℕ)
    → clvm_loop (suc (length s)) 1 0 s ≡ ended end
    → (1 ≤ end) × (end ≤ length s)
program-bounds s end h = elim (Option-cases (clvm_step s)) [
  | inl stop ↦ absurd (let turn = loop-stop (length s) 0 0 s stop in cc)
  | inr ((n, c), turn) ↦
      let (low, high) = step-IsMove s n c turn in
      let (after, before) =
        loop-bounds (length s) (c + 0) (0 + n) (drop n s) end
          (sym (loop-turn (length s) 0 0 s n c turn) ∙ h) in
      (omega arith, omega (arith, length-drop n s high))
]

-- The scanner stops on every buffer before its fuel is out, and a length that it returns is at least
-- 1 and within the buffer.
pub clvm_program_length_bounds :
    (s : Bytes)
    → (clvm_loop (suc (length s)) 1 0 s ≢ out_of_fuel)
      × ((n : ℕ) → clvm_program_length s ≡ some n → (1 ≤ n) × (n ≤ length s))
unfolding clvm_program_length
clvm_program_length_bounds s = (
  loop-total (suc (length s)) 1 0 s (omega arith),
  λ n h. program-bounds s n (ended_at-eq-some _ n h),
)
