-- ===== src/ChiaSign/Framing.antt =====
-- The relay's scanner finds the end of every program that the signer serializes.
use spellbook.Prelude.{
  ℕ, zero, suc, ◌+◌, ◌-◌, ◌/◌, ◌%◌, ◌^◌, ◌≤◌, ◌<◌, ◌≡◌, refl, ap, ◌∙◌, sym, Bool, true, false, none,
  some, [], ◌∷◌, ◌++◌, arith, ltb, length, take, length-append, drop-append, ◌==◌, number_IsKey,
  subst, if◌then◌else◌,
}
use mathlib.Core.List.{append_assoc, append-nil}
use mathlib.Core.Option.{some-injective}
use spellbook.Streamable.Bytes.{Bytes, from_be_onto, Encoded, ◌<>◌, <>-eq-some}
use spellbook.Streamable.Clvm.{
  leading_ones, sized_total, atom_total, clvm_step, Scan, ended, clvm_loop, ended_at,
  clvm_program_length, enc_program, is_length,
}
use spellbook.Streamable.Clvm.Scanner.{loop-turn}
use spellbook.ChiaSign.{Sexp, atom, cons, is_small, ser_atom, ser}
use spellbook.ChiaSign.Writer.{tree, ser-tree}

ones_short : (n : ℕ) → n < 64 → leading_ones 8 (128 + n) ≡ 1
unfolding leading_ones
ones_short n h = ground arith

ones_long : (h : ℕ) → h < 32 → leading_ones 8 (192 + h) ≡ 2
unfolding leading_ones
ones_long h le = ground arith

-- The scanner's turn on an atom moves over its bytes.
IsAtom : Bytes → Type 0
IsAtom p = (rest : Bytes) → clvm_step (p ++ rest) ≡ some (length p, 0)

small-IsAtom : (blob : Bytes) → is_small blob ≡ true → IsAtom blob
unfolding is_small IsAtom clvm_step
small-IsAtom [] h rest = cc
small-IsAtom (b ∷ []) h rest = ground arith
small-IsAtom (b ∷ c ∷ s) h rest = cc

step-sized :
    (b0 : ℕ) (s : Bytes) (total : ℕ)
    → 128 < b0
    → b0 < 254
    → sized_total (leading_ones 8 b0) b0 s ≡ some total
    → clvm_step (b0 ∷ s) ≡ some (total, 0)
unfolding clvm_step atom_total
step-sized b0 s total low high h = ground arith

sized-fits :
    (n b0 size : ℕ) (s : Bytes)
    → n ≤ 8
    → from_be_onto (b0 % 2 ^ (8 - n)) (take (n - 1) s) ≡ size
    → n + size ≤ suc (length s)
    → sized_total n b0 s ≡ some (n + size)
unfolding sized_total
sized-fits n b0 size s le h fits = ground arith

short-IsAtom :
    (blob : Bytes) → 1 ≤ length blob → length blob < 64 → IsAtom ((128 + length blob) ∷ blob)
unfolding IsAtom
short-IsAtom blob low high rest =
    let n : ℕ = length blob in
    step-sized (128 + n) (blob ++ rest) (suc n) (omega arith) (omega arith) (
      ap (λ k. sized_total k (128 + n) (blob ++ rest)) (ones_short n high)
      ∙ sized-fits 1 (128 + n) n (blob ++ rest) (omega arith) (unfold from_be_onto in omega arith)
          (omega (arith, length-append blob rest))
      ∙ ap some (omega arith))

long-IsAtom :
    (blob : Bytes)
    → length blob < 8192
    → IsAtom ((192 + length blob / 256) ∷ length blob % 256 ∷ blob)
unfolding IsAtom
long-IsAtom blob high rest =
    let n : ℕ = length blob in
    let s : Bytes = n % 256 ∷ blob ++ rest in
    step-sized (192 + n / 256) s (suc (suc n)) (omega arith) (omega arith) (
      ap (λ k. sized_total k (192 + n / 256) s) (ones_long (n / 256) (omega arith))
      ∙ sized-fits 2 (192 + n / 256) n s (omega arith) (unfold from_be_onto in omega arith)
          (omega (arith, length-append blob rest))
      ∙ ap some (omega arith))

-- What the encoding is, where there is one, is an atom.
IsAtomic : Encoded → Type 0
IsAtomic x = (p : Bytes) → x ≡ some p → IsAtom p

IsAtomic-some : (p : Bytes) → IsAtom p → IsAtomic (some p)
unfolding IsAtomic
IsAtomic-some p h q e = subst IsAtom (some-injective p q e) h

IsAtomic-none : IsAtomic none
unfolding IsAtomic
IsAtomic-none p e = absurd cc

IsAtomic-if :
    (t : Bool) (x y : Encoded)
    → (t ≡ true → IsAtomic x)
    → (t ≡ false → IsAtomic y)
    → IsAtomic (if t then x else y)
IsAtomic-if true x y h k = h refl
IsAtomic-if false x y h k = k refl

ser_atom-IsAtomic : (blob : Bytes) → IsAtomic (ser_atom blob)
unfolding ser_atom
ser_atom-IsAtomic blob =
    IsAtomic-if (length blob == 0) _ _
      (λ h. IsAtomic-some (128 ∷ []) (unfold IsAtom clvm_step in λ rest. refl))
      (λ filled.
        IsAtomic-if (is_small blob) _ _ (λ h. IsAtomic-some blob (small-IsAtom blob h))
          (λ large.
            IsAtomic-if (ltb (length blob) 64) _ _
              (λ h. IsAtomic-some _ (short-IsAtom blob (ground arith) (ground arith)))
              (λ long.
                IsAtomic-if (ltb (length blob) 8192) _ _
                  (λ h. IsAtomic-some _ (long-IsAtom blob (ground arith))) (λ h. IsAtomic-none))))

turns : Sexp → ℕ
turns (atom blob) = 1
turns (cons first rest) = 1 + (turns first + turns rest)

scan-tree :
    (t : Sexp) (p : Bytes)
    → tree t ≡ some p
    → (g pending pos : ℕ) (rest : Bytes) (out : Scan)
    → ((h end : ℕ) → g ≤ h → end ≡ pos + length p → clvm_loop h pending end rest ≡ out)
    → (fuel : ℕ) → g + turns t ≤ fuel
    → clvm_loop fuel (suc pending) pos (p ++ rest) ≡ out
unfolding tree turns
scan-tree (atom blob) p e g pending pos rest out k zero le = absurd (omega arith)
scan-tree (atom blob) p e g pending pos rest out k (suc fuel) le =
    let step : clvm_step (p ++ rest) ≡ some (length p, 0) =
      unfold IsAtomic IsAtom in ser_atom-IsAtomic blob p e rest in
    loop-turn fuel pending pos (p ++ rest) (length p) 0 step
    ∙ ap (clvm_loop fuel (0 + pending) (pos + length p)) (drop-append p rest)
    ∙ ap (λ n. clvm_loop fuel n (pos + length p) rest) (omega arith)
    ∙ k fuel (pos + length p) (omega arith) refl
scan-tree (cons a b) p e g pending pos rest out k zero le = absurd (omega arith)
scan-tree (cons a b) p e g pending pos rest out k (suc fuel) le =
    let (m, q, m_eq, q_eq, p_eq) = <>-eq-some (some (255 ∷ [])) (tree a <> tree b) p e in
    let (x, y, x_eq, y_eq, xy) = <>-eq-some (tree a) (tree b) q q_eq in
    let whole : p ≡ 255 ∷ (x ++ y) =
      p_eq ∙ ap (λ c. c ++ q) (sym (some-injective (255 ∷ []) m m_eq)) ∙ ap (λ c. 255 ∷ c) xy in
    let size = ap length whole in
    ap (λ c. clvm_loop (suc fuel) (suc pending) pos (c ++ rest)) whole
    ∙ ap (λ c. clvm_loop (suc fuel) (suc pending) pos (255 ∷ c)) (append_assoc x y rest)
    ∙ loop-turn fuel pending pos (255 ∷ (x ++ (y ++ rest))) 1 2 (unfold clvm_step in refl)
    ∙ ap (λ n. clvm_loop fuel n (pos + 1) (x ++ (y ++ rest))) (omega arith)
    ∙ scan-tree a x x_eq (g + turns b) (suc pending) (pos + 1) (y ++ rest) out
        (λ h end le_h at_a.
          scan-tree b y y_eq g pending end rest out
            (λ j last le_j at_b. k j last le_j (omega (arith, size, length-append x y))) h
            (omega arith))
        fuel (omega arith)

atom-filled : (p : Bytes) → IsAtom p → 1 ≤ length p
unfolding IsAtom clvm_step
atom-filled [] h = absurd (let nothing = h [] in cc)
atom-filled (b ∷ p) h = omega arith

turns-length : (t : Sexp) (p : Bytes) → tree t ≡ some p → turns t ≤ length p
unfolding tree turns
turns-length (atom blob) p e = atom-filled p (unfold IsAtomic in ser_atom-IsAtomic blob p e)
turns-length (cons a b) p e =
    let (m, q, m_eq, q_eq, p_eq) = <>-eq-some (some (255 ∷ [])) (tree a <> tree b) p e in
    let (x, y, x_eq, y_eq, xy) = <>-eq-some (tree a) (tree b) q q_eq in
    let one = ap length (some-injective (255 ∷ []) m m_eq) in
    omega (
      arith,
      turns-length a x x_eq,
      turns-length b y y_eq,
      ap length p_eq,
      ap length xy,
      length-append m q,
      length-append x y,
    )

whole : (p : Bytes) → clvm_program_length p ≡ some (length p) → enc_program p ≡ some p
unfolding enc_program is_length
whole p h =
    let same : (length p == length p) ≡ true = ground arith in
    ap (λ o. if is_length o (length p) then some p else none) h
    ∙ ap (λ t. if t then some p else none) same

-- The relay's scanner measures every program that the signer serializes, whatever follows it, and the
-- relay encodes that program as it is.
pub clvm_program_length-ser :
    (t : Sexp) (p : Bytes)
    → ser t ≡ some p
    → ((rest : Bytes) → clvm_program_length (p ++ rest) ≡ some (length p))
      × (enc_program p ≡ some p)
unfolding clvm_program_length
clvm_program_length-ser t p e =
    let e' = sym (ser-tree t) ∙ e in
    let measure : (rest : Bytes) → clvm_program_length (p ++ rest) ≡ some (length p) = λ rest.
      ap ended_at (
        scan-tree t p e' 0 0 0 rest (ended (length p))
          (λ h end le at. unfold clvm_loop in ap ended (omega arith)) (suc (length (p ++ rest)))
          (omega (arith, length-append p rest, turns-length t p e')))
      ∙ unfold ended_at in refl in
    (measure, whole p (ap clvm_program_length (sym (append-nil p)) ∙ measure []))
