-- ===== src/ChiaSign/Reader.antt =====
-- The reader reads back what the writer wrote, and its loop ends on every input.
use spellbook.Prelude.{
  ℕ, zero, suc, ◌+◌, ◌*◌, ◌≤◌, ◌<◌, ◌≡◌, ◌≢◌, refl, ap, ◌∙◌, sym, true, false, none, some, List, [],
  ◌∷◌, ◌++◌, arith, length, length-append, Bool-cases, Option-cases, inl, inr, ◌==◌, number_IsKey,
  subst,
}
use mathlib.Core.List.{append_assoc, append-nil}
use mathlib.Core.Option.{some-injective}
use spellbook.Streamable.Bytes.{Bytes, ◌<>◌, <>-eq-some}
use spellbook.ChiaSign.{
  Sexp, atom, cons, ser, read_atom, Op, parse_op, cons_op, Parsed, parsed, malformed, out_of_fuel,
  deser_loop, first_value, deser_partial, deser,
}
use spellbook.ChiaSign.Writer.{tree, ser-tree}
use spellbook.ChiaSign.Atoms.{atom-Reads, read_atom-shorter, no_pair}

-- A turn that reads an atom.
turn-atom :
    (fuel : ℕ) (ops : List Op) (vals : List Sexp) (s blob rest : Bytes)
    → read_atom s ≡ some (blob, rest)
    → deser_loop (suc fuel) (parse_op ∷ ops) vals s ≡ deser_loop fuel ops (atom blob ∷ vals) rest
unfolding deser_loop
turn-atom fuel ops vals [] blob rest h = absurd (unfold read_atom in cc)
turn-atom fuel ops vals (b ∷ s) blob rest h = elim (Bool-cases (b == 255)) [
  | inl pair ↦
      absurd
        (no_pair s blob rest (subst (λ c. read_atom (c ∷ s) ≡ some (blob, rest)) (ground arith) h))
  | inr single ↦
      ap
        (λ t. elim t [
          | true ↦ deser_loop fuel (parse_op ∷ parse_op ∷ cons_op ∷ ops) vals s
          | false ↦ elim (read_atom (b ∷ s)) [
            | none ↦ malformed
            | some (blob, rest) ↦ deser_loop fuel ops (atom blob ∷ vals) rest
          ]
        ])
        single
      ∙ ap
          (λ o. elim o [
            | none ↦ malformed
            | some (blob, rest) ↦ deser_loop fuel ops (atom blob ∷ vals) rest
          ])
          h
]

-- A turn that meets no atom.
turn-stop :
    (fuel : ℕ) (ops : List Op) (vals : List Sexp) (b : ℕ) (s : Bytes)
    → (b == 255) ≡ false
    → read_atom (b ∷ s) ≡ none
    → deser_loop (suc fuel) (parse_op ∷ ops) vals (b ∷ s) ≡ malformed
unfolding deser_loop
turn-stop fuel ops vals b s single h =
    ap
      (λ t. elim t [
        | true ↦ deser_loop fuel (parse_op ∷ parse_op ∷ cons_op ∷ ops) vals s
        | false ↦ elim (read_atom (b ∷ s)) [
          | none ↦ malformed
          | some (blob, rest) ↦ deser_loop fuel ops (atom blob ∷ vals) rest
        ]
      ])
      single
    ∙ ap
        (λ o. elim o [
          | none ↦ malformed
          | some (blob, rest) ↦ deser_loop fuel ops (atom blob ∷ vals) rest
        ])
        h

turn-pair :
    (fuel : ℕ) (ops : List Op) (vals : List Sexp) (s : Bytes)
    → deser_loop (suc fuel) (parse_op ∷ ops) vals (255 ∷ s)
      ≡ deser_loop fuel (parse_op ∷ parse_op ∷ cons_op ∷ ops) vals s
unfolding deser_loop
turn-pair fuel ops vals s = refl

steps : Sexp → ℕ
steps (atom blob) = 1
steps (cons first rest) = 2 + (steps first + steps rest)

-- The turn that pairs two values, before a reader that needs fuel `g`.
pair_up :
    (g fuel : ℕ) (ops : List Op) (vals : List Sexp) (a b : Sexp) (rest : Bytes) (out : Parsed)
    → ((h : ℕ) → g ≤ h → deser_loop h ops (cons a b ∷ vals) rest ≡ out)
    → g + 1 ≤ fuel
    → deser_loop fuel (cons_op ∷ ops) (b ∷ a ∷ vals) rest ≡ out
unfolding deser_loop
pair_up g zero ops vals a b rest out k le = absurd (omega arith)
pair_up g (suc fuel) ops vals a b rest out k le = k fuel (omega arith)

read-tree :
    (t : Sexp) (p : Bytes)
    → tree t ≡ some p
    → (g : ℕ) (ops : List Op) (vals : List Sexp) (rest : Bytes) (out : Parsed)
    → ((h : ℕ) → g ≤ h → deser_loop h ops (t ∷ vals) rest ≡ out)
    → (fuel : ℕ) → g + steps t ≤ fuel
    → deser_loop fuel (parse_op ∷ ops) vals (p ++ rest) ≡ out
unfolding tree steps
read-tree (atom blob) p e g ops vals rest out k zero le = absurd (omega arith)
read-tree (atom blob) p e g ops vals rest out k (suc fuel) le =
    turn-atom fuel ops vals (p ++ rest) blob rest ((atom-Reads blob).reads p e rest)
    ∙ k fuel (omega arith)
read-tree (cons a b) p e g ops vals rest out k zero le = absurd (omega arith)
read-tree (cons a b) p e g ops vals rest out k (suc fuel) le =
    let (m, q, m_eq, q_eq, p_eq) = <>-eq-some (some (255 ∷ [])) (tree a <> tree b) p e in
    let (x, y, x_eq, y_eq, xy) = <>-eq-some (tree a) (tree b) q q_eq in
    let split : p ++ rest ≡ 255 ∷ (x ++ (y ++ rest)) =
      ap (λ c. c ++ rest)
        (p_eq ∙ ap (λ c. c ++ q) (sym (some-injective (255 ∷ []) m m_eq)) ∙ ap (λ c. 255 ∷ c) xy)
      ∙ ap (λ c. 255 ∷ c) (append_assoc x y rest) in
    ap (deser_loop (suc fuel) (parse_op ∷ ops) vals) split
    ∙ turn-pair fuel ops vals (x ++ (y ++ rest))
    ∙ read-tree a x x_eq (g + 1 + steps b) (parse_op ∷ cons_op ∷ ops) vals (y ++ rest) out
        (λ h le_h.
          read-tree b y y_eq (g + 1) (cons_op ∷ ops) (a ∷ vals) rest out
            (λ j le_j. pair_up g j ops vals a b rest out k le_j) h (omega arith))
        fuel (omega arith)

steps-length : (t : Sexp) (p : Bytes) → tree t ≡ some p → steps t + 1 ≤ 2 * length p
unfolding tree steps
steps-length (atom blob) [] e =
    absurd (let nothing = (atom-Reads blob).reads [] e [] in unfold read_atom in cc)
steps-length (atom blob) (b ∷ p) e = omega arith
steps-length (cons a b) p e =
    let (m, q, m_eq, q_eq, p_eq) = <>-eq-some (some (255 ∷ [])) (tree a <> tree b) p e in
    let (x, y, x_eq, y_eq, xy) = <>-eq-some (tree a) (tree b) q q_eq in
    let one = ap length (some-injective (255 ∷ []) m m_eq) in
    omega (
      arith,
      steps-length a x x_eq,
      steps-length b y y_eq,
      ap length p_eq,
      ap length xy,
      length-append m q,
      length-append x y,
    )

-- An s-expression that the writer serializes is read back from its bytes, with what follows it.
pub deser_partial-ser :
    (t : Sexp) (p : Bytes)
    → ser t ≡ some p
    → (rest : Bytes) → deser_partial (p ++ rest) ≡ some (t, rest)
unfolding deser_partial
deser_partial-ser t p e rest =
    let e' = sym (ser-tree t) ∙ e in
    ap first_value (
      read-tree t p e' 0 [] [] rest (parsed (t ∷ []) rest) (λ h le. unfold deser_loop in refl)
        (suc (2 * length (p ++ rest))) (omega (arith, length-append p rest, steps-length t p e')))
    ∙ unfold first_value in refl

conses : List Op → ℕ
conses [] = 0
conses (cons_op ∷ ops) = suc (conses ops)
conses (parse_op ∷ ops) = conses ops

deser_loop-total :
    (fuel : ℕ) (ops : List Op) (vals : List Sexp) (s : Bytes)
    → 2 * length s + conses ops < fuel
    → deser_loop fuel ops vals s ≢ out_of_fuel
unfolding deser_loop conses
deser_loop-total fuel [] vals s h e = cc
deser_loop-total zero (op ∷ ops) vals s h e = omega arith
deser_loop-total (suc fuel) (cons_op ∷ ops) [] s h e = cc
deser_loop-total (suc fuel) (cons_op ∷ ops) (b ∷ []) s h e = cc
deser_loop-total (suc fuel) (cons_op ∷ ops) (b ∷ a ∷ vals) s h e =
    deser_loop-total fuel ops (cons a b ∷ vals) s (omega arith) e
deser_loop-total (suc fuel) (parse_op ∷ ops) vals [] h e = cc
deser_loop-total (suc fuel) (parse_op ∷ ops) vals (b ∷ s) h e = elim (Bool-cases (b == 255)) [
  | inl pair ↦
      let byte : 255 ≡ b = ground arith in
      deser_loop-total fuel (parse_op ∷ parse_op ∷ cons_op ∷ ops) vals s (omega arith) (
        sym (turn-pair fuel ops vals s)
        ∙ ap (λ c. deser_loop (suc fuel) (parse_op ∷ ops) vals (c ∷ s)) byte
        ∙ e)
  | inr single ↦ elim (Option-cases (read_atom (b ∷ s))) [
    | inl stop ↦ let turn = turn-stop fuel ops vals b s single stop in cc
    | inr ((blob, rest), go) ↦
        deser_loop-total fuel ops (atom blob ∷ vals) rest
          (omega (arith, read_atom-shorter b s blob rest go))
          (sym (turn-atom fuel ops vals (b ∷ s) blob rest go) ∙ e)
  ]
]

-- The reader stops on every input before its fuel is out.
pub deser_loop_ends :
    (s : Bytes) → deser_loop (suc (2 * length s)) (parse_op ∷ []) [] s ≢ out_of_fuel
deser_loop_ends s =
    deser_loop-total (suc (2 * length s)) (parse_op ∷ []) [] s (unfold conses in omega arith)

-- An s-expression that the writer serializes is read back from its bytes, where nothing follows.
pub deser-ser : (t : Sexp) (p : Bytes) → ser t ≡ some p → deser p ≡ some t
unfolding deser
deser-ser t p e =
    ap (λ o. elim o [ none ↦ none | some (obj, []) ↦ some obj | some (obj, b ∷ s) ↦ none ])
      (ap deser_partial (sym (append-nil p)) ∙ deser_partial-ser t p e [])
