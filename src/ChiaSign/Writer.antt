-- ===== src/ChiaSign/Writer.antt =====
-- The writer's loop writes the tree of the s-expression.
use spellbook.Prelude.{
  ℕ, zero, suc, ◌+◌, ◌≤◌, ◌≡◌, refl, ap, ◌∙◌, sym, none, some, List, [], ◌∷◌, arith,
}
use spellbook.Streamable.Bytes.{Encoded, ◌<>◌}
use spellbook.Streamable.Values.{join}
use mathlib.Core.List.{append_assoc, append-nil}
use spellbook.ChiaSign.{Sexp, atom, cons, ser_atom, nodes, ser_loop, ser}

-- The serialization by its grammar.
unfoldable pub tree : Sexp → Encoded
tree (atom blob) = ser_atom blob
tree (cons first rest) = some (255 ∷ []) <> (tree first <> tree rest)

<>-assoc : (x y z : Encoded) → (x <> (y <> z)) ≡ ((x <> y) <> z)
<>-assoc none y z = refl
<>-assoc (some a) none z = refl
<>-assoc (some a) (some b) none = refl
<>-assoc (some a) (some b) (some c) = ap some (sym (append_assoc a b c))

<>-empty : (x : Encoded) → (x <> some []) ≡ x
<>-empty none = refl
<>-empty (some a) = ap some (append-nil a)

nodes_of : List Sexp → ℕ
nodes_of [] = 0
nodes_of (t ∷ stack) = nodes t + nodes_of stack

nodes-pos : (t : Sexp) → 1 ≤ nodes t
unfolding nodes
nodes-pos (atom blob) = omega arith
nodes-pos (cons first rest) = omega arith

ser_loop-join :
    (fuel : ℕ) (stack : List Sexp) → nodes_of stack ≤ fuel → ser_loop fuel stack ≡ join tree stack
unfolding ser_loop join tree nodes_of nodes
ser_loop-join fuel [] h = refl
ser_loop-join zero (t ∷ stack) h = absurd (omega (arith, nodes-pos t))
ser_loop-join (suc fuel) (atom blob ∷ stack) h =
    ap (λ r. ser_atom blob <> r) (ser_loop-join fuel stack (omega arith))
ser_loop-join (suc fuel) (cons first rest ∷ stack) h =
    ap (λ r. some (255 ∷ []) <> r) (ser_loop-join fuel (first ∷ rest ∷ stack) (omega arith))
    ∙ ap (λ r. some (255 ∷ []) <> r) (<>-assoc (tree first) (tree rest) (join tree stack))
    ∙ <>-assoc (some (255 ∷ [])) (tree first <> tree rest) (join tree stack)

-- The writer's loop with its stack writes the serialization by its grammar.
pub ser-tree : (t : Sexp) → ser t ≡ tree t
unfolding ser
ser-tree t =
    ser_loop-join (nodes t) (t ∷ []) (unfold nodes_of in omega arith)
    ∙ unfold join in <>-empty (tree t)
