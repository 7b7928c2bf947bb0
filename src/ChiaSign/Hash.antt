-- ===== src/ChiaSign/Hash.antt =====
-- The tree hash of src/spellbook/chia_sign.py, its sha256 a parameter: the loop with its two stacks
-- computes the hash by the grammar.
use spellbook.Prelude.{
  ℕ, zero, suc, ◌+◌, ◌≤◌, ◌≡◌, refl, ap, ◌∙◌, Bool, true, false, Option, none, some, List, [], ◌∷◌,
  ◌++◌, arith,
}
use spellbook.Streamable.Bytes.{Bytes}
use spellbook.ChiaSign.{Sexp, atom, cons}

-- A node on the stack, and whether its parts have been pushed.
abbrev pub Work : Type 0
Work = Sexp × Bool

module _ (sha256 : Bytes → Bytes) where
  -- What the loop leaves on the stack of values; `none` is an IndexError or no fuel.
  unfoldable pub hash_loop : ℕ → List Work → List Bytes → Option (List Bytes)
  hash_loop fuel [] vals = some vals
  hash_loop zero (node ∷ work) vals = none
  hash_loop (suc fuel) ((atom blob, expanded) ∷ work) vals =
      hash_loop fuel work (sha256 (1 ∷ blob) ∷ vals)
  hash_loop (suc fuel) ((cons first rest, true) ∷ work) (right ∷ left ∷ vals) =
      hash_loop fuel work (sha256 (2 ∷ left ++ right) ∷ vals)
  hash_loop (suc fuel) ((cons first rest, true) ∷ work) _ = none
  hash_loop (suc fuel) ((cons first rest, false) ∷ work) vals =
      hash_loop fuel ((first, false) ∷ (rest, false) ∷ (cons first rest, true) ∷ work) vals

  -- A pair takes two turns, an atom one.
  unfoldable pub hash_turns : Sexp → ℕ
  hash_turns (atom blob) = 1
  hash_turns (cons first rest) = 2 + (hash_turns first + hash_turns rest)

  unfoldable pub first_hash : Option (List Bytes) → Option Bytes
  first_hash (some (h ∷ vals)) = some h
  first_hash _ = none

  unfoldable pub sha256tree : Sexp → Option Bytes
  sha256tree obj = first_hash (hash_loop (hash_turns obj) ((obj, false) ∷ []) [])

  -- sha256(0x01 || atom) for atoms, sha256(0x02 || left || right) for pairs.
  unfoldable pub tree_hash : Sexp → Bytes
  tree_hash (atom blob) = sha256 (1 ∷ blob)
  tree_hash (cons first rest) = sha256 (2 ∷ tree_hash first ++ tree_hash rest)

  merge_turn :
      (g fuel : ℕ) (a b : Sexp) (work : List Work) (x y : Bytes) (vals : List Bytes)
      (out : Option (List Bytes))
      → ((h : ℕ) → g ≤ h → hash_loop h work (sha256 (2 ∷ x ++ y) ∷ vals) ≡ out)
      → g + 1 ≤ fuel
      → hash_loop fuel ((cons a b, true) ∷ work) (y ∷ x ∷ vals) ≡ out
  unfolding hash_loop
  merge_turn g zero a b work x y vals out k le = absurd (omega arith)
  merge_turn g (suc fuel) a b work x y vals out k le = k fuel (omega arith)

  hash-tree :
      (t : Sexp) (g : ℕ) (work : List Work) (vals : List Bytes) (out : Option (List Bytes))
      → ((h : ℕ) → g ≤ h → hash_loop h work (tree_hash t ∷ vals) ≡ out)
      → (fuel : ℕ) → g + hash_turns t ≤ fuel
      → hash_loop fuel ((t, false) ∷ work) vals ≡ out
  unfolding hash_loop hash_turns tree_hash
  hash-tree (atom blob) g work vals out k zero le = absurd (omega arith)
  hash-tree (atom blob) g work vals out k (suc fuel) le = k fuel (omega arith)
  hash-tree (cons a b) g work vals out k zero le = absurd (omega arith)
  hash-tree (cons a b) g work vals out k (suc fuel) le =
      hash-tree a (g + 1 + hash_turns b) ((b, false) ∷ (cons a b, true) ∷ work) vals out
        (λ h le_h.
          hash-tree b (g + 1) ((cons a b, true) ∷ work) (tree_hash a ∷ vals) out
            (λ j le_j. merge_turn g j a b work (tree_hash a) (tree_hash b) vals out k le_j) h
            (omega arith))
        fuel (omega arith)

  -- The loop with its two stacks never fails, and computes the hash by the grammar.
  pub sha256tree-tree_hash : (t : Sexp) → sha256tree t ≡ some (tree_hash t)
  unfolding sha256tree
  sha256tree-tree_hash t =
      ap first_hash (
        hash-tree t 0 [] [] (some (tree_hash t ∷ [])) (λ h le. unfold hash_loop in refl)
          (hash_turns t) (omega arith))
      ∙ unfold first_hash in refl
