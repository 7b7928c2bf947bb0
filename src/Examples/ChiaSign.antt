-- ===== src/Examples/ChiaSign.antt =====
-- The CLVM theorems at a concrete s-expression.
use spellbook.Prelude.{length, ◌≡◌, ◌≢◌, refl, some, [], ◌∷◌, ◌++◌}
use spellbook.Streamable.Bytes.{Bytes}
use spellbook.Streamable.Clvm.{clvm_program_length, enc_program}
use spellbook.ChiaSign.{
  Sexp, atom, cons, is_small, ser_atom, nodes, ser_loop, ser, deser_partial, deser, deser_loop,
  out_of_fuel, parse_op,
}
use spellbook.ChiaSign.Writer.{tree, ser-tree}
use spellbook.ChiaSign.Reader.{deser_partial-ser, deser-ser, deser_loop_ends}
use spellbook.ChiaSign.Hash.{sha256tree, tree_hash, sha256tree-tree_hash}
use spellbook.ChiaSign.Framing.{clvm_program_length-ser}

-- (1 . ((200 201) . nil))
abbrev condition : Sexp
condition = cons (atom (1 ∷ [])) (cons (atom (200 ∷ 201 ∷ [])) (atom []))

abbrev condition_bytes : Bytes
condition_bytes = 255 ∷ 1 ∷ 255 ∷ 130 ∷ 200 ∷ 201 ∷ 128 ∷ []

condition_serializes : ser condition ≡ some condition_bytes
unfolding ser nodes ser_loop ser_atom is_small
condition_serializes = refl

ser-tree_example : ser condition ≡ tree condition
ser-tree_example = ser-tree condition

deser_partial-ser_example : deser_partial (condition_bytes ++ (7 ∷ [])) ≡ some (condition, 7 ∷ [])
deser_partial-ser_example =
    deser_partial-ser condition condition_bytes condition_serializes (7 ∷ [])

deser_loop_ends_example : deser_loop 5 (parse_op ∷ []) [] (255 ∷ 1 ∷ []) ≢ out_of_fuel
deser_loop_ends_example = deser_loop_ends (255 ∷ 1 ∷ [])

clvm_program_length-ser_example :
    ((rest : Bytes) → clvm_program_length (condition_bytes ++ rest) ≡ some 7)
    × (enc_program condition_bytes ≡ some condition_bytes)
clvm_program_length-ser_example =
    clvm_program_length-ser condition condition_bytes condition_serializes

condition_deserializes : deser condition_bytes ≡ some condition
condition_deserializes = deser-ser condition condition_bytes condition_serializes

-- A stand-in for the hash that keeps the length.
abbrev length_hash : Bytes → Bytes
length_hash b = length b ∷ []

sha256tree-tree_hash_example :
    sha256tree length_hash condition ≡ some (tree_hash length_hash condition)
sha256tree-tree_hash_example = sha256tree-tree_hash length_hash condition
