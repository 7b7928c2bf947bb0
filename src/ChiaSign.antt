-- ===== src/ChiaSign.antt =====
-- The CLVM serialization of src/spellbook/chia_sign.py. An s-expression is bytes or a pair; `none` is
-- a ChiaSignError. The writer's and the reader's explicit stacks are lists, their tops first.
pub mod Writer
pub mod Atoms
pub mod Reader
pub mod Framing
pub mod Hash
use spellbook.Prelude.{
  ℕ, zero, suc, ◌+◌, ◌*◌, ◌/◌, ◌%◌, Bool, true, false, ◌&&◌, Option, none, some, List, [], ◌∷◌, ltb,
  leb, ◌==◌, number_IsKey, length, take, drop, if◌then◌else◌,
}
use spellbook.Streamable.Bytes.{Bytes, from_be_onto, Encoded, ◌<>◌}

pub data Sexp : Type 0 where
  atom : Bytes → Sexp
  cons : Sexp → Sexp → Sexp

-- The atom that stands for itself.
unfoldable pub is_small : Bytes → Bool
is_small (b ∷ []) = ltb b 128
is_small _ = false

unfoldable pub ser_atom : Bytes → Encoded
ser_atom blob =
    let n = length blob in
    if n == 0
    then some (128 ∷ [])
    else if is_small blob
    then some blob
    else if ltb n 64
    then some ((128 + n) ∷ blob)
    else if ltb n 8192
    then some ((192 + n / 256) ∷ n % 256 ∷ blob)
    else none

unfoldable pub nodes : Sexp → ℕ
nodes (atom blob) = 1
nodes (cons first rest) = suc (nodes first + nodes rest)

-- What the loop of `ser` appends for the nodes on its stack.
unfoldable pub ser_loop : ℕ → List Sexp → Encoded
ser_loop fuel [] = some []
ser_loop zero (node ∷ stack) = none
ser_loop (suc fuel) (atom blob ∷ stack) = ser_atom blob <> ser_loop fuel stack
ser_loop (suc fuel) (cons first rest ∷ stack) =
    some (255 ∷ []) <> ser_loop fuel (first ∷ rest ∷ stack)

-- Each turn takes one node off the stack.
unfoldable pub ser : Sexp → Encoded
ser obj = ser_loop (nodes obj) (obj ∷ [])

-- The blob of an atom whose size stands in `more` further bytes, and what follows it.
unfoldable pub read_sized : ℕ → ℕ → Bytes → Option (Bytes × Bytes)
unfolding from_be_onto
read_sized more high s =
    if ltb (length s) more
    then none
    else let n = from_be_onto high (take more s) in
      let body = drop more s in
      if ltb (length body) n then none else some (take n body, drop n body)

-- `_read_atom`
unfoldable pub read_atom : Bytes → Option (Bytes × Bytes)
read_atom [] = none
read_atom (b ∷ s) =
    if leb b 127
    then some (b ∷ [], s)
    else if leb b 191
    then read_sized 0 (b % 64) s
    else if leb b 223
    then read_sized 1 (b % 32) s
    else if leb b 239
    then read_sized 2 (b % 16) s
    else if leb b 247
    then read_sized 3 (b % 8) s
    else none

pub data Op : Type 0 where
  parse_op cons_op : Op

-- How the loop of `deser_partial` ends: with its values and what follows, with an error, or out of
-- fuel.
pub data Parsed : Type 0 where
  parsed : List Sexp → Bytes → Parsed
  malformed out_of_fuel : Parsed

unfoldable pub deser_loop : ℕ → List Op → List Sexp → Bytes → Parsed
deser_loop fuel [] vals s = parsed vals s
deser_loop zero (op ∷ ops) vals s = out_of_fuel
deser_loop (suc fuel) (cons_op ∷ ops) (rest ∷ first ∷ vals) s =
    deser_loop fuel ops (cons first rest ∷ vals) s
deser_loop (suc fuel) (cons_op ∷ ops) _ s = malformed
deser_loop (suc fuel) (parse_op ∷ ops) vals [] = malformed
deser_loop (suc fuel) (parse_op ∷ ops) vals (b ∷ s) = elim (b == 255) [
  | true ↦ deser_loop fuel (parse_op ∷ parse_op ∷ cons_op ∷ ops) vals s
  | false ↦ elim (read_atom (b ∷ s)) [
    | none ↦ malformed
    | some (blob, rest) ↦ deser_loop fuel ops (atom blob ∷ vals) rest
  ]
]

unfoldable pub first_value : Parsed → Option (Sexp × Bytes)
first_value (parsed (obj ∷ vals) s) = some (obj, s)
first_value _ = none

-- Two turns for a byte at most: one reads it, and one may pair what it opens.
unfoldable pub deser_partial : Bytes → Option (Sexp × Bytes)
deser_partial data_bytes =
    first_value (deser_loop (suc (2 * length data_bytes)) (parse_op ∷ []) [] data_bytes)

unfoldable pub deser : Bytes → Option Sexp
deser data_bytes = elim (deser_partial data_bytes) [
  | none ↦ none
  | some (obj, []) ↦ some obj
  | some (obj, b ∷ s) ↦ none
]
