-- ===== src/Streamable/Clvm.antt =====
-- The scanner of relay/streamable.py that finds where a serialized CLVM program ends. The source's
-- position is how much of the buffer is dropped.
pub mod Scanner
pub mod Programs
use spellbook.Prelude.{
  ℕ, zero, suc, ◌+◌, ◌-◌, ◌*◌, ◌%◌, ◌^◌, Bool, true, false, ◌||◌, Option, none, some, List, [], ◌∷◌,
  ltb, leb, ◌==◌, number_IsKey, length, take, drop, if◌then◌else◌,
}
use spellbook.Streamable.Bytes.{Bytes, from_be_onto, Encoded, Parser, read, require, ◌>>=◌, ◌>>◌}

-- The leading 1-bits of a byte: `n`, from the source's `while b & 0x80`. A byte has at most eight.
unfoldable pub leading_ones : ℕ → ℕ → ℕ
leading_ones zero b = 0
leading_ones (suc fuel) b =
    let rest = leading_ones fuel (b * 2 % 256) in if leb 128 b then suc rest else 0

-- The end of `_clvm_atom_total`: an atom whose size stands in `n` bytes, the first of them `b0`.
unfoldable pub sized_total : ℕ → ℕ → Bytes → Option ℕ
unfolding from_be_onto
sized_total n b0 s =
    if ltb 8 n || ltb (suc (length s)) n
    then none
    else let total = n + from_be_onto (b0 % 2 ^ (8 - n)) (take (n - 1) s) in
      if ltb (suc (length s)) total then none else some total

-- `_clvm_atom_total`
unfoldable pub atom_total : Bytes → Option ℕ
atom_total [] = none
atom_total (b0 ∷ s) =
    if b0 == 255
    then none
    else if b0 == 254
    then none
    else if b0 == 128 || ltb b0 128
    then some 1
    else sized_total (leading_ones 8 b0) b0 s

-- How far one turn of the loop moves, and how many programs it then expects in place of one.
unfoldable pub clvm_step : Bytes → Option (ℕ × ℕ)
clvm_step [] = none
clvm_step (b0 ∷ s) =
    if b0 == 255
    then some (1, 2)
    else if b0 == 254
    then none
    else if b0 == 128 || ltb b0 128
    then some (1, 0)
    else elim (atom_total (b0 ∷ s)) [ none ↦ none | some total ↦ some (total, 0) ]

-- How the loop ends: at a position, with a StreamableError, or out of fuel.
pub data Scan : Type 0 where
  ended : ℕ → Scan
  malformed : Scan
  out_of_fuel : Scan

unfoldable pub clvm_loop : ℕ → ℕ → ℕ → Bytes → Scan
clvm_loop fuel zero pos s = ended pos
clvm_loop zero (suc pending) pos s = out_of_fuel
clvm_loop (suc fuel) (suc pending) pos s = elim (clvm_step s) [
  | none ↦ malformed
  | some (n, children) ↦ clvm_loop fuel (children + pending) (pos + n) (drop n s)
]

unfoldable pub ended_at : Scan → Option ℕ
ended_at (ended n) = some n
ended_at malformed = none
ended_at out_of_fuel = none

-- Each turn moves by a byte at least, so one more than there are bytes is fuel enough.
unfoldable pub clvm_program_length : Bytes → Option ℕ
clvm_program_length s = ended_at (clvm_loop (suc (length s)) 1 0 s)

unfoldable pub is_length : Option ℕ → ℕ → Bool
is_length none n = false
is_length (some m) n = m == n

unfoldable pub enc_program : Bytes → Encoded
enc_program b = if is_length (clvm_program_length b) (length b) then some b else none

-- The length of the program that starts here.
unfoldable pub program_ahead : Parser ℕ
program_ahead s = elim (clvm_program_length s) [ none ↦ none | some n ↦ some (n, s) ]

unfoldable pub dec_program : ℕ → Parser Bytes
dec_program max_len = program_ahead >>= λ n. require (leb n max_len) >> read n
