-- ===== src/Dex/Words.antt =====
-- The ABI encoder of dex.py's own, below its calldata builders and its check of a v4 swap's layout.
use spellbook.Prelude.{
  ℕ, ◌+◌, ◌-◌, ◌*◌, ◌%◌, ◌^◌, Option, none, some, List, [], ◌∷◌, ◌++◌, ltb, length, drop,
  if◌then◌else◌,
}
use spellbook.Prelude.Options.{◌>>=◌, ◌>>◌}
use spellbook.Prelude.Codes.{from_hex, to_hex, with_0x}
use spellbook.Streamable.Bytes.{Bytes, be}
use spellbook.Streamable.Utf8.{Text}
use spellbook.Abi.Values.{ℤ, in_range}
use spellbook.Abi.Encode.{zeros, twos_complement}
use spellbook.Dex.Tokens.{require_address}

-- A number below 2 ^ bits, as a word.
unfoldable pub unsigned : ℕ → ℕ → Option Bytes
unfolding be
unsigned bits n = if ltb n (2 ^ bits) then some (be 32 n) else none

-- `_u256`, and `_u24`, which is the same.
abbrev pub u256 : ℕ → Option Bytes
u256 n = unsigned 256 n

abbrev pub u24 : ℕ → Option Bytes
u24 n = u256 n

abbrev pub u128 : ℕ → Option Bytes
u128 n = unsigned 128 n

abbrev pub u160 : ℕ → Option Bytes
u160 n = unsigned 160 n

abbrev pub u48 : ℕ → Option Bytes
u48 n = unsigned 48 n

unfoldable pub i24 : ℤ → Option Bytes
unfolding be twos_complement
i24 n = if in_range 24 n then some (be 32 (twos_complement n)) else none

-- `_addr`
unfoldable pub addr : Text → Option Bytes
unfolding from_hex require_address
addr a = do require_address a; b ← from_hex (drop 2 a); some (zeros 12 ++ b)

-- `_enc_bytes`
unfoldable pub enc_bytes : Bytes → Option Bytes
unfolding unsigned
enc_bytes b = do w ← u256 (length b); some (w ++ (b ++ zeros ((32 - length b % 32) % 32)))

-- The offsets of encodings that follow each other.
unfoldable pub offsets : ℕ → List Bytes → Option Bytes
unfolding unsigned
offsets off [] = some []
offsets off (e ∷ es) = do w ← u256 off; rest ← offsets (off + length e) es; some (w ++ rest)

-- `b"".join(items)`: `_enc_tuple`
abbrev pub concat : List Bytes → Bytes
concat [] = []
concat (e ∷ es) = e ++ concat es

-- `_enc_dyn_array`
unfoldable pub enc_dyn_array : List Bytes → Option Bytes
unfolding offsets unsigned
enc_dyn_array items = do
  n ← u256 (length items)
  heads ← offsets (32 * length items) items
  some (n ++ (heads ++ concat items))

unfoldable pub each {ℓ} : {A : Type ℓ} → (A → Option Bytes) → List A → Option (List Bytes)
each f [] = some []
each f (a ∷ xs) = do e ← f a; es ← each f xs; some (e ∷ es)

-- `_enc_bytes_array`
unfoldable pub enc_bytes_array : List Bytes → Option Bytes
unfolding each enc_bytes enc_dyn_array
enc_bytes_array items = each enc_bytes items >>= enc_dyn_array

-- `_enc_addr_array`
unfoldable pub enc_addr_array : List Text → Option Bytes
unfolding each addr unsigned
enc_addr_array addrs = do n ← u256 (length addrs); es ← each addr addrs; some (n ++ concat es)

-- An entry of `_head_tail`'s head: an encoding, or None.
pub data Slot : Type 0 where
  fixed : Bytes → Slot
  dynamic : Slot

abbrev pub head_size : List Slot → ℕ
head_size [] = 0
head_size (fixed h ∷ head) = length h + head_size head
head_size (dynamic ∷ head) = 32 + head_size head

-- Its loop over the head: the head's bytes, and the tails it takes.
unfoldable pub heads_from : ℕ → List Slot → List Bytes → Option (Bytes × Bytes)
unfolding unsigned
heads_from off [] tails = some ([], [])
heads_from off (fixed h ∷ head) tails = do
  (heads, used) ← heads_from off head tails
  some (h ++ heads, used)
heads_from off (dynamic ∷ head) [] = none
heads_from off (dynamic ∷ head) (t ∷ tails) = do
  w ← u256 off
  (heads, used) ← heads_from (off + length t) head tails
  some (w ++ heads, t ++ used)

-- `_head_tail`
unfoldable pub head_tail : List Slot → List Bytes → Option Bytes
unfolding heads_from
head_tail head tails = heads_from (head_size head) head tails >>= λ s. some (s.0 ++ s.1)

-- `_calldata`
unfoldable pub calldata_text : Text → Bytes → Text
unfolding to_hex
calldata_text selector payload = with_0x (selector ++ to_hex payload)
