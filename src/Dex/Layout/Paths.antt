-- ===== src/Dex/Layout/Paths.antt =====
-- The parameters of a v4 swap over several pools in dex.py, of at most eight hops.
use spellbook.Prelude.{
  ℕ, zero, suc, ◌+◌, ◌&&◌, Option, none, some, List, [], ◌∷◌, ◌++◌, ◌==◌, leb, drop, number_IsKey,
  bytes_IsKey,
}
use spellbook.Prelude.Options.{◌>>=◌, ◌>>◌, guard}
use spellbook.Streamable.Bytes.{Bytes}
use spellbook.Streamable.Utf8.{Text}
use spellbook.Abi.Values.{ℤ}
use spellbook.Dex.Words.{
  unsigned, u256, u24, u128, i24, addr, enc_bytes, enc_dyn_array, each, fixed, dynamic, head_tail,
}
use spellbook.Dex.Layout.{word_at, word_addr, word_uint, word_int24, bytes_at, Trade}

-- PathKey
pub record Hop : Type 0 where
  pub currency : Text
  pub fee : ℕ
  pub tick_spacing : ℤ
  pub hooks : Text
  pub hook_data : Bytes

-- ExactInputParams
pub record Hops : Type 0 where
  pub currency_in : Text
  pub path : List Hop
  pub amount_in : ℕ
  pub min_out : ℕ

unfoldable pub encode_hop : Hop → Option Bytes
unfolding unsigned i24 addr enc_bytes head_tail
encode_hop hop = do
  c ← addr hop.currency
  fee ← u24 hop.fee
  ts ← i24 hop.tick_spacing
  hooks ← addr hop.hooks
  hook_data ← enc_bytes hop.hook_data
  head_tail (fixed (c ++ (fee ++ (ts ++ hooks))) ∷ dynamic ∷ []) (hook_data ∷ [])

-- `canon` of `_v4_exact_in`
unfoldable pub encode_hops : Hops → Option Bytes
unfolding unsigned addr each encode_hop enc_dyn_array head_tail
encode_hops p = do
  hops ← each encode_hop p.path
  path ← enc_dyn_array hops
  c ← addr p.currency_in
  a_in ← u128 p.amount_in
  a_min ← u128 p.min_out
  start ← u256 32
  body ← head_tail (fixed c ∷ dynamic ∷ fixed a_in ∷ fixed a_min ∷ []) (path ∷ [])
  some (start ++ body)

unfoldable pub read_hop : Bytes → ℕ → Option Hop
unfolding word_at word_addr word_uint word_int24 bytes_at
read_hop t at = do
  c ← word_addr t at
  fee ← word_uint 24 t (at + 32)
  ts ← word_int24 t (at + 64)
  hooks ← word_addr t (at + 96)
  off ← word_at t (at + 128)
  hook_data ← bytes_at t (at + off)
  some record { currency = c; fee = fee; tick_spacing = ts; hooks = hooks; hook_data = hook_data }

-- The loop of `_v4_exact_in`: the offsets stand from a position on, and count from the first one's.
unfoldable pub read_hops : Bytes → ℕ → ℕ → ℕ → Option (List Hop)
unfolding word_at read_hop
read_hops t base at zero = some []
read_hops t base at (suc n) = do
  off ← word_at t at
  hop ← read_hop t (base + off)
  hops ← read_hops t base (at + 32) n
  some (hop ∷ hops)

unfoldable pub read_path : Bytes → Option Hops
unfolding word_at word_addr word_uint read_hops
read_path t = do
  c ← word_addr t 0
  off ← word_at t 32
  a_in ← word_uint 128 t 64
  a_min ← word_uint 128 t 96
  n ← word_at t off
  guard (leb 1 n && leb n 8)
  hops ← read_hops t (off + 32) (off + 32) n
  some record { currency_in = c; path = hops; amount_in = a_in; min_out = a_min }

-- `keys[-1][0]`
abbrev pub last_currency : List Hop → Option Text
last_currency [] = none
last_currency (hop ∷ []) = some hop.currency
last_currency (hop ∷ hops) = last_currency hops

abbrev pub hops_trade : Hops → Text → Trade
hops_trade p out = record {
  token_in = p.currency_in;
  token_out = out;
  amount_in = p.amount_in;
  min_out = p.min_out;
}

-- `_v4_exact_in`
unfoldable pub v4_exact_in : Bytes → Option Trade
unfolding word_at read_path encode_hops
v4_exact_in b = do
  start ← word_at b 0
  guard (start == 32)
  p ← read_path (drop 32 b)
  canon ← encode_hops p
  guard (canon == b)
  out ← last_currency p.path
  some (hops_trade p out)
