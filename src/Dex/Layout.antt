-- ===== src/Dex/Layout.antt =====
-- The parameters of a v4 swap in a Universal Router call: dex.py reads them at fixed offsets and then
-- compares them with their own encoding.
pub mod Paths
use spellbook.Prelude.{
  ℕ, ◌+◌, ◌-◌, ◌^◌, Bool, true, false, ◌&&◌, Option, none, some, List, [], ◌∷◌, ◌++◌, ◌==◌, leb,
  ltb, length, take, drop, number_IsKey, bytes_IsKey, if◌then◌else◌,
}
use spellbook.Prelude.Options.{◌>>=◌, ◌>>◌, guard}
use spellbook.Prelude.Codes.{to_hex, with_0x}
use spellbook.Streamable.Bytes.{Bytes, be, from_be}
use spellbook.Streamable.Utf8.{Text}
use spellbook.Abi.Values.{ℤ, pos, negsuc, in_range}
use spellbook.Dex.Words.{unsigned, u256, u24, u128, i24, addr, enc_bytes, fixed, dynamic, head_tail}

-- `_word`
unfoldable pub word_at : Bytes → ℕ → Option ℕ
unfolding from_be
word_at b at = let w = take 32 (drop at b) in if length w == 32 then some (from_be w) else none

-- `_word_uint`
unfoldable pub word_uint : ℕ → Bytes → ℕ → Option ℕ
unfolding word_at
word_uint bits b at = word_at b at >>= λ v. if ltb v (2 ^ bits) then some v else none

-- `_word_addr`
unfoldable pub word_addr : Bytes → ℕ → Option Text
unfolding word_uint be to_hex
word_addr b at = word_uint 160 b at >>= λ v. some (with_0x (to_hex (be 20 v)))

-- `_word_int24`
unfoldable pub word_int24 : Bytes → ℕ → Option ℤ
unfolding word_at
word_int24 b at = do
  v ← word_at b at
  let s = if leb (2 ^ 255) v then negsuc (2 ^ 256 - 1 - v) else pos v
  if in_range 24 s then some s else none

-- `_word_bool`
unfoldable pub word_bool : Bytes → ℕ → Option Bool
unfolding word_at
word_bool b at =
    word_at b at >>= λ v. if v == 0 then some false else if v == 1 then some true else none

-- `_bytes_at`, below `_V4_MAX_HOOK_DATA`.
unfoldable pub bytes_at : Bytes → ℕ → Option Bytes
unfolding word_at
bytes_at b at = do
  n ← word_at b at
  guard (leb n 4096 && leb (at + 32 + n) (length b))
  some (take n (drop (at + 32) b))

-- What a swap sells and buys.
pub record Trade : Type 0 where
  pub token_in : Text
  pub token_out : Text
  pub amount_in : ℕ
  pub min_out : ℕ

-- ExactInputSingleParams, the pool's key written out.
pub record Single : Type 0 where
  pub currency0 : Text
  pub currency1 : Text
  pub fee : ℕ
  pub tick_spacing : ℤ
  pub hooks : Text
  pub zero_for_one : Bool
  pub amount_in : ℕ
  pub min_out : ℕ
  pub hook_data : Bytes

-- `canon` of `_v4_exact_in_single`
unfoldable pub encode_single_params : Single → Option Bytes
unfolding unsigned i24 addr enc_bytes head_tail
encode_single_params p = do
  c0 ← addr p.currency0
  c1 ← addr p.currency1
  fee ← u24 p.fee
  ts ← i24 p.tick_spacing
  hooks ← addr p.hooks
  direction ← u256 (if p.zero_for_one then 1 else 0)
  a_in ← u128 p.amount_in
  a_min ← u128 p.min_out
  hook_data ← enc_bytes p.hook_data
  start ← u256 32
  body ←
      head_tail
        (fixed (c0 ++ (c1 ++ (fee ++ (ts ++ (hooks ++ (direction ++ (a_in ++ a_min)))))))
          ∷ dynamic
          ∷ [])
        (hook_data ∷ [])
  some (start ++ body)

unfoldable pub read_single : Bytes → Option Single
unfolding word_at word_addr word_uint word_int24 word_bool bytes_at
read_single t = do
  c0 ← word_addr t 0
  c1 ← word_addr t 32
  fee ← word_uint 24 t 64
  ts ← word_int24 t 96
  hooks ← word_addr t 128
  direction ← word_bool t 160
  a_in ← word_uint 128 t 192
  a_min ← word_uint 128 t 224
  off ← word_at t 256
  hook_data ← bytes_at t off
  some record {
    currency0 = c0;
    currency1 = c1;
    fee = fee;
    tick_spacing = ts;
    hooks = hooks;
    zero_for_one = direction;
    amount_in = a_in;
    min_out = a_min;
    hook_data = hook_data;
  }

abbrev pub single_trade : Single → Trade
single_trade p = record {
  token_in = if p.zero_for_one then p.currency0 else p.currency1;
  token_out = if p.zero_for_one then p.currency1 else p.currency0;
  amount_in = p.amount_in;
  min_out = p.min_out;
}

-- `_v4_exact_in_single`
unfoldable pub v4_exact_in_single : Bytes → Option Trade
unfolding word_at read_single encode_single_params
v4_exact_in_single b = do
  start ← word_at b 0
  guard (start == 32)
  p ← read_single (drop 32 b)
  canon ← encode_single_params p
  guard (canon == b)
  some (single_trade p)
