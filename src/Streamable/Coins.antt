-- ===== src/Streamable/Coins.antt =====
-- The coins, coin spends and spend bundles of relay/streamable.py.
pub mod Bundles
pub mod Amounts
use spellbook.Prelude.{
  ℕ, zero, suc, ◌+◌, ◌*◌, ◌/◌, Bool, true, false, ◌&&◌, not, Option, none, some, List, [], ◌∷◌,
  ◌++◌, ltb, leb, ◌==◌, number_IsKey, length, if◌then◌else◌,
}
use spellbook.Streamable.Bytes.{
  Bytes, be, Parser, ◌>>=◌, ◌>>◌, pure, require, finish, Encoded, ◌<>◌,
}
use spellbook.Streamable.Values.{
  enc_uint, dec_uint, enc_bytes_fixed, dec_bytes_fixed, enc_optional, dec_optional, join, repeat,
}
use spellbook.Streamable.Clvm.{enc_program, dec_program}

pub record Coin : Type 0 where
  pub parent_coin_info : Bytes
  pub puzzle_hash : Bytes
  pub amount : ℕ

unfoldable pub enc_coin : Coin → Encoded
enc_coin c =
    enc_bytes_fixed c.parent_coin_info 32 <> enc_bytes_fixed c.puzzle_hash 32 <> enc_uint 8 c.amount

unfoldable pub dec_coin : Parser Coin
dec_coin = dec_bytes_fixed 32 >>= λ parent. dec_bytes_fixed 32 >>= λ puzzle. dec_uint 8 >>= λ v.
    pure (record { parent_coin_info = parent; puzzle_hash = puzzle; amount = v })

-- `(n.bit_length() + 7) // 8`. A number has no more bytes than its value.
unfoldable pub byte_length : ℕ → ℕ → ℕ
byte_length zero n = 0
byte_length (suc fuel) n = elim (n == 0) [ true ↦ 0 | false ↦ suc (byte_length fuel (n / 256)) ]

-- A leading zero byte where the high bit is set.
unfoldable pub unsigned_form : Bytes → Bytes
unsigned_form [] = []
unsigned_form (b ∷ raw) = if leb 128 b then 0 ∷ b ∷ raw else b ∷ raw

unfoldable pub int_to_bytes : ℕ → Bytes
unfolding be
int_to_bytes n = if n == 0 then [] else unsigned_form (be (byte_length n n) n)

-- `coin_id`; the hash is a parameter.
unfoldable pub coin_id : (Bytes → Bytes) → Coin → Encoded
coin_id sha256 c =
    if length c.parent_coin_info == 32 && length c.puzzle_hash == 32
    then some (sha256 (c.parent_coin_info ++ (c.puzzle_hash ++ int_to_bytes c.amount)))
    else none

pub record CoinState : Type 0 where
  pub coin : Coin
  pub spent_height : Option ℕ
  pub created_height : Option ℕ

unfoldable pub enc_coin_state : CoinState → Encoded
enc_coin_state cs =
    enc_coin cs.coin
    <> enc_optional cs.spent_height (enc_uint 4)
    <> enc_optional cs.created_height (enc_uint 4)

unfoldable pub dec_coin_state : Parser CoinState
dec_coin_state = dec_coin >>= λ c. dec_optional (dec_uint 4) >>= λ spent.
    dec_optional (dec_uint 4) >>= λ created.
    pure (record { coin = c; spent_height = spent; created_height = created })

pub record CoinSpend : Type 0 where
  pub coin : Coin
  pub puzzle_reveal : Bytes
  pub solution : Bytes

unfoldable pub enc_coin_spend : CoinSpend → Encoded
enc_coin_spend cs = enc_coin cs.coin <> enc_program cs.puzzle_reveal <> enc_program cs.solution

unfoldable pub dec_coin_spend : ℕ → Parser CoinSpend
dec_coin_spend max_program = dec_coin >>= λ c. dec_program max_program >>= λ reveal.
    dec_program max_program >>= λ answer.
    pure (record { coin = c; puzzle_reveal = reveal; solution = answer })

pub record SpendBundle : Type 0 where
  pub coin_spends : List CoinSpend
  pub aggregated_signature : Bytes

unfoldable pub enc_spend_bundle : SpendBundle → Encoded
enc_spend_bundle sb =
    enc_uint 4 (length sb.coin_spends)
    <> join enc_coin_spend sb.coin_spends
    <> enc_bytes_fixed sb.aggregated_signature 96

-- `_MAX_COIN_SPENDS`
abbrev pub max_coin_spends : ℕ
max_coin_spends = 10000

-- `_MAX_PROGRAM_BYTES`
abbrev pub max_program_bytes : ℕ
max_program_bytes = 2097152

unfoldable pub read_spend_bundle : Parser SpendBundle
read_spend_bundle = dec_uint 4 >>= λ n.
    require (not (n == 0))
    >> (require (leb n max_coin_spends)
        >> (repeat (dec_coin_spend max_program_bytes) n >>= λ spends.
            dec_bytes_fixed 96 >>= λ signature.
            pure (record { coin_spends = spends; aggregated_signature = signature })))

-- `parse_spend_bundle`
unfoldable pub parse_spend_bundle : Bytes → Option SpendBundle
parse_spend_bundle bundle = if length bundle == 0 then none else finish (read_spend_bundle bundle)
