-- ===== src/Streamable/Values.antt =====
-- The numbers, flags, byte strings and sequences of relay/streamable.py.
use spellbook.Prelude.{
  ℕ, zero, suc, ◌+◌, ◌*◌, ◌/◌, ◌%◌, ◌^◌, Bool, true, false, Option, none, some, List, [], ◌∷◌, ◌++◌,
  ltb, leb, ◌==◌, number_IsKey, length, if◌then◌else◌,
}
use spellbook.Streamable.Bytes.{
  Bytes, be, from_be, Parser, ◌>>=◌, ◌>>◌, pure, require, read, Encoded, ◌<>◌,
}

-- `_check_range` and `struct.pack`, by the number of bytes.
unfoldable pub enc_uint : ℕ → ℕ → Encoded
unfolding be
enc_uint w v = if ltb v (256 ^ w) then some (be w v) else none

unfoldable pub dec_uint : ℕ → Parser ℕ
dec_uint w = read w >>= λ b. pure (from_be b)

-- The two halves of 64 bits.
unfoldable pub enc_u128 : ℕ → Encoded
enc_u128 v = if ltb v (256 ^ 16) then some (be 8 (v / 256 ^ 8) ++ be 8 (v % 256 ^ 8)) else none

unfoldable pub dec_u128 : Parser ℕ
dec_u128 = dec_uint 8 >>= λ hi. dec_uint 8 >>= λ lo. pure (hi * 256 ^ 8 + lo)

unfoldable pub enc_bool : Bool → Encoded
enc_bool v = if v then some (1 ∷ []) else some (0 ∷ [])

unfoldable pub bool_of : Bytes → Option Bool
bool_of (x ∷ []) = if x == 1 then some true else if x == 0 then some false else none
bool_of _ = none

-- The reader that fails where the option is absent.
unfoldable pub lift : {A : Type 0} → Option A → Parser A
lift none s = none
lift (some a) s = some (a, s)

unfoldable pub dec_bool : Parser Bool
dec_bool = read 1 >>= λ b. lift (bool_of b)

unfoldable pub enc_bytes_var : Bytes → Encoded
enc_bytes_var b = enc_uint 4 (length b) <> some b

unfoldable pub dec_bytes_var : ℕ → Parser Bytes
dec_bytes_var max_len = dec_uint 4 >>= λ n. require (leb n max_len) >> read n

unfoldable pub enc_bytes_fixed : Bytes → ℕ → Encoded
enc_bytes_fixed b size = if length b == size then some b else none

unfoldable pub dec_bytes_fixed : ℕ → Parser Bytes
dec_bytes_fixed size = read size

unfoldable pub enc_optional : {A : Type 0} → Option A → (A → Encoded) → Encoded
enc_optional none enc_item = some (0 ∷ [])
enc_optional (some v) enc_item = some (1 ∷ []) <> enc_item v

-- `dec_optional_u32` and `dec_optional_str`, which differ in the reader of the item.
unfoldable pub dec_optional : {A : Type 0} → Parser A → Parser (Option A)
dec_optional dec_item =
    dec_bool >>= λ present. if present then (dec_item >>= λ v. pure (some v)) else pure none

-- `b"".join(enc_item(it) for it in items)`
unfoldable pub join : {A : Type 0} → (A → Encoded) → List A → Encoded
join enc_item [] = some []
join enc_item (v ∷ vs) = enc_item v <> join enc_item vs

-- `[dec_item(r) for _ in range(n)]`
unfoldable pub repeat : {A : Type 0} → Parser A → ℕ → Parser (List A)
repeat dec_item zero = pure []
repeat dec_item (suc n) = dec_item >>= λ v. repeat dec_item n >>= λ vs. pure (v ∷ vs)

unfoldable pub enc_list : {A : Type 0} → List A → (A → Encoded) → Encoded
enc_list items enc_item = enc_uint 4 (length items) <> join enc_item items

unfoldable pub dec_list : {A : Type 0} → Parser A → ℕ → Parser (List A)
dec_list dec_item max_items = dec_uint 4 >>= λ n. require (leb n max_items) >> repeat dec_item n
