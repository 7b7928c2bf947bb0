-- ===== src/Abi/Singles.antt =====
-- The round trip of src/spellbook/abi.py below the arrays. The canonical form of a value is the one that
-- the decoder gives.
use mathlib.Core.Option.{some-injective}
use native.Mathlib.Nat.{pow-le-pow_right}
use spellbook.Prelude.{
  ℕ, zero, suc, ◌-◌, ◌*◌, ◌^◌, ◌<◌, ◌≤◌, ◌≡◌, refl, sym, ap, subst, ◌∙◌, Bool, true, false, ◌&&◌,
  Option, none, some, ◌++◌, length, take, take-append, length-append, leb, ◌==◌, number_IsKey,
  arith, if◌then◌else◌,
}
use spellbook.Prelude.Options.{◌>>=◌, bind-some, bind_same, if-some}
use spellbook.Streamable.Bytes.{Bytes}
use spellbook.Abi.Values.{
  Kind, address, bool, uint, int, bytes_n, bytes, string, ℤ, pos, negsuc, Value, number, flag, str,
  raw, items, coerce_bytes, uint_of, int_of, in_range,
}
use spellbook.Abi.Types.{is_variable}
use spellbook.Abi.Encode.{
  word, zeros, twos_complement, address_bytes, encode_address, encode_bytes_n, encode_single,
}
use spellbook.Abi.Decode.{hex_value, signed_of, decode_word}
use spellbook.Abi.Stands.{length-word, from_be-word}

-- The widths of the types that there are.
abbrev pub in_bounds : Kind → Bool
in_bounds (uint n) = leb n 256
in_bounds (int n) = leb 1 n && leb n 256
in_bounds (bytes_n n) = leb n 32
in_bounds _ = true

-- An address has a canonical form where its digits are those of 20 bytes.
unfoldable pub canonical_single : Kind → Value → Option Value
unfolding uint_of int_of address_bytes coerce_bytes hex_value
canonical_single (uint bits) v = uint_of bits v >>= λ n. some (number (pos n))
canonical_single (int bits) v = int_of bits v >>= λ z. some (number z)
canonical_single address v =
    address_bytes v >>= λ b. if length b == 20 then some (hex_value b) else none
canonical_single bool v = some v
canonical_single string v = some v
canonical_single _ v = coerce_bytes v >>= λ b. some (hex_value b)

uint_of-fits : (bits : ℕ) (v : Value) (n : ℕ) → uint_of bits v ≡ some n → n < 2 ^ bits
unfolding uint_of
uint_of-fits bits (number (pos m)) n h = ground arith
uint_of-fits bits (number (negsuc m)) n h = absurd cc
uint_of-fits bits (str s) n h = ground arith
uint_of-fits bits (flag b) n h = absurd cc
uint_of-fits bits (raw b) n h = absurd cc
uint_of-fits bits (items b) n h = absurd cc

in_range-checked :
    (m : Option ℤ) (t : Bool) (bits : ℕ) (z : ℤ)
    → (elim m [ none ↦ none | some y ↦ if t && in_range bits y then some y else none ]) ≡ some z
    → in_range bits z ≡ true
in_range-checked none t bits z h = absurd cc
in_range-checked (some y) true bits z h =
    let (y_in, y_z) = if-some (in_range bits y) (some y) z h in
    ap (in_range bits) (sym (some-injective y z y_z)) ∙ y_in
in_range-checked (some y) false bits z h = absurd cc

int_of-in_range : (bits : ℕ) (v : Value) (z : ℤ) → int_of bits v ≡ some z → in_range bits z ≡ true
unfolding int_of
int_of-in_range bits (number y) z h = in_range-checked (some y) true bits z h
int_of-in_range bits (str s) z h = in_range-checked _ _ bits z h
int_of-in_range bits (flag b) z h = absurd cc
int_of-in_range bits (raw b) z h = absurd cc
int_of-in_range bits (items b) z h = absurd cc

length-zeros : (n : ℕ) → length (zeros n) ≡ n
length-zeros zero = refl
length-zeros (suc n) = omega (arith, length-zeros n)

same_num : {m n : ℕ} → (m == n) ≡ true → m ≡ n
same_num h = ground arith

leb_le : {m n : ℕ} → leb m n ≡ true → m ≤ n
leb_le h = ground arith

length-padded : (r : Bytes) (n : ℕ) → length r ≡ n → n ≤ 32 → length (r ++ zeros (32 - n)) ≡ 32
length-padded r n h k = omega (arith, length-append r (zeros (32 - n)), length-zeros (32 - n))

length-padded_left : (r : Bytes) → length r ≡ 20 → length (zeros 12 ++ r) ≡ 32
length-padded_left r h = omega (arith, length-append (zeros 12) r)

half_le : (bits : ℕ) → leb 1 bits && leb bits 256 ≡ true → 2 ^ (bits - 1) * 2 ≤ 2 ^ 256
half_le bits h =
    omega (arith, pow-le-pow_right {n = 2} (omega arith) {i = bits - 1} {j = 255} (ground arith))

signed_of-twos_complement :
    (bits : ℕ) (z : ℤ)
    → leb 1 bits && leb bits 256 ≡ true
    → in_range bits z ≡ true
    → signed_of bits (twos_complement z) ≡ z
unfolding signed_of twos_complement
signed_of-twos_complement bits (pos n) h k = ground (arith, half_le bits h)
signed_of-twos_complement bits (negsuc n) h k = ground (arith, half_le bits h)

-- A word is read back as the canonical form of the value it was written from.
pub decode_word-encode_single :
    (kind : Kind) (v : Value) (b : Bytes) (c : Value)
    → in_bounds kind ≡ true
    → is_variable kind ≡ false
    → encode_single kind v ≡ some b
    → canonical_single kind v ≡ some c
    → (length b ≡ 32) × (decode_word kind b ≡ some c)
unfolding encode_single decode_word canonical_single encode_address encode_bytes_n
decode_word-encode_single (uint bits) v b c ok fixed h k =
    let (n, v_n, n_b) = bind-some (uint_of bits v) word b h in
    let c_n = bind_same (uint_of bits v) (λ n. some (number (pos n))) n c v_n k in
    (
      length-word n b n_b,
      rw (from_be-word n b n_b) (ground (arith, uint_of-fits bits v n v_n, c_n)),
    )
decode_word-encode_single (int bits) v b c ok fixed h k =
    let (z, v_z, z_b) = bind-some (int_of bits v) (λ z. word (twos_complement z)) b h in
    let c_z = bind_same (int_of bits v) (λ z. some (number z)) z c v_z k in
    (
      length-word (twos_complement z) b z_b,
      ap (λ n. some (number (signed_of bits n))) (from_be-word (twos_complement z) b z_b)
          ∙ ap (λ z. some (number z))
              (signed_of-twos_complement bits z ok (int_of-in_range bits v z v_z))
          ∙ c_z,
    )
decode_word-encode_single address v b c ok fixed h k =
    let (r, v_r, r_b) = bind-some (address_bytes v) (λ r. some (zeros 12 ++ r)) b h in
    let c_r =
      bind_same (address_bytes v) (λ r. if length r == 20 then some (hex_value r) else none) r c v_r
        k in
    let (r_20, r_c) = if-some (length r == 20) (some (hex_value r)) c c_r in
    subst (λ b. (length b ≡ 32) × (decode_word address b ≡ some c)) (some-injective _ b r_b)
      (length-padded_left r (same_num r_20), r_c)
decode_word-encode_single bool (flag true) b c ok fixed h k =
    (length-word 1 b h, rw (from_be-word 1 b h) k)
decode_word-encode_single bool (flag false) b c ok fixed h k =
    (length-word 0 b h, rw (from_be-word 0 b h) k)
decode_word-encode_single bool _ b c ok fixed h k = absurd cc
decode_word-encode_single (bytes_n n) v b c ok fixed h k =
    let (r, v_r, r_b) =
      bind-some (coerce_bytes v) (λ b. if length b == n then some (b ++ zeros (32 - n)) else none) b
        h in
    let c_r = bind_same (coerce_bytes v) (λ r. some (hex_value r)) r c v_r k in
    let (r_n, b_eq) = if-some (length r == n) (some (r ++ zeros (32 - n))) b r_b in
    subst (λ b. (length b ≡ 32) × (decode_word (bytes_n n) b ≡ some c)) (some-injective _ b b_eq)
      (
        length-padded r n (same_num r_n) (leb_le ok),
        ap (λ m. some (hex_value (take m (r ++ zeros (32 - n))))) (sym (same_num r_n))
            ∙ ap (λ d. some (hex_value d)) (take-append r (zeros (32 - n)))
            ∙ c_r,
      )
decode_word-encode_single bytes v b c ok fixed h k = absurd cc
decode_word-encode_single string v b c ok fixed h k = absurd cc
