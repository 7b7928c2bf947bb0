-- ===== src/Examples/Streamable.antt =====
-- The codec's theorems at concrete frames.
use spellbook.Prelude.{
  ℕ, zero, suc, ◌≤◌, ◌≡◌, ◌≢◌, refl, some, [], ◌∷◌, List, arith, Bool, true, ◌&&◌, ◌==◌,
  number_IsKey,
}
use spellbook.Streamable.Bytes.{Bytes, be}
use spellbook.Streamable.Values.{enc_uint, enc_bytes_var, enc_optional, join, enc_list}
use spellbook.Streamable.Clvm.{
  leading_ones, clvm_step, out_of_fuel, clvm_loop, ended_at, clvm_program_length,
}
use spellbook.Streamable.Clvm.Scanner.{clvm_program_length_bounds}
use spellbook.Streamable.Coins.{parse_spend_bundle}
use spellbook.Streamable.Coins.Bundles.{parse_spend_bundle-enc_spend_bundle}
use spellbook.Streamable.Utf8.{enc_char, utf8_encode, counted, enc_str}
use spellbook.Streamable.Messages.{
  Message, enc_message, enc_capability, enc_handshake, make_outbound_handshake,
}
use spellbook.Examples.Bundle.{one_spend, one_spend_bytes, one_spend_encodes}

parse_spend_bundle-enc_spend_bundle_example : parse_spend_bundle one_spend_bytes ≡ some one_spend
parse_spend_bundle-enc_spend_bundle_example =
    parse_spend_bundle-enc_spend_bundle one_spend one_spend_bytes one_spend_encodes (omega arith)
      (omega arith) ((omega arith, omega arith), tt)

clvm_program_length_bounds_example :
    (clvm_loop 4 1 0 (255 ∷ 1 ∷ 128 ∷ []) ≢ out_of_fuel)
    × ((n : ℕ) → clvm_program_length (255 ∷ 1 ∷ 128 ∷ []) ≡ some n → (1 ≤ n) × (n ≤ 3))
clvm_program_length_bounds_example = clvm_program_length_bounds (255 ∷ 1 ∷ 128 ∷ [])

pair_length : clvm_program_length (255 ∷ 1 ∷ 128 ∷ []) ≡ some 3
unfolding ended_at clvm_program_length clvm_loop clvm_step
pair_length = refl

-- "é€"
abbrev accents : List ℕ
accents = 233 ∷ 8364 ∷ []

accents_encode : utf8_encode accents ≡ some (195 ∷ 169 ∷ 226 ∷ 130 ∷ 172 ∷ [])
unfolding utf8_encode join enc_char
accents_encode = refl

abbrev ack : Message
ack = record { msg_type = 49; id = some 258; payload = 7 ∷ [] }

ack_encodes : enc_message ack ≡ some (49 ∷ 1 ∷ 1 ∷ 2 ∷ 0 ∷ 0 ∷ 0 ∷ 1 ∷ 7 ∷ [])
unfolding enc_message enc_uint be enc_optional enc_bytes_var
ack_encodes = refl

-- The outbound handshake on the network "t".
abbrev handshake_bytes : Bytes
handshake_bytes =
    0 ∷ 0 ∷ 0 ∷ 1 ∷ 116 ∷ 0 ∷ 0 ∷ 0 ∷ 6 ∷ 48 ∷ 46 ∷ 48 ∷ 46 ∷ 51 ∷ 55 ∷ 0 ∷ 0 ∷ 0 ∷ 5 ∷ 48 ∷ 46 ∷ 48
    ∷ 46 ∷ 48 ∷ 0 ∷ 0 ∷ 6 ∷ 0 ∷ 0 ∷ 0 ∷ 3 ∷ 0 ∷ 1 ∷ 0 ∷ 0 ∷ 0 ∷ 1 ∷ 49 ∷ 0 ∷ 2 ∷ 0 ∷ 0 ∷ 0 ∷ 1 ∷ 49
    ∷ 0 ∷ 3 ∷ 0 ∷ 0 ∷ 0 ∷ 1 ∷ 49 ∷ []

outbound_encodes : enc_handshake (make_outbound_handshake (116 ∷ [])) ≡ some handshake_bytes
unfolding enc_handshake make_outbound_handshake enc_str counted utf8_encode enc_char join enc_uint
    be enc_list enc_capability
outbound_encodes = refl

-- Eight turns count the leading ones of every byte: a ninth finds no more.
abbrev upto : ℕ → (ℕ → Bool) → Bool
upto zero p = true
upto (suc n) p = p n && upto n p

eight_ones : upto 256 (λ b. leading_ones 8 b == leading_ones 9 b) ≡ true
unfolding leading_ones
eight_ones = refl
