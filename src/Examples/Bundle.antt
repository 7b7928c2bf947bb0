-- ===== src/Examples/Bundle.antt =====
-- A spend bundle of one coin.
use spellbook.Prelude.{ℕ, zero, suc, ◌≡◌, refl, some, [], ◌∷◌, ◌++◌, number_IsKey}
use spellbook.Streamable.Bytes.{Bytes, be, from_be_onto}
use spellbook.Streamable.Values.{enc_uint, enc_bytes_fixed, join}
use spellbook.Streamable.Clvm.{
  leading_ones, sized_total, atom_total, clvm_step, clvm_loop, ended_at, clvm_program_length,
  is_length, enc_program,
}
use spellbook.Streamable.Coins.{enc_coin, enc_coin_spend, SpendBundle, enc_spend_bundle}

abbrev pub zeros : ℕ → Bytes
zeros zero = []
zeros (suc n) = 0 ∷ zeros n

abbrev pub one_spend : SpendBundle
one_spend = record {
  coin_spends =
      record {
        coin = record { parent_coin_info = zeros 32; puzzle_hash = zeros 32; amount = 258 };
        puzzle_reveal = 255 ∷ 1 ∷ 128 ∷ [];
        solution = 130 ∷ 7 ∷ 9 ∷ [];
      }
      ∷ [];
  aggregated_signature = zeros 96;
}

abbrev pub one_spend_bytes : Bytes
one_spend_bytes = 0 ∷ 0 ∷ 0 ∷ 1 ∷ (zeros 70 ++ (1 ∷ 2 ∷ 255 ∷ 1 ∷ 128 ∷ 130 ∷ 7 ∷ 9 ∷ zeros 96))

pub one_spend_encodes : enc_spend_bundle one_spend ≡ some one_spend_bytes
unfolding enc_spend_bundle enc_uint be join enc_coin_spend enc_coin enc_bytes_fixed enc_program
    is_length clvm_program_length ended_at clvm_loop clvm_step atom_total sized_total leading_ones
    from_be_onto
one_spend_encodes = refl
