-- ===== src/Streamable/Coins/Bundles.antt =====
-- Coins and spend bundles are read back from their encodings.
use spellbook.Prelude.{
  ℕ, ◌≤◌, ◌≡◌, ap, some, All, All-map, arith, number_IsKey, length, length-append,
}
use spellbook.Streamable.Bytes.{Bytes, <>-eq-some}
use spellbook.Streamable.Reads.{Reads, Reads-then, Reads-pure, Reads-require, finish-eq-some}
use spellbook.Streamable.RoundTrips.{
  uint-Reads, uint-length, bytes_fixed-Reads, optional-Reads, join-Reads,
}
use spellbook.Streamable.Clvm.Programs.{program-Reads}
use spellbook.Streamable.Coins.{
  Coin, enc_coin, dec_coin, CoinState, enc_coin_state, dec_coin_state, CoinSpend, enc_coin_spend,
  dec_coin_spend, SpendBundle, enc_spend_bundle, max_coin_spends, max_program_bytes,
  read_spend_bundle, parse_spend_bundle,
}

pub coin-Reads : (c : Coin) → Reads (enc_coin c) dec_coin c
unfolding enc_coin dec_coin
coin-Reads c =
    Reads-then _ (bytes_fixed-Reads c.parent_coin_info 32)
      (Reads-then _ (bytes_fixed-Reads c.puzzle_hash 32) (Reads-pure _ (uint-Reads 8 c.amount)))

pub coin_state-Reads : (cs : CoinState) → Reads (enc_coin_state cs) dec_coin_state cs
unfolding enc_coin_state dec_coin_state
coin_state-Reads cs = Reads-then _ (coin-Reads cs.coin) (
    Reads-then _ (optional-Reads cs.spent_height (uint-Reads 4))
      (Reads-pure _ (optional-Reads cs.created_height (uint-Reads 4))))

-- Both programs of a coin spend are within the limit.
abbrev pub IsWithin : ℕ → CoinSpend → Type 0
IsWithin max_program cs =
    (length cs.puzzle_reveal ≤ max_program) × (length cs.solution ≤ max_program)

pub coin_spend-Reads :
    (max_program : ℕ) (cs : CoinSpend)
    → IsWithin max_program cs
    → Reads (enc_coin_spend cs) (dec_coin_spend max_program) cs
unfolding enc_coin_spend dec_coin_spend
coin_spend-Reads max_program cs (reveal, answer) = Reads-then _ (coin-Reads cs.coin) (
    Reads-then _ (program-Reads max_program cs.puzzle_reveal reveal)
      (Reads-pure _ (program-Reads max_program cs.solution answer)))

pub bundle-Reads :
    (sb : SpendBundle)
    → 1 ≤ length sb.coin_spends
    → length sb.coin_spends ≤ max_coin_spends
    → All (IsWithin max_program_bytes) sb.coin_spends
    → Reads (enc_spend_bundle sb) read_spend_bundle sb
unfolding enc_spend_bundle read_spend_bundle
bundle-Reads sb some_spend few within = Reads-then _ (uint-Reads 4 (length sb.coin_spends)) (
    Reads-require (ground arith) (
      Reads-require (ground arith) (
        Reads-then _
          (join-Reads _ _ sb.coin_spends
            (All-map _ _ (coin_spend-Reads max_program_bytes) sb.coin_spends within))
          (Reads-pure _ (bytes_fixed-Reads sb.aggregated_signature 96)))))

nonempty-bundle : (sb : SpendBundle) (b : Bytes) → enc_spend_bundle sb ≡ some b → 1 ≤ length b
unfolding enc_spend_bundle
nonempty-bundle sb b h =
    let (p, q, count, tail, b_eq) = <>-eq-some _ _ b h in
    let four = uint-length 4 (length sb.coin_spends) p count in
    omega (arith, ap length b_eq, length-append p q)

-- A bundle of one to 10,000 coin spends, with no program above 2 MiB, that encodes is parsed back from
-- its encoding.
pub parse_spend_bundle-enc_spend_bundle :
    (sb : SpendBundle) (bundle : Bytes)
    → enc_spend_bundle sb ≡ some bundle
    → 1 ≤ length sb.coin_spends
    → length sb.coin_spends ≤ max_coin_spends
    → All (IsWithin max_program_bytes) sb.coin_spends
    → parse_spend_bundle bundle ≡ some sb
unfolding parse_spend_bundle
parse_spend_bundle-enc_spend_bundle sb bundle h some_spend few within =
    let whole = finish-eq-some bundle (bundle-Reads sb some_spend few within) h in
    let filled = nonempty-bundle sb bundle h in ground arith
