-- ===== src/Streamable/Clvm/Programs.antt =====
-- A program is read back whole, whatever follows it.
use spellbook.Prelude.{
  ℕ, ◌≤◌, ◌≡◌, refl, ap, ◌∙◌, Option, none, some, ◌++◌, arith, number_IsKey, length, true,
}
use spellbook.Streamable.Bytes.{Bytes}
use spellbook.Streamable.Reads.{Reads, bind-some, Reads-require}
use spellbook.Streamable.RoundTrips.{Reads-if, Reads-none, Reads-some, read-Reads}
use spellbook.Streamable.Clvm.{
  clvm_program_length, is_length, enc_program, program_ahead, dec_program,
}
use spellbook.Streamable.Clvm.Scanner.{clvm_program_length-append}

is_length-true : (o : Option ℕ) (n : ℕ) → is_length o n ≡ true → o ≡ some n
unfolding is_length
is_length-true none n h = cc
is_length-true (some m) n h = ap some (ground arith)

ahead-some :
    (b rest : Bytes)
    → clvm_program_length b ≡ some (length b)
    → program_ahead (b ++ rest) ≡ some (length b, b ++ rest)
unfolding program_ahead
ahead-some b rest h =
    ap (λ o. elim o [ none ↦ none | some n ↦ some (n, b ++ rest) ])
      (clvm_program_length-append b rest (length b) h)

pub program-Reads :
    (max_len : ℕ) (b : Bytes) → length b ≤ max_len → Reads (enc_program b) (dec_program max_len) b
unfolding enc_program dec_program
program-Reads max_len b le =
    Reads-if (is_length (clvm_program_length b) (length b))
      (λ h. Reads-some b (λ rest.
        bind-some program_ahead _ (length b) (b ++ rest) (b ++ rest)
          (ahead-some b rest (is_length-true _ (length b) h))
        ∙ (Reads-require (ground arith) (read-Reads b (length b) refl)).reads b refl rest))
      (λ h. Reads-none)
