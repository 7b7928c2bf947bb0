-- ===== src/ChiaSign/Atoms.antt =====
-- An atom is read back from its bytes, and every atom read takes one at least.
use spellbook.Prelude.{
  ℕ, ◌+◌, ◌*◌, ◌/◌, ◌%◌, ◌≤◌, ◌<◌, ◌≡◌, ap, ◌∙◌, true, some, [], ◌∷◌, ◌++◌, arith, ltb, ◌==◌,
  number_IsKey, length, take, drop, length-drop_le, length-append, take-append, drop-append,
}
use spellbook.Streamable.Bytes.{Bytes, from_be_onto}
use spellbook.Streamable.Reads.{Reads}
use spellbook.Streamable.RoundTrips.{Reads-if, Reads-none, Reads-some}
use spellbook.ChiaSign.{is_small, ser_atom, read_sized, read_atom}

read_sized-zero : (b rest : Bytes) → read_sized 0 (length b) (b ++ rest) ≡ some (b, rest)
unfolding read_sized from_be_onto
read_sized-zero b rest =
    ground (arith, length-append b rest, take-append b rest, drop-append b rest)

read_sized-one :
    (h l : ℕ) (b rest : Bytes)
    → h * 256 + l ≡ length b
    → read_sized 1 h (l ∷ b ++ rest) ≡ some (b, rest)
unfolding read_sized from_be_onto
read_sized-one h l b rest e =
    rw e (ground (arith, length-append b rest, take-append b rest, drop-append b rest))

read_atom-short : (n : ℕ) (s : Bytes) → n < 64 → read_atom ((128 + n) ∷ s) ≡ read_sized 0 n s
unfolding read_atom
read_atom-short n s h =
    let low : read_atom ((128 + n) ∷ s) ≡ read_sized 0 ((128 + n) % 64) s = ground arith in
    low ∙ ap (λ k. read_sized 0 k s) (omega arith)

read_atom-long : (h : ℕ) (s : Bytes) → h < 32 → read_atom ((192 + h) ∷ s) ≡ read_sized 1 h s
unfolding read_atom
read_atom-long h s le =
    let low : read_atom ((192 + h) ∷ s) ≡ read_sized 1 ((192 + h) % 32) s = ground arith in
    low ∙ ap (λ k. read_sized 1 k s) (omega arith)

small-Reads : (blob : Bytes) → is_small blob ≡ true → Reads (some blob) read_atom blob
unfolding is_small
small-Reads [] h = cc
small-Reads (b ∷ []) h = Reads-some (b ∷ []) (λ rest. unfold read_atom in ground arith)
small-Reads (b ∷ c ∷ s) h = cc

pub atom-Reads : (blob : Bytes) → Reads (ser_atom blob) read_atom blob
unfolding ser_atom
atom-Reads [] =
    Reads-some (128 ∷ []) (λ rest. read_atom-short 0 rest (omega arith) ∙ read_sized-zero [] rest)
atom-Reads (b ∷ s) =
    let blob : Bytes = b ∷ s in
    Reads-if (length blob == 0) (λ h. absurd (ground arith))
      (λ filled. Reads-if (is_small blob) (small-Reads blob) (λ not_small.
        Reads-if (ltb (length blob) 64)
          (λ h. Reads-some _ (λ rest.
            read_atom-short (length blob) (blob ++ rest) (ground arith)
            ∙ read_sized-zero blob rest))
          (λ not_short.
            Reads-if (ltb (length blob) 8192)
              (λ h. Reads-some _ (λ rest.
                read_atom-long (length blob / 256) (length blob % 256 ∷ blob ++ rest) (ground arith)
                ∙ read_sized-one (length blob / 256) (length blob % 256) blob rest (omega arith)))
              (λ h. Reads-none))))

-- What follows an atom is shorter than what held it.
sized-shorter :
    (more high : ℕ) (s blob rest : Bytes)
    → read_sized more high s ≡ some (blob, rest)
    → length rest ≤ length s
unfolding read_sized
sized-shorter more high s blob rest h =
    ground
      (arith, length-drop_le more s, length-drop_le (from_be_onto high (take more s)) (drop more s))

pub read_atom-shorter :
    (b : ℕ) (s blob rest : Bytes) → read_atom (b ∷ s) ≡ some (blob, rest) → length rest ≤ length s
unfolding read_atom
read_atom-shorter b s blob rest h = ground (
  arith,
  sized-shorter 0 (b % 64) s blob rest,
  sized-shorter 1 (b % 32) s blob rest,
  sized-shorter 2 (b % 16) s blob rest,
  sized-shorter 3 (b % 8) s blob rest,
)

-- No atom starts with the byte of a pair.
pub no_pair : (s blob rest : Bytes) → ¬ (read_atom (255 ∷ s) ≡ some (blob, rest))
unfolding read_atom
no_pair s blob rest h = ground arith
