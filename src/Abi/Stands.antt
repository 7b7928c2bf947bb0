-- ===== src/Abi/Stands.antt =====
-- Where the encoded bytes of src/spellbook/abi.py stand in the data, and what is read there.
use mathlib.Core.List.{append_assoc, append-nil}
use spellbook.Prelude.{
  ℕ, zero, suc, ◌+◌, ◌^◌, ◌<◌, ◌≡◌, refl, sym, ap, ◌∙◌, some, [], ◌∷◌, ◌++◌, length, take, drop,
  take-append, drop-append, arith,
}
use spellbook.Prelude.Options.{bind_of}
use spellbook.Streamable.Bytes.{Bytes, be, from_be, length-be, from_be-be}
use spellbook.Streamable.Values.{enc_uint}
use spellbook.Abi.Encode.{word}
use spellbook.Abi.Decode.Spans.{read_word, read_number}

abbrev pub StandsAt : Bytes → ℕ → Bytes → Type 0
StandsAt blob at b = (rest : Bytes) × (drop at blob ≡ b ++ rest)

drop-nil : (n : ℕ) → drop {A = ℕ} n [] ≡ []
drop-nil zero = refl
drop-nil (suc n) = refl

suc-add : (m n : ℕ) → suc m + n ≡ suc (m + n)
suc-add m n = omega arith

drop-add : (m n : ℕ) (xs : Bytes) → drop (m + n) xs ≡ drop n (drop m xs)
drop-add zero n xs = ap (λ k. drop k xs) (omega arith)
drop-add (suc m) n [] = drop-nil (suc m + n) ∙ sym (drop-nil n)
drop-add (suc m) n (x ∷ xs) = ap (λ k. drop k (x ∷ xs)) (suc-add m n) ∙ drop-add m n xs

pub StandsAt-left :
    (blob : Bytes) (at : ℕ) (a b : Bytes) → StandsAt blob at (a ++ b) → StandsAt blob at a
StandsAt-left blob at a b (rest, h) = (b ++ rest, h ∙ append_assoc a b rest)

pub StandsAt-right :
    (blob : Bytes) (at : ℕ) (a b : Bytes)
    → StandsAt blob at (a ++ b)
    → StandsAt blob (at + length a) b
StandsAt-right blob at a b (rest, h) = (
  rest,
  drop-add at (length a) blob
      ∙ ap (drop (length a)) (h ∙ append_assoc a b rest)
      ∙ drop-append a (b ++ rest),
)

pub StandsAt-nil : (blob : Bytes) (at : ℕ) → StandsAt blob at []
StandsAt-nil blob at = (drop at blob, refl)

pub StandsAt-whole : (b : Bytes) → StandsAt b 0 b
StandsAt-whole b = ([], sym (append-nil b))

pub take-StandsAt :
    (blob : Bytes) (at : ℕ) (b : Bytes) → StandsAt blob at b → take (length b) (drop at blob) ≡ b
take-StandsAt blob at b (rest, h) = ap (take (length b)) h ∙ take-append b rest

pub read_word-StandsAt :
    (blob : Bytes) (at : ℕ) (b : Bytes)
    → length b ≡ 32
    → StandsAt blob at b
    → read_word blob at ≡ some b
unfolding read_word
read_word-StandsAt blob at b h s =
    rw (ap (λ n. take n (drop at blob)) (sym h) ∙ take-StandsAt blob at b s) (ground arith)

pub word-some : (n : ℕ) (w : Bytes) → word n ≡ some w → (n < 256 ^ 32) × (be 32 n ≡ w)
unfolding word enc_uint
word-some n w h = (ground arith, ground arith)

pub length-word : (n : ℕ) (w : Bytes) → word n ≡ some w → length w ≡ 32
length-word n w h = ap length (sym (word-some n w h).1) ∙ length-be 32 n

pub from_be-word : (n : ℕ) (w : Bytes) → word n ≡ some w → from_be w ≡ n
from_be-word n w h = ap from_be (sym (word-some n w h).1) ∙ from_be-be 32 n (word-some n w h).0

pub read_number-StandsAt :
    (blob : Bytes) (at n : ℕ) (w : Bytes)
    → word n ≡ some w
    → StandsAt blob at w
    → read_number blob at ≡ some n
unfolding read_number
read_number-StandsAt blob at n w h s =
    bind_of (read_word blob at) (λ w. some (from_be w)) w
      (read_word-StandsAt blob at w (length-word n w h) s)
    ∙ ap some (from_be-word n w h)
