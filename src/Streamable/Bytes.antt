-- ===== src/Streamable/Bytes.antt =====
-- Bytes, big-endian numbers, and the reader of relay/streamable.py. A reader is what remains of its
-- data; `none` is a StreamableError.
use spellbook.Prelude.{
  ℕ, zero, suc, ◌+◌, ◌*◌, ◌/◌, ◌%◌, ◌^◌, ◌<◌, ◌≡◌, refl, ◌∙◌, Bool, Option, none, some, List, [],
  ◌∷◌, ◌++◌, arith, leb, length, take, drop, length-append, take-append, drop-append, if◌then◌else◌,
}
use native.Mathlib.Nat.{pow-suc}

abbrev pub Bytes : Type 0
Bytes = List ℕ

-- `v.to_bytes(w, "big")` for a value that fits.
unfoldable pub be : ℕ → ℕ → Bytes
be zero v = []
be (suc w) v = be w (v / 256) ++ v % 256 ∷ []

unfoldable pub from_be_onto : ℕ → Bytes → ℕ
from_be_onto acc [] = acc
from_be_onto acc (b ∷ bs) = from_be_onto (acc * 256 + b) bs

-- `int.from_bytes(bs, "big")`
unfoldable pub from_be : Bytes → ℕ
unfolding from_be_onto
from_be bs = from_be_onto 0 bs

pub length-be : (w v : ℕ) → length (be w v) ≡ w
unfolding be
length-be zero v = refl
length-be (suc w) v =
    omega (arith, length-append (be w (v / 256)) (v % 256 ∷ []), length-be w (v / 256))

from_be_onto-append :
    (acc : ℕ) (xs ys : Bytes) → from_be_onto acc (xs ++ ys) ≡ from_be_onto (from_be_onto acc xs) ys
unfolding from_be_onto
from_be_onto-append acc [] ys = refl
from_be_onto-append acc (x ∷ xs) ys = from_be_onto-append (acc * 256 + x) xs ys

div_fits : (w v : ℕ) → v < 256 ^ suc w → v / 256 < 256 ^ w
div_fits w v h = omega (arith, pow-suc 256 w)

-- A number that fits its width is read back from its bytes.
pub from_be-be : (w v : ℕ) → v < 256 ^ w → from_be (be w v) ≡ v
unfolding from_be be
from_be-be zero v h = omega arith
from_be-be (suc w) v h =
    from_be_onto-append 0 (be w (v / 256)) (v % 256 ∷ [])
    ∙ unfold from_be_onto in omega (arith, from_be-be w (v / 256) (div_fits w v h))

abbrev pub Parser : Type 0 → Type 0
Parser A = Bytes → Option (A × Bytes)

infixl 5 ◌>>=◌ ◌>>◌
unfoldable pub ◌>>=◌ : {A B : Type 0} → Parser A → (A → Parser B) → Parser B
◌>>=◌ m f s = elim (m s) [ none ↦ none | some (a, s') ↦ f a s' ]

abbrev pub ◌>>◌ : {A B : Type 0} → Parser A → Parser B → Parser B
m >> k = m >>= λ _. k

abbrev pub pure : {A : Type 0} → A → Parser A
pure a s = some (a, s)

-- `raise StreamableError` unless the test holds.
abbrev pub require : Bool → Parser (Unit {0})
require b s = if b then some (tt, s) else none

-- `_Reader.read`
unfoldable pub read : ℕ → Parser Bytes
read n s = if leb n (length s) then some (take n s, drop n s) else none

-- `if not r.eof(): raise`
abbrev pub finish : {A : Type 0} → Option (A × Bytes) → Option A
finish none = none
finish (some (a, [])) = some a
finish (some (a, b ∷ s)) = none

pub read-append : (n : ℕ) (b rest : Bytes) → length b ≡ n → read n (b ++ rest) ≡ some (b, rest)
unfolding read
read-append n b rest h =
    rw (← h) (ground (arith, take-append b rest, drop-append b rest, length-append b rest))

-- An encoder's result; `none` is a StreamableError.
abbrev pub Encoded : Type 0
Encoded = Option Bytes

infixr 60 ◌<>◌
abbrev pub ◌<>◌ : Encoded → Encoded → Encoded
none <> y = none
some a <> none = none
some a <> some b = some (a ++ b)

pub <>-eq-some :
    (x y : Encoded) (b : Bytes)
    → (x <> y) ≡ some b
    → (p : Bytes) × (q : Bytes) × (x ≡ some p) × (y ≡ some q) × (b ≡ p ++ q)
<>-eq-some none y b h = cc
<>-eq-some (some p) none b h = cc
<>-eq-some (some p) (some q) b h = (p, q, refl, refl, ground arith)

-- What an encoder writes its decoder reads, whatever follows.
abbrev pub RoundTrips : {A : Type 0} → (A → Encoded) → Parser A → Type 0
RoundTrips {A} enc dec =
    (v : A) (b : Bytes) → enc v ≡ some b → (rest : Bytes) → dec (b ++ rest) ≡ some (v, rest)
