-- ===== src/Prelude/Codes.antt =====
-- Texts as lists of code points, as Python reads them: digits, white space, hexadecimal. A byte string
-- is the list of its bytes.
use Prim.Native.Nat.{ℕ, ◌+◌, ◌-◌, ◌*◌, ◌/◌, ◌%◌}
use Prim.Native.Char.{code}
use Prim.Native.String.{String, [] as empty, ◌∷◌ as ◌◂◌}
use mathlib.Core.Bool.{Bool, true, false, ◌&&◌, ◌||◌}
use mathlib.Core.Option.{Option, none, some}
use mathlib.Core.List.{List, [], ◌∷◌}
use mathlib.Core.Path.{◌≡◌, refl}
use native.Mathlib.Omega.{arith}
use spellbook.Prelude.Tests.{ltb, leb, ◌==◌, number_IsKey, if◌then◌else◌}

abbrev pub is_digit : ℕ → Bool
is_digit c = leb 48 c && leb c 57

abbrev pub all_digits : List ℕ → Bool
all_digits [] = true
all_digits (c ∷ s) = is_digit c && all_digits s

-- `s.isdigit()`, of ASCII.
abbrev pub is_decimal : List ℕ → Bool
is_decimal [] = false
is_decimal (c ∷ s) = all_digits (c ∷ s)

unfoldable pub decimal_from : ℕ → List ℕ → ℕ
decimal_from n [] = n
decimal_from n (c ∷ s) = decimal_from (n * 10 + (c - 48)) s

abbrev pub is_space : ℕ → Bool
is_space c = c == 32 || leb 9 c && leb c 13

unfoldable pub hex_digit : ℕ → Option ℕ
hex_digit c =
    if is_digit c
    then some (c - 48)
    else if leb 97 c && leb c 102
    then some (c - 87)
    else if leb 65 c && leb c 70
    then some (c - 55)
    else none

-- `bytes.fromhex`, which passes over white space between the bytes.
unfoldable pub from_hex : List ℕ → Option (List ℕ)
unfolding hex_digit
from_hex [] = some []
from_hex (a ∷ []) = if is_space a then some [] else none
from_hex (a ∷ b ∷ s) =
    let skipped = from_hex (b ∷ s) in
    let rest = from_hex s in
    if is_space a then skipped else elim (hex_digit a) [
      | none ↦ none
      | some high ↦ elim (hex_digit b) [
        | none ↦ none
        | some low ↦ elim rest [ none ↦ none | some bs ↦ some ((high * 16 + low) ∷ bs) ]
      ]
    ]

-- A lower-case digit of hexadecimal.
unfoldable pub hex_char : ℕ → ℕ
hex_char n = if ltb n 10 then 48 + n else 87 + n

-- `bytes.hex`
unfoldable pub to_hex : List ℕ → List ℕ
unfolding hex_char
to_hex [] = []
to_hex (b ∷ bs) = hex_char (b / 16) ∷ hex_char (b % 16) ∷ to_hex bs

-- "0x" in front.
abbrev pub with_0x : List ℕ → List ℕ
with_0x s = 48 ∷ 120 ∷ s

-- What follows "0x".
abbrev pub after_0x : List ℕ → Option (List ℕ)
after_0x (a ∷ b ∷ s) = if a == 48 && b == 120 then some s else none
after_0x _ = none

-- `c.isspace()`
abbrev pub is_blank : ℕ → Bool
is_blank c =
    is_space c
    || leb 28 c && leb c 31
    || c == 133
    || c == 160
    || c == 5760
    || leb 8192 c && leb c 8202
    || c == 8232
    || c == 8233
    || c == 8239
    || c == 8287
    || c == 12288

abbrev pub strip_left : List ℕ → List ℕ
strip_left [] = []
strip_left (c ∷ s) = if is_blank c then strip_left s else c ∷ s

abbrev pub all_space : List ℕ → Bool
all_space [] = true
all_space (c ∷ s) = is_blank c && all_space s

abbrev pub strip_right : List ℕ → List ℕ
strip_right [] = []
strip_right (c ∷ s) = if all_space (c ∷ s) then [] else c ∷ strip_right s

-- `s.lower()`, of ASCII.
abbrev pub lower_code : ℕ → ℕ
lower_code c = if leb 65 c && leb c 90 then c + 32 else c

abbrev pub lower_text : List ℕ → List ℕ
lower_text [] = []
lower_text (c ∷ s) = lower_code c ∷ lower_text s

-- `s.strip()`
abbrev pub strip : List ℕ → List ℕ
strip s = strip_right (strip_left s)

-- The code points of a text.
abbrev pub codes : String → List ℕ
codes empty = []
codes (c ◂ s) = code c ∷ codes s

lower_code_lower : (c : ℕ) → lower_code (lower_code c) ≡ lower_code c
lower_code_lower c = ground arith

pub lower_text_lower : (s : List ℕ) → lower_text (lower_text s) ≡ lower_text s
lower_text_lower [] = refl
lower_text_lower (c ∷ s) = rw (lower_code_lower c, lower_text_lower s)
