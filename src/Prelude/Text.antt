-- ===== src/Prelude/Text.antt =====
-- What the source does to texts: ASCII lower case, hexadecimal ids, prefixes. A `String` is a list of
-- characters.
use Prim.Native.Char.{Char, code}
use spellbook.Prelude.Tests.{nat_beq, leb, if◌then◌else◌}
use Prim.Native.Nat.{ℕ, suc}
use Prim.Native.String.{String, [], ◌∷◌}
use mathlib.Core.Bool.{Bool, true, ◌&&◌, ◌||◌}
use mathlib.Core.Option.{Option, none, some}

-- The lower-case letter of each upper-case one, in order from `A`.
abbrev alphabet : String
alphabet = "abcdefghijklmnopqrstuvwxyz"

lower_from : ℕ → String → Char → Char
lower_from n [] c = c
lower_from n (a ∷ rest) c = if nat_beq (code c) n then a else lower_from (suc n) rest c

-- `str.lower` on ASCII.
unfoldable pub lower : String → String
unfolding lower_from
lower [] = []
lower (c ∷ s) = lower_from 65 alphabet c ∷ lower s

abbrev pub is_hex_code : ℕ → Bool
is_hex_code n = leb 48 n && leb n 57 || leb 97 n && leb n 102 || leb 65 n && leb n 70

unfoldable pub text_length : String → ℕ
text_length [] = 0
text_length (c ∷ s) = suc (text_length s)

unfoldable pub is_hex : String → Bool
is_hex [] = true
is_hex (c ∷ s) = is_hex_code (code c) && is_hex s

-- `_HEX64.fullmatch`
unfoldable pub is_hex64 : String → Bool
unfolding text_length is_hex
is_hex64 s = nat_beq (text_length s) 64 && is_hex s

-- What follows the prefix `p` in a text, where it starts with it.
unfoldable pub after_prefix : String → String → Option String
after_prefix [] s = some s
after_prefix (c ∷ p) [] = none
after_prefix (c ∷ p) (d ∷ s) = if nat_beq (code c) (code d) then after_prefix p s else none
