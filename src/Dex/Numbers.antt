-- ===== src/Dex/Numbers.antt =====
-- Python's `int(text, base)`, of ASCII digits: how dex.py reads a transaction's value and the chains
-- of the configuration. `none` is a ValueError.
use spellbook.Prelude.{
  ℕ, ◌+◌, ◌*◌, Bool, false, not, ◌||◌, Option, none, some, [], ◌∷◌, ltb, ◌==◌, number_IsKey,
  if◌then◌else◌,
}
use spellbook.Prelude.Options.{◌>>=◌}
use spellbook.Prelude.Codes.{hex_digit, strip}
use spellbook.Streamable.Utf8.{Text}
use spellbook.Abi.Values.{ℤ, pos, negate}

-- Digits of a base, onto a number. An underscore may stand between two of them: after a digit the
-- flag is set.
unfoldable pub read_digits : ℕ → Bool → ℕ → Text → Option ℕ
unfolding hex_digit
read_digits base after_digit n [] = if after_digit then some n else none
read_digits base after_digit n (c ∷ s) =
    let digit : ℕ = elim (hex_digit c) [ none ↦ base | some d ↦ d ] in
    let rest = read_digits base (not (c == 95)) (if c == 95 then n else n * base + digit) s in
    if c == 95 then (if after_digit then rest else none) else if ltb digit base then rest else none

-- One underscore may follow a prefix.
abbrev pub after_prefix : Text → Text
after_prefix [] = []
after_prefix (c ∷ s) = if c == 95 then s else c ∷ s

-- Base 0 of what starts with a zero: the base its prefix names, or no digit but zero.
unfoldable pub read_prefixed : Text → Option ℕ
unfolding read_digits
read_prefixed [] = none
read_prefixed (c ∷ []) = read_digits 10 false 0 (c ∷ [])
read_prefixed (c ∷ p ∷ s) =
    if not (c == 48)
    then read_digits 10 false 0 (c ∷ p ∷ s)
    else if p == 120 || p == 88
    then read_digits 16 false 0 (after_prefix s)
    else if p == 111 || p == 79
    then read_digits 8 false 0 (after_prefix s)
    else if p == 98 || p == 66
    then read_digits 2 false 0 (after_prefix s)
    else (do n ← read_digits 10 false 0 (c ∷ p ∷ s); if n == 0 then some n else none)

abbrev signed_as : (ℕ → ℤ) → Option ℕ → Option ℤ
signed_as f o = o >>= λ n. some (f n)

unfoldable pub with_sign : (Text → Option ℕ) → Text → Option ℤ
with_sign read [] = none
with_sign read (c ∷ s) =
    if c == 45
    then signed_as negate (read s)
    else if c == 43
    then signed_as pos (read s)
    else signed_as pos (read (c ∷ s))

-- `int(text, 0)`
unfoldable pub int_base_0 : Text → Option ℤ
unfolding with_sign read_prefixed
int_base_0 s = with_sign read_prefixed (strip s)

-- `int(text, 10)`
unfoldable pub int_base_10 : Text → Option ℤ
unfolding with_sign read_digits
int_base_10 s = with_sign (read_digits 10 false 0) (strip s)
