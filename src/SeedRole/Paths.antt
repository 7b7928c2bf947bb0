-- ===== src/SeedRole/Paths.antt =====
-- The tests that src/spellbook/seedrole.py makes on texts.
use Prim.Native.Char.{code}
use Prim.Native.String.{[], ◌∷◌}
use spellbook.Prelude.{
  String, Bool, true, false, ◌||◌, Option, none, some, ◌==◌, number_IsKey, text_IsKey,
  if◌then◌else◌,
}
use spellbook.Prelude.Text.{after_prefix}

unfoldable pub starts_with : String → String → Bool
starts_with p s = elim (after_prefix p s) [ none ↦ false | some _ ↦ true ]

-- `p in s`
unfoldable pub occurs_in : String → String → Bool
occurs_in p [] = starts_with p []
occurs_in p (c ∷ s) = starts_with p (c ∷ s) || occurs_in p s

-- `s.endswith(p)`
unfoldable pub ends_with : String → String → Bool
ends_with p [] = p == []
ends_with p (c ∷ s) = p == (c ∷ s) || ends_with p s

-- What follows the last `/` or `\`: the source makes the second into the first.
unfoldable pub last_part : String → Option String
last_part [] = none
last_part (c ∷ s) = elim (last_part s) [
  | some t ↦ some t
  | none ↦ if code c == 47 || code c == 92 then some s else none
]

-- `os.path.basename`
unfoldable pub base_name : String → String
base_name s = elim (last_part s) [ none ↦ s | some t ↦ t ]
