-- ===== src/Dex/Pins/Parsed.antt =====
-- What the operator's overrides of dex.py hold once they are read.
use spellbook.Prelude.{
  All, IsKey, ℕ, ◌<◌, ◌≡◌, refl, ◌∙◌, true, false, not, ◌&&◌, Option, none, some, [], ◌∷◌, ◌==◌,
  length, ltb, number_IsKey, bytes_IsKey, contains, arith, Bool-cases, inl, inr, subst, sym,
}
use spellbook.Prelude.Options.{
  ◌>>=◌, bind-some, guard-some, some-carry, if-some, if_true, if_false, both, not-true,
}
use spellbook.Prelude.Codes.{lower_text, lower_code, lower_text_lower}
use spellbook.Prelude.Dict.{Dict, get_or, get, insert}
use spellbook.Streamable.Utf8.{Text}
use spellbook.Abi.Values.{ℤ, pos, negsuc}
use spellbook.Dex.Tokens.{is_address, is_zero_address, all_hex, is_hex_digit, all_zeros}
use spellbook.Dex.Tokens.Addresses.{is_address-digits, with_0x-is_address}
use spellbook.Dex.Numbers.{int_base_10}
use spellbook.Dex.Pins.{Pins, Overrides, pin_roles}
use spellbook.Dex.Pins.Accepted.{
  RawPins, RawOverrides, absent, not_object, object, add_roles, chain_of, add_chains,
  parse_pin_overrides,
}

-- A role that is known, and an address in lower case that is not zero.
pub record IsPin (p : Text × Text) : Type 0 where
  pub role : contains p.0 pin_roles ≡ true
  pub is_one : is_address p.1 ≡ true
  pub low : lower_text p.1 ≡ p.1
  pub filled : is_zero_address p.1 ≡ false

-- A chain above zero with such pins.
abbrev pub IsChain : ℕ × Pins → Type 0
IsChain (chain_id, pins) = (0 < chain_id) × All IsPin pins

length-lower_text : (s : Text) → length (lower_text s) ≡ length s
length-lower_text [] = refl
length-lower_text (c ∷ s) = omega (arith, length-lower_text s)

lower_hex : (c : ℕ) → is_hex_digit c ≡ true → is_hex_digit (lower_code c) ≡ true
lower_hex c h = ground arith

all_hex-lower_text : (s : Text) → all_hex s ≡ true → all_hex (lower_text s) ≡ true
all_hex-lower_text [] h = refl
all_hex-lower_text (c ∷ s) h =
    ground (arith, lower_hex c (ground arith), all_hex-lower_text s (ground arith))

lower_zero : (c : ℕ) → (lower_code c == 48) ≡ (c == 48)
lower_zero c = ground arith

all_zeros-lower_text : (s : Text) → all_zeros (lower_text s) ≡ all_zeros s
all_zeros-lower_text [] = refl
all_zeros-lower_text (c ∷ s) = rw (lower_zero c, all_zeros-lower_text s)

is_zero_address-lower_text : (s : Text) → is_zero_address (lower_text s) ≡ is_zero_address s
unfolding is_zero_address
is_zero_address-lower_text [] = refl
is_zero_address-lower_text (a ∷ []) = refl
is_zero_address-lower_text (a ∷ b ∷ s) = all_zeros-lower_text s

is_address-lower_text : (s : Text) → is_address s ≡ true → is_address (lower_text s) ≡ true
is_address-lower_text s h =
    let (digits, is_0x, long, hex) = is_address-digits s h in
    subst (λ s. is_address (lower_text s) ≡ true) (sym is_0x)
      (with_0x-is_address (lower_text digits) (omega (arith, long, length-lower_text digits))
        (all_hex-lower_text digits hex))

-- What holds of the entries of a dict holds of its entries once one is set.
module _ {K V : Type 0} ⦃e : IsKey K⦄ (P : K × V → Type 0) where
  insert-All : (k : K) (v : V) (d : Dict K V) → P (k, v) → All P d → All P (insert k v d)
  insert-All k v [] h a = (h, tt)
  insert-All k v (p ∷ d) h a = elim (Bool-cases (k == p.0)) [
    | inl same ↦ rw same (h, a.1)
    | inr other ↦ rw other (a.0, insert-All k v d h a.1)
  ]

get-IsPin :
    (chain_id : ℕ) (out : Overrides) (pins : Pins)
    → All IsChain out
    → get chain_id out ≡ some pins
    → All IsPin pins
get-IsPin chain_id [] pins h k = absurd cc
get-IsPin chain_id ((c, p) ∷ out) pins h k = elim (Bool-cases (chain_id == c)) [
  | inl same ↦ some-carry (All IsPin) (if_true _ _ _ _ same k) h.0.1
  | inr other ↦ get-IsPin chain_id out pins h.1 (if_false _ _ _ _ other k)
]

or_none :
    (o : Option Pins)
    → ((p : Pins) → o ≡ some p → All IsPin p)
    → All IsPin (elim o [ none ↦ [] | some p ↦ p ])
or_none none f = tt
or_none (some p) f = f p refl

get_or-IsPin :
    (chain_id : ℕ) (out : Overrides) → All IsChain out → All IsPin (get_or chain_id [] out)
get_or-IsPin chain_id out h = or_none (get chain_id out) (λ p. get-IsPin chain_id out p h)

pinned :
    (role addr : Text)
    → (contains role pin_roles && (is_address addr && not (is_zero_address addr))) ≡ true
    → IsPin (role, lower_text addr)
pinned role addr h =
    let (known, t) = both _ _ h in
    let (one, filled) = both _ _ t in
    record {
      role = known;
      is_one = is_address-lower_text addr one;
      low = lower_text_lower addr;
      filled = is_zero_address-lower_text addr ∙ not-true _ filled;
    }

add_roles-IsChain :
    (chain_id : ℕ) (roles : RawPins) (out parsed : Overrides)
    → 0 < chain_id
    → All IsChain out
    → add_roles chain_id roles out ≡ some parsed
    → All IsChain parsed
unfolding add_roles
add_roles-IsChain chain_id [] out parsed above h ok = some-carry (All IsChain) ok h
add_roles-IsChain chain_id ((role, none) ∷ roles) out parsed above h ok = absurd cc
add_roles-IsChain chain_id ((role, some addr) ∷ roles) out parsed above h ok =
    let (fit, rest) = if-some _ _ parsed ok in
    add_roles-IsChain chain_id roles _ parsed above
      (insert-All IsChain chain_id _ out
        (
          above,
          insert-All IsPin role (lower_text addr) (get_or chain_id [] out) (pinned role addr fit)
              (get_or-IsPin chain_id out h),
        )
        h)
      rest

chain_of-above : (z : ℤ) (n : ℕ) → chain_of z ≡ some n → 0 < n
chain_of-above (pos m) n h =
    let (above, same) = if-some (ltb 0 m) _ n h in
    some-carry (λ n. 0 < n) same (ground (arith, above))
chain_of-above (negsuc m) n h = absurd cc

add_chains-IsChain :
    (raw : Dict Text (Option RawPins)) (out parsed : Overrides)
    → All IsChain out
    → add_chains raw out ≡ some parsed
    → All IsChain parsed
unfolding add_chains
add_chains-IsChain [] out parsed h ok = some-carry (All IsChain) ok h
add_chains-IsChain ((cid, none) ∷ raw) out parsed h ok = absurd cc
add_chains-IsChain ((cid, some roles) ∷ raw) out parsed h ok =
    let (chain_id, read, ok) = bind-some (int_base_10 cid >>= chain_of) _ parsed ok in
    let (z, _, chain) = bind-some (int_base_10 cid) chain_of chain_id read in
    let (_, ok) = guard-some (ltb 0 (length roles)) _ parsed ok in
    let (next, added, ok) = bind-some (add_roles chain_id roles out) _ parsed ok in
    add_chains-IsChain raw next parsed
      (add_roles-IsChain chain_id roles out next (chain_of-above z chain_id chain) h added) ok

-- The overrides that are read are of chains above zero, and pin known roles to addresses in lower case
-- that are not zero.
pub parse_pin_overrides-IsChain :
    (raw : RawOverrides) (parsed : Overrides)
    → parse_pin_overrides raw ≡ some parsed
    → All IsChain parsed
unfolding parse_pin_overrides
parse_pin_overrides-IsChain absent parsed ok = some-carry (All IsChain) ok tt
parse_pin_overrides-IsChain not_object parsed ok = absurd cc
parse_pin_overrides-IsChain (object raw) parsed ok = add_chains-IsChain raw [] parsed tt ok
