-- ===== src/Dex/Pins/Accepted.antt =====
-- Which addresses dex.py accepts for a chain and a role, and the operator's overrides of them.
use spellbook.Prelude.{
  ℕ, not, ◌&&◌, ◌||◌, Option, none, some, [], ◌∷◌, ◌==◌, length, number_IsKey, bytes_IsKey,
  contains, ltb, if◌then◌else◌,
}
use spellbook.Prelude.Options.{◌>>=◌, ◌>>◌, guard}
use spellbook.Prelude.Codes.{lower_text}
use spellbook.Prelude.Dict.{Dict, get, get_or, has, insert}
use spellbook.Streamable.Utf8.{Text}
use spellbook.Abi.Values.{ℤ, pos, negsuc}
use spellbook.Dex.Tokens.{is_address, is_zero_address}
use spellbook.Dex.Numbers.{int_base_10}
use spellbook.Dex.Pins.{
  Pins, Overrides, pinned_table, alternates, pinned_source, override_source, pin_roles,
}

-- `d.update(e)`
unfoldable pub update {ℓ} : {V : Type ℓ} → Dict Text V → Dict Text V → Dict Text V
update d [] = d
update d ((k, v) ∷ e) = update (insert k v d) e

unfoldable pub pinned_contracts : ℕ → Overrides → Pins
unfolding update
pinned_contracts chain_id overrides =
    update (get_or chain_id [] pinned_table) (get_or chain_id [] overrides)

-- Each address with its source.
abbrev pub Sources : Type 0
Sources = Dict Text (Option Text)

abbrev pub sourced : Pins → Sources
sourced [] = []
sourced ((a, s) ∷ pins) = (a, some s) ∷ sourced pins

unfoldable pub pinned_set : ℕ → Text → Overrides → Sources
unfolding update pinned_source
pinned_set chain_id role overrides = elim (get role (get_or chain_id [] overrides)) [
  | some a ↦ (a, some override_source) ∷ []
  | none ↦ elim (get role (get_or chain_id [] pinned_table)) [
    | none ↦ []
    | some primary ↦
        update ((primary, pinned_source chain_id role) ∷ []) (sourced (alternates chain_id role))
  ]
]

-- `pin_source`, of a given address.
unfoldable pub pin_source : ℕ → Text → Overrides → Text → Option Text
unfolding pinned_set
pin_source chain_id role overrides address =
    if has role (get_or chain_id [] overrides)
    then some override_source
    else get_or (lower_text address) none (pinned_set chain_id role overrides)

unfoldable pub pinned_contract : ℕ → Text → Overrides → Option Text
unfolding pinned_contracts
pinned_contract chain_id role overrides = get role (pinned_contracts chain_id overrides) >>= λ addr.
    if length addr == 0 then none else some addr

-- A caller may leave the address out, or leave it empty.
unfoldable pub resolve_pinned : ℕ → Text → Option Text → Overrides → Option Text
unfolding pinned_contract
resolve_pinned chain_id role supplied overrides = do
  addr ← pinned_contract chain_id role overrides
  elim supplied [
    | none ↦ some addr
    | some s ↦ if length s == 0 || lower_text s == addr then some addr else none
  ]

unfoldable pub require_pinned_member : ℕ → Text → Text → Overrides → Option Text
unfolding pinned_set pinned_contract
require_pinned_member chain_id role address overrides =
    if is_address address && has (lower_text address) (pinned_set chain_id role overrides)
    then some (lower_text address)
    else none

-- A role's entry of the configuration: an address, or another JSON value.
abbrev pub RawPins : Type 0
RawPins = Dict Text (Option Text)

-- `dex.pinned_contracts` of the configuration: an object of objects, or another value.
pub data RawOverrides : Type 0 where
  absent not_object : RawOverrides
  object : Dict Text (Option RawPins) → RawOverrides

-- The inner loop of `parse_pin_overrides`.
unfoldable pub add_roles : ℕ → RawPins → Overrides → Option Overrides
add_roles chain_id [] out = some out
add_roles chain_id ((role, none) ∷ roles) out = none
add_roles chain_id ((role, some addr) ∷ roles) out =
    let next = insert chain_id (insert role (lower_text addr) (get_or chain_id [] out)) out in
    let rest = add_roles chain_id roles next in
    if contains role pin_roles && (is_address addr && not (is_zero_address addr))
    then rest
    else none

-- A chain id above zero.
abbrev pub chain_of : ℤ → Option ℕ
chain_of (pos n) = if ltb 0 n then some n else none
chain_of (negsuc n) = none

-- Its outer loop.
unfoldable pub add_chains : Dict Text (Option RawPins) → Overrides → Option Overrides
unfolding add_roles int_base_10
add_chains [] out = some out
add_chains ((cid, none) ∷ raw) out = none
add_chains ((cid, some roles) ∷ raw) out = do
  chain_id ← int_base_10 cid >>= chain_of
  guard (ltb 0 (length roles))
  next ← add_roles chain_id roles out
  add_chains raw next

unfoldable pub parse_pin_overrides : RawOverrides → Option Overrides
unfolding add_chains
parse_pin_overrides absent = some []
parse_pin_overrides not_object = none
parse_pin_overrides (object raw) = add_chains raw []
