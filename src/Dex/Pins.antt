-- ===== src/Dex/Pins.antt =====
-- The pinned contracts of dex.py: the table, the operator's overrides, and the addresses that are
-- accepted for a chain and a role.
pub mod Accepted
pub mod Parsed
use spellbook.Prelude.{
  ℕ, ◌+◌, Bool, true, false, not, ◌&&◌, ◌||◌, Option, none, some, String, List, [], ◌∷◌, ◌++◌, ◌==◌,
  length, map, number_IsKey, bytes_IsKey, contains, ltb, if◌then◌else◌,
}
use spellbook.Prelude.Options.{◌>>=◌, ◌>>◌, guard}
use spellbook.Prelude.Codes.{codes, lower_text}
use spellbook.Prelude.Dict.{Dict, get, get_or, has, insert}
use spellbook.Streamable.Utf8.{Text}
use spellbook.Abi.Values.{pos, negsuc}
use spellbook.Dex.Tokens.{Venue, matcha, uniswap, cast, is_address, is_zero_address}
use spellbook.Dex.Numbers.{int_base_10}

abbrev pub allowance_holder : Text
allowance_holder = codes "allowance_holder"

abbrev pub universal_router : Text
universal_router = codes "universal_router"

abbrev pub permit2 : Text
permit2 = codes "permit2"

abbrev pub v2_router : Text
v2_router = codes "v2_router"

abbrev pub v3_position_manager : Text
v3_position_manager = codes "v3_position_manager"

abbrev pub v4_position_manager : Text
v4_position_manager = codes "v4_position_manager"

abbrev pub v4_pool_manager : Text
v4_pool_manager = codes "v4_pool_manager"

abbrev pub v4_state_view : Text
v4_state_view = codes "v4_state_view"

abbrev pub v3_swap_router : Text
v3_swap_router = codes "v3_swap_router"

abbrev pub pin_roles : List Text
pin_roles =
    allowance_holder ∷ universal_router ∷ v4_position_manager ∷ permit2 ∷ v2_router
    ∷ v3_position_manager ∷ v4_pool_manager ∷ v4_state_view ∷ v3_swap_router ∷ []

-- A role, or an address, with what belongs to it.
abbrev pub Pins : Type 0
Pins = Dict Text Text

-- `{chain_id: {role: address}}`
abbrev pub Overrides : Type 0
Overrides = Dict ℕ Pins

abbrev allowance_holder_address : Text
allowance_holder_address = codes "0x0000000000001ff3684f28c67538d4d072c22734"

abbrev permit2_address : Text
permit2_address = codes "0x000000000022d473030f116ddee9f6b43ac78ba3"

abbrev robinhood_pins : Pins
robinhood_pins =
    (allowance_holder, allowance_holder_address)
    ∷ (universal_router, codes "0x06afba43fd06227fa663b0daecf536f6eaa6bf99")
    ∷ (v4_position_manager, codes "0x58daec3116aae6d93017baaea7749052e8a04fa7")
    ∷ (v4_pool_manager, codes "0x8366a39cc670b4001a1121b8f6a443a643e40951")
    ∷ (v4_state_view, codes "0xf3334192d15450cdd385c8b70e03f9a6bd9e673b")
    ∷ (v3_position_manager, codes "0x73991a25c818bf1f1128deaab1492d45638de0d3")
    ∷ (v3_swap_router, codes "0xcaf681a66d020601342297493863e78c959e5cb2")
    ∷ (v2_router, codes "0x89e5db8b5aa49aa85ac63f691524311aeb649eba")
    ∷ (permit2, permit2_address)
    ∷ []

abbrev base_pins : Pins
base_pins =
    (allowance_holder, allowance_holder_address)
    ∷ (universal_router, codes "0x6ff5693b99212da76ad316178a184ab56d299b43")
    ∷ (v4_position_manager, codes "0x7c5f5a4bbd8fd63184577525326123b519429bdc")
    ∷ (v4_pool_manager, codes "0x498581ff718922c3f8e6a244956af099b2652b2b")
    ∷ (v4_state_view, codes "0xa3c0c9b65bad0b08107aa264b0f3db444b867a71")
    ∷ (v3_position_manager, codes "0x03a520b32c04bf3beef7beb72e919cf822ed34f1")
    ∷ (v3_swap_router, codes "0x2626664c2603336e57b271c5c0b26f421741e481")
    ∷ (v2_router, codes "0x4752ba5dbc23f44d87826276bf6fd6b1c372ad24")
    ∷ (permit2, permit2_address)
    ∷ []

-- `PINNED_CONTRACTS`
abbrev pub pinned_table : Dict ℕ Pins
pinned_table = (4663, robinhood_pins) ∷ (8453, base_pins) ∷ []

-- f"{SOURCE_UNISWAP}: ..."
abbrev pub uniswap_source : String → Text
uniswap_source contract =
    codes "uniswap deployments.json a677c0d (2026-09-22)" ++ codes ": " ++ codes contract

abbrev robinhood_routers : Pins
robinhood_routers =
    (codes "0x204faca1764b154221e35c0d20abb3c525710498", uniswap_source "UniversalRouter#v2.1.2")
    ∷ []

abbrev base_routers : Pins
base_routers =
    (codes "0xd6145b2d3f379919e8cdeda7b97e37c4b2ca9c40", uniswap_source "UniversalRouter#v2.1.2")
    ∷ (codes "0xfdf682f51fe81aa4898f0ae2163d8a55c127fbc7", uniswap_source "UniversalRouter#v2.1.1")
    ∷ (codes "0xf3a4f4094bd2c6c06ca2f61789d8727b8d1e7259", uniswap_source "UniversalRouter#v2.1")
    ∷ []

-- `PINNED_ALTERNATES.get((chain_id, role), {})`
abbrev pub alternates : ℕ → Text → Pins
alternates chain_id role =
    if role == universal_router
    then (if chain_id == 4663
        then robinhood_routers
        else if chain_id == 8453
        then base_routers
        else [])
    else []

-- `UNISWAP_ROLE_CONTRACTS`, of the contract's name.
abbrev pub role_contracts : Dict Text String
role_contracts =
    (universal_router, "UniversalRouter")
    ∷ (v4_position_manager, "PositionManager")
    ∷ (v4_pool_manager, "PoolManager")
    ∷ (v4_state_view, "StateView")
    ∷ (v3_position_manager, "NonfungiblePositionManager")
    ∷ (v3_swap_router, "SwapRouter02")
    ∷ (v2_router, "UniswapV2Router02")
    ∷ (permit2, "Permit2")
    ∷ []

-- `PINNED_SOURCES.get((chain_id, role))`
unfoldable pub pinned_source : ℕ → Text → Option Text
pinned_source chain_id role =
    if has role (get_or chain_id [] pinned_table)
    then (if role == allowance_holder
        then some (codes "0x-settler README: AllowanceHolder (Cancun chains)")
        else (get role role_contracts >>= λ contract. some (uniswap_source contract)))
    else none

abbrev pub override_source : Text
override_source = codes "operator override (spellbook.json dex.pinned_contracts)"

-- `VENUE_SWAP_TARGET`
abbrev pub swap_target : Venue → Text
swap_target matcha = allowance_holder
swap_target cast = allowance_holder
swap_target uniswap = universal_router

-- `VENUE_APPROVAL_SPENDER`
abbrev pub approval_spender : Venue → Text
approval_spender matcha = allowance_holder
approval_spender cast = allowance_holder
approval_spender uniswap = permit2
