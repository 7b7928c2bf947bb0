-- ===== src/Examples/Calldata.antt =====
-- Calls of the exchanges' contracts: the selector, and the words of the arguments.
use spellbook.Prelude.{String, List, [], ◌∷◌, ◌++◌}
use spellbook.Prelude.Codes.{codes}
use spellbook.Streamable.Utf8.{Text}

abbrev joined : List String → Text
joined [] = []
joined (w ∷ ws) = codes w ++ joined ws

abbrev call : String → List String → Text
call selector ws = codes "0x" ++ (codes selector ++ joined ws)

abbrev pub wallet : Text
wallet = codes "0x00000000000000000000000000000000000000aa"

abbrev pub token_a : Text
token_a = codes "0x1111111111111111111111111111111111111111"

abbrev pub token_b : Text
token_b = codes "0x2222222222222222222222222222222222222222"

-- multicall of decreaseLiquidity and collect.
abbrev pub removal : Text
removal = call "ac9650d8" (
    "0000000000000000000000000000000000000000000000000000000000000020"
    ∷ "0000000000000000000000000000000000000000000000000000000000000002"
    ∷ "0000000000000000000000000000000000000000000000000000000000000040"
    ∷ "0000000000000000000000000000000000000000000000000000000000000120"
    ∷ "00000000000000000000000000000000000000000000000000000000000000a4"
    ∷ "0c49ccbe00000000000000000000000000000000000000000000000000000000"
    ∷ "0000000700000000000000000000000000000000000000000000000000000000"
    ∷ "0000000500000000000000000000000000000000000000000000000000000000"
    ∷ "0000000100000000000000000000000000000000000000000000000000000000"
    ∷ "0000000200000000000000000000000000000000000000000000000000000000"
    ∷ "0000006400000000000000000000000000000000000000000000000000000000"
    ∷ "0000000000000000000000000000000000000000000000000000000000000084"
    ∷ "fc6f786500000000000000000000000000000000000000000000000000000000"
    ∷ "0000000700000000000000000000000000000000000000000000000000000000"
    ∷ "000000aa00000000000000000000000000000000ffffffffffffffffffffffff"
    ∷ "ffffffff00000000000000000000000000000000ffffffffffffffffffffffff"
    ∷ "ffffffff00000000000000000000000000000000000000000000000000000000" ∷ [])

-- modifyLiquidities of MINT_POSITION and SETTLE_PAIR.
abbrev pub addition : Text
addition = call "dd46508f" (
    "0000000000000000000000000000000000000000000000000000000000000040"
    ∷ "0000000000000000000000000000000000000000000000000000000000000064"
    ∷ "0000000000000000000000000000000000000000000000000000000000000300"
    ∷ "0000000000000000000000000000000000000000000000000000000000000040"
    ∷ "0000000000000000000000000000000000000000000000000000000000000080"
    ∷ "0000000000000000000000000000000000000000000000000000000000000002"
    ∷ "020d000000000000000000000000000000000000000000000000000000000000"
    ∷ "0000000000000000000000000000000000000000000000000000000000000002"
    ∷ "0000000000000000000000000000000000000000000000000000000000000040"
    ∷ "0000000000000000000000000000000000000000000000000000000000000200"
    ∷ "00000000000000000000000000000000000000000000000000000000000001a0"
    ∷ "0000000000000000000000000000000000000000000000000000000000000000"
    ∷ "0000000000000000000000002222222222222222222222222222222222222222"
    ∷ "0000000000000000000000000000000000000000000000000000000000000bb8"
    ∷ "000000000000000000000000000000000000000000000000000000000000003c"
    ∷ "0000000000000000000000000000000000000000000000000000000000000000"
    ∷ "ffffffffffffffffffffffffffffffffffffffffffffffffffffffffffffffc4"
    ∷ "0000000000000000000000000000000000000000000000000000000000000078"
    ∷ "0000000000000000000000000000000000000000000000000000000000000009"
    ∷ "0000000000000000000000000000000000000000000000000000000000000032"
    ∷ "0000000000000000000000000000000000000000000000000000000000000046"
    ∷ "00000000000000000000000000000000000000000000000000000000000000aa"
    ∷ "0000000000000000000000000000000000000000000000000000000000000180"
    ∷ "0000000000000000000000000000000000000000000000000000000000000000"
    ∷ "0000000000000000000000000000000000000000000000000000000000000040"
    ∷ "0000000000000000000000000000000000000000000000000000000000000000"
    ∷ "0000000000000000000000002222222222222222222222222222222222222222" ∷ [])

-- modifyLiquidities of DECREASE_LIQUIDITY, TAKE_PAIR and BURN_POSITION.
abbrev pub taking : Text
taking = call "dd46508f" (
    "0000000000000000000000000000000000000000000000000000000000000040"
    ∷ "0000000000000000000000000000000000000000000000000000000000000064"
    ∷ "0000000000000000000000000000000000000000000000000000000000000320"
    ∷ "0000000000000000000000000000000000000000000000000000000000000040"
    ∷ "0000000000000000000000000000000000000000000000000000000000000080"
    ∷ "0000000000000000000000000000000000000000000000000000000000000003"
    ∷ "0111030000000000000000000000000000000000000000000000000000000000"
    ∷ "0000000000000000000000000000000000000000000000000000000000000003"
    ∷ "0000000000000000000000000000000000000000000000000000000000000060"
    ∷ "0000000000000000000000000000000000000000000000000000000000000140"
    ∷ "00000000000000000000000000000000000000000000000000000000000001c0"
    ∷ "00000000000000000000000000000000000000000000000000000000000000c0"
    ∷ "0000000000000000000000000000000000000000000000000000000000000007"
    ∷ "0000000000000000000000000000000000000000000000000000000000000005"
    ∷ "0000000000000000000000000000000000000000000000000000000000000001"
    ∷ "0000000000000000000000000000000000000000000000000000000000000002"
    ∷ "00000000000000000000000000000000000000000000000000000000000000a0"
    ∷ "0000000000000000000000000000000000000000000000000000000000000000"
    ∷ "0000000000000000000000000000000000000000000000000000000000000060"
    ∷ "0000000000000000000000000000000000000000000000000000000000000000"
    ∷ "0000000000000000000000002222222222222222222222222222222222222222"
    ∷ "00000000000000000000000000000000000000000000000000000000000000aa"
    ∷ "00000000000000000000000000000000000000000000000000000000000000a0"
    ∷ "0000000000000000000000000000000000000000000000000000000000000007"
    ∷ "0000000000000000000000000000000000000000000000000000000000000000"
    ∷ "0000000000000000000000000000000000000000000000000000000000000000"
    ∷ "0000000000000000000000000000000000000000000000000000000000000080"
    ∷ "0000000000000000000000000000000000000000000000000000000000000000" ∷ [])

-- The inputs of a V3_SWAP_EXACT_IN and a V4_SWAP.
abbrev v3_words : List String
v3_words =
    "0000000000000000000000000000000000000000000000000000000000000001"
    ∷ "0000000000000000000000000000000000000000000000000000000000000258"
    ∷ "0000000000000000000000000000000000000000000000000000000000000226"
    ∷ "00000000000000000000000000000000000000000000000000000000000000a0"
    ∷ "0000000000000000000000000000000000000000000000000000000000000001"
    ∷ "000000000000000000000000000000000000000000000000000000000000002b"
    ∷ "11111111111111111111111111111111111111110001f4222222222222222222"
    ∷ "2222222222222222222222000000000000000000000000000000000000000000" ∷ []

abbrev v4_words : List String
v4_words =
    "0000000000000000000000000000000000000000000000000000000000000040"
    ∷ "0000000000000000000000000000000000000000000000000000000000000080"
    ∷ "0000000000000000000000000000000000000000000000000000000000000003"
    ∷ "060c0f0000000000000000000000000000000000000000000000000000000000"
    ∷ "0000000000000000000000000000000000000000000000000000000000000003"
    ∷ "0000000000000000000000000000000000000000000000000000000000000060"
    ∷ "00000000000000000000000000000000000000000000000000000000000001e0"
    ∷ "0000000000000000000000000000000000000000000000000000000000000240"
    ∷ "0000000000000000000000000000000000000000000000000000000000000160"
    ∷ "0000000000000000000000000000000000000000000000000000000000000020"
    ∷ "0000000000000000000000001111111111111111111111111111111111111111"
    ∷ "0000000000000000000000002222222222222222222222222222222222222222"
    ∷ "0000000000000000000000000000000000000000000000000000000000000bb8"
    ∷ "000000000000000000000000000000000000000000000000000000000000003c"
    ∷ "0000000000000000000000000000000000000000000000000000000000000000"
    ∷ "0000000000000000000000000000000000000000000000000000000000000001"
    ∷ "0000000000000000000000000000000000000000000000000000000000000190"
    ∷ "000000000000000000000000000000000000000000000000000000000000015e"
    ∷ "0000000000000000000000000000000000000000000000000000000000000120"
    ∷ "0000000000000000000000000000000000000000000000000000000000000000"
    ∷ "0000000000000000000000000000000000000000000000000000000000000040"
    ∷ "0000000000000000000000001111111111111111111111111111111111111111"
    ∷ "0000000000000000000000000000000000000000000000000000000000000190"
    ∷ "0000000000000000000000000000000000000000000000000000000000000040"
    ∷ "0000000000000000000000002222222222222222222222222222222222222222"
    ∷ "000000000000000000000000000000000000000000000000000000000000015e" ∷ []

abbrev pub sale_inputs : List Text
sale_inputs = (codes "0x" ++ joined v3_words) ∷ (codes "0x" ++ joined v4_words) ∷ []

-- execute of the two.
abbrev pub sale : Text
sale = call "24856bc3" (
    "0000000000000000000000000000000000000000000000000000000000000040"
    ∷ "0000000000000000000000000000000000000000000000000000000000000080"
    ∷ "0000000000000000000000000000000000000000000000000000000000000002"
    ∷ "0010000000000000000000000000000000000000000000000000000000000000"
    ∷ "0000000000000000000000000000000000000000000000000000000000000002"
    ∷ "0000000000000000000000000000000000000000000000000000000000000040"
    ∷ "0000000000000000000000000000000000000000000000000000000000000160"
    ∷ "0000000000000000000000000000000000000000000000000000000000000100"
    ∷ (v3_words ++ ("0000000000000000000000000000000000000000000000000000000000000340" ∷ v4_words)))

-- exec of the AllowanceHolder, for the Settler's execute.
abbrev pub held_sale : Text
held_sale = call "2213bc0b" (
    "0000000000000000000000003333333333333333333333333333333333333333"
    ∷ "0000000000000000000000001111111111111111111111111111111111111111"
    ∷ "00000000000000000000000000000000000000000000000000000000000003e8"
    ∷ "0000000000000000000000003333333333333333333333333333333333333333"
    ∷ "00000000000000000000000000000000000000000000000000000000000000a0"
    ∷ "00000000000000000000000000000000000000000000000000000000000000c4"
    ∷ "1fff991f00000000000000000000000000000000000000000000000000000000"
    ∷ "000000aa00000000000000000000000022222222222222222222222222222222"
    ∷ "2222222200000000000000000000000000000000000000000000000000000000"
    ∷ "0000038400000000000000000000000000000000000000000000000000000000"
    ∷ "000000a000000000000000000000000000000000000000000000000000000000"
    ∷ "0000000000000000000000000000000000000000000000000000000000000000"
    ∷ "0000000000000000000000000000000000000000000000000000000000000000" ∷ [])

-- The Settler's execute.
abbrev pub settler_call : Text
settler_call = call "1fff991f" (
    "00000000000000000000000000000000000000000000000000000000000000aa"
    ∷ "0000000000000000000000002222222222222222222222222222222222222222"
    ∷ "0000000000000000000000000000000000000000000000000000000000000384"
    ∷ "00000000000000000000000000000000000000000000000000000000000000a0"
    ∷ "0000000000000000000000000000000000000000000000000000000000000000"
    ∷ "0000000000000000000000000000000000000000000000000000000000000000" ∷ [])

-- collect.
abbrev pub claim : Text
claim = call "fc6f7865" (
    "0000000000000000000000000000000000000000000000000000000000000007"
    ∷ "00000000000000000000000000000000000000000000000000000000000000aa"
    ∷ "0000000000000000000000000000000000000000000000000000000000000003"
    ∷ "0000000000000000000000000000000000000000000000000000000000000004" ∷ [])

-- addLiquidity.
abbrev pub v2_addition : Text
v2_addition = call "e8e33700" (
    "0000000000000000000000001111111111111111111111111111111111111111"
    ∷ "0000000000000000000000002222222222222222222222222222222222222222"
    ∷ "0000000000000000000000000000000000000000000000000000000000000064"
    ∷ "00000000000000000000000000000000000000000000000000000000000000c8"
    ∷ "000000000000000000000000000000000000000000000000000000000000005a"
    ∷ "00000000000000000000000000000000000000000000000000000000000000b4"
    ∷ "00000000000000000000000000000000000000000000000000000000000000aa"
    ∷ "0000000000000000000000000000000000000000000000000000000000000032" ∷ [])
