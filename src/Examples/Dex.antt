-- ===== src/Examples/Dex.antt =====
-- Calls that add liquidity and take it out, at concrete values.
use spellbook.Prelude.{arith, ◌-◌, ◌^◌, ◌≡◌, refl, true, some, bytes_IsKey}
use spellbook.Prelude.Codes.{from_hex, hex_digit, to_hex, hex_char, decimal_from}
use spellbook.Streamable.Bytes.{be, from_be, from_be_onto}
use spellbook.Abi.Values.{pos, negsuc, coerce_bytes}
use spellbook.Abi.Types.{
  parse_type, parse_types, strip_dims, dim_of, kind_of, sized_kind, width, is_dynamic,
}
use spellbook.Abi.Encode.{twos_complement}
use spellbook.Abi.Decode.{
  hex_value, signed_of, decode_word, variable_of, decode_variable, decode_single, decode_words,
  decode_inline, read_heads, decode_heads, decode_dyn_elems, decode_at, read_sequence, resolve,
  decode_sequence, decode_abi,
}
use spellbook.Abi.Decode.Spans.{read_word, read_number, array_span, elem_span}
use spellbook.Dex.Calls.{split_selector, lp_selector, abi_decode, bytes_of, texts_of}
use spellbook.Dex.Tokens.{
  is_native_token, native_zero, is_zero_address, require_address, require_positive_int, is_address,
}
use spellbook.Dex.Words.{
  unsigned, addr, enc_bytes, offsets, enc_dyn_array, each, enc_bytes_array, heads_from, head_tail,
  calldata_text, i24,
}
use spellbook.Dex.Liquidity.{Exit, Legs, are_erc20, decode_v2_add_liquidity}
use spellbook.Dex.Builders.Accepted.{
  decode_v3_collect-build_v3_collect, decode_v2_add_liquidity-build_v2_add_liquidity,
}
use spellbook.Dex.Positions.{
  decode_v3_collect, Decrease, Collect, v3_collect_args, decode_v3_remove,
}
use spellbook.Dex.Positions.Sound.{IsExit, RemoveCall, IsCollected, decode_v3_remove-IsExit}
use spellbook.Dex.V4Positions.{
  unlock_data, Mint, Deposit, decode_v4_lp_add, V4Decrease, TakePair, burns, decode_v4_lp_take,
}
use spellbook.Dex.V4Positions.Sound.{
  IsMinted, MintCall, TakeCall, decode_v4_lp_add-IsMinted, IsTaken, decode_v4_lp_take-IsTaken,
}
use spellbook.Dex.Builders.{
  build_v2_add_liquidity, words, static_call, bare, payload_of, payloads_of, build_v3_multicall,
  build_v3_decrease_liquidity, build_v3_collect, build_v3_remove_and_collect,
}
use spellbook.Dex.V4Builders.{
  require_v4_pool_key_args, require_v4_currencies, build_v4_pool_key, words_then,
  build_v4_mint_params, build_v4_settle_pair_params, build_v4_modify_liquidities, build_v4_lp_add,
  build_v4_decrease_params, build_v4_take_pair_params, build_v4_burn_params, build_v4_lp_remove,
}
use spellbook.Examples.Calldata.{
  claim, v2_addition, token_a, wallet, token_b, removal, addition, taking,
}

abbrev exit : Exit
exit = record { token_id = 7; liquidity = 5; min0 = 1; min1 = 2; wallet = wallet }

abbrev decrease : Decrease
decrease = record { token_id = 7; liquidity = 5; min0 = 1; min1 = 2; deadline = 100 }

abbrev collect : Collect
collect = record { token_id = 7; recipient = wallet; max0 = 2 ^ 128 - 1; max1 = 2 ^ 128 - 1 }

-- The builder makes the call that the decoder is given.
removal_built : build_v3_remove_and_collect 7 5 1 2 wallet 100 ≡ some removal
unfolding build_v3_remove_and_collect build_v3_multicall build_v3_decrease_liquidity
    build_v3_collect payloads_of payload_of bare static_call words require_positive_int
    require_address is_address unsigned addr enc_bytes offsets enc_dyn_array each enc_bytes_array
    heads_from head_tail calldata_text be from_hex hex_digit to_hex hex_char
removal_built = refl

removal_decodes : decode_v3_remove removal exit ≡ some (decrease, collect)
unfolding lp_selector bytes_of texts_of decode_v3_remove v3_collect_args split_selector abi_decode
    decode_abi coerce_bytes parse_types parse_type strip_dims dim_of kind_of sized_kind width
    decimal_from is_dynamic decode_sequence read_sequence resolve decode_at decode_dyn_elems
    decode_heads read_heads decode_inline decode_words decode_single decode_variable variable_of
    decode_word signed_of hex_value array_span elem_span read_number read_word from_be from_be_onto
    from_hex hex_digit to_hex hex_char
removal_decodes = refl

decode_v3_remove-IsExit_example :
    RemoveCall removal decrease collect × IsExit exit 7 5 1 2 × IsCollected 7 wallet collect
decode_v3_remove-IsExit_example =
    decode_v3_remove-IsExit removal exit decrease collect removal_decodes

abbrev deposit : Deposit
deposit = record {
  currency0 = native_zero;
  currency1 = token_b;
  cap0 = 55;
  cap1 = 70;
  wallet = wallet;
  value_wei = 52;
}

abbrev minted : Mint
minted = record {
  currency0 = native_zero;
  currency1 = token_b;
  fee = 3000;
  tick_spacing = pos 60;
  hooks = native_zero;
  tick_lower = negsuc 59;
  tick_upper = pos 120;
  liquidity = 9;
  max0 = 50;
  max1 = 70;
  owner = wallet;
}

addition_built :
    build_v4_lp_add native_zero token_b
      record { fee = 3000; tick_spacing = pos 60; tick_lower = negsuc 59; tick_upper = pos 120 }
      native_zero
      9
      50
      70
      wallet
      100
      true
    ≡ some addition
unfolding build_v4_lp_add build_v4_mint_params build_v4_settle_pair_params
    build_v4_modify_liquidities build_v4_pool_key words_then require_v4_pool_key_args
    require_v4_currencies words require_positive_int require_address is_address unsigned i24
    twos_complement addr enc_bytes offsets enc_dyn_array each enc_bytes_array heads_from head_tail
    calldata_text be from_hex hex_digit to_hex hex_char
addition_built = refl

addition_decodes : decode_v4_lp_add addition deposit ≡ some (minted, 100)
unfolding lp_selector bytes_of texts_of decode_v4_lp_add unlock_data is_zero_address split_selector
    abi_decode decode_abi coerce_bytes parse_types parse_type strip_dims dim_of kind_of sized_kind
    width decimal_from is_dynamic decode_sequence read_sequence resolve decode_at decode_dyn_elems
    decode_heads read_heads decode_inline decode_words decode_single decode_variable variable_of
    decode_word signed_of hex_value array_span elem_span read_number read_word from_be from_be_onto
    from_hex hex_digit to_hex hex_char
addition_decodes = refl

decode_v4_lp_add-IsMinted_example : MintCall addition minted 100 × IsMinted deposit minted
decode_v4_lp_add-IsMinted_example =
    decode_v4_lp_add-IsMinted addition deposit minted 100 addition_decodes

abbrev left : V4Decrease
left = record { token_id = 7; liquidity = 5; min0 = 1; min1 = 2 }

abbrev pair : TakePair
pair = record { currency0 = native_zero; currency1 = token_b; recipient = wallet }

taking_built : build_v4_lp_remove 7 5 1 2 native_zero token_b wallet 100 true true ≡ some taking
unfolding build_v4_lp_remove build_v4_decrease_params build_v4_take_pair_params build_v4_burn_params
    build_v4_modify_liquidities words_then require_v4_currencies words require_positive_int
    require_address is_address unsigned addr enc_bytes offsets enc_dyn_array each enc_bytes_array
    heads_from head_tail calldata_text be from_hex hex_digit to_hex hex_char
taking_built = refl

taking_decodes : decode_v4_lp_take taking exit native_zero token_b true ≡ some (left, pair, 100)
unfolding lp_selector bytes_of texts_of decode_v4_lp_take unlock_data burns split_selector
    abi_decode decode_abi coerce_bytes parse_types parse_type strip_dims dim_of kind_of sized_kind
    width decimal_from is_dynamic decode_sequence read_sequence resolve decode_at decode_dyn_elems
    decode_heads read_heads decode_inline decode_words decode_single decode_variable variable_of
    decode_word signed_of hex_value array_span elem_span read_number read_word from_be from_be_onto
    from_hex hex_digit to_hex hex_char
taking_decodes = refl

decode_v4_lp_take-IsTaken_example :
    TakeCall taking 7 true left pair 100 × IsTaken exit native_zero token_b left pair
decode_v4_lp_take-IsTaken_example =
    decode_v4_lp_take-IsTaken taking exit native_zero token_b true left pair 100 taking_decodes

claim_built : build_v3_collect 7 wallet 3 4 ≡ some claim
unfolding build_v3_collect static_call words require_positive_int require_address is_address
    unsigned addr calldata_text be from_hex hex_digit to_hex hex_char
claim_built = refl

decode_v3_collect-build_v3_collect_example :
    decode_v3_collect claim 7 wallet
    ≡ some record { token_id = 7; recipient = wallet; max0 = 3; max1 = 4 }
decode_v3_collect-build_v3_collect_example =
    decode_v3_collect-build_v3_collect 7 wallet 3 4 claim claim_built

abbrev legs : Legs
legs = record {
  token_a = token_a;
  token_b = token_b;
  a_cap = 110;
  b_cap = 200;
  a_min = 90;
  b_min = 170;
  wallet = wallet;
}

v2_addition_built :
    build_v2_add_liquidity token_a token_b 100 200 90 180 wallet 50 ≡ some v2_addition
unfolding build_v2_add_liquidity static_call words require_positive_int require_address is_address
    unsigned addr calldata_text be from_hex hex_digit to_hex hex_char
v2_addition_built = refl

both_erc20 : are_erc20 token_a token_b ≡ true
unfolding are_erc20 is_native_token
both_erc20 = refl

decode_v2_add_liquidity-build_v2_add_liquidity_example :
    decode_v2_add_liquidity v2_addition legs
    ≡ some record {
      token_a = token_a;
      token_b = token_b;
      a_desired = 100;
      b_desired = 200;
      a_min = 90;
      b_min = 180;
      to = wallet;
      deadline = 50;
    }
decode_v2_add_liquidity-build_v2_add_liquidity_example =
    decode_v2_add_liquidity-build_v2_add_liquidity legs 100 200 90 180 50 v2_addition both_erc20
      (omega arith) (omega arith) (omega arith) (omega arith) v2_addition_built
