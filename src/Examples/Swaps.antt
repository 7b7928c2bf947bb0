-- ===== src/Examples/Swaps.antt =====
-- Swaps at concrete values: what is sold, the call, and the plan.
use spellbook.Prelude.{All, ◌≡◌, refl, true, some, none, List, [], ◌∷◌, bytes_IsKey, arith, drop}
use spellbook.Prelude.Codes.{codes, from_hex, hex_digit, to_hex, hex_char, decimal_from, with_0x}
use spellbook.Streamable.Utf8.{Text}
use spellbook.Streamable.Bytes.{be, from_be, from_be_onto}
use spellbook.Abi.Values.{pos, str, items, Values, nil, cons, coerce_bytes}
use spellbook.Abi.Types.{
  parse_type, parse_types, strip_dims, dim_of, kind_of, sized_kind, width, is_dynamic,
}
use spellbook.Abi.Encode.{twos_complement}
use spellbook.Abi.Decode.{
  hex_value, signed_of, decode_word, variable_of, decode_variable, decode_single, decode_words,
  decode_inline, read_heads, decode_heads, decode_dyn_elems, decode_at, read_sequence, resolve,
  decode_sequence, decode_abi,
}
use spellbook.Abi.Decode.Spans.{read_word, read_number, array_span, elem_span}
use spellbook.Dex.Calls.{ur_execute, split_selector, abi_decode, bytes_of, texts_of}
use spellbook.Dex.Tokens.{
  uniswap, is_native_token, same_token, normalize_venue, is_address, is_zero_address,
  require_address,
}
use spellbook.Dex.Pins.Parsed.{IsChain, parse_pin_overrides-IsChain}
use spellbook.Dex.Numbers.{int_base_10, int_base_0, with_sign, read_prefixed, read_digits}
use spellbook.Dex.Pins.{Overrides, pinned_source, universal_router}
use spellbook.Dex.Pins.Accepted.{
  RawOverrides, object, add_roles, add_chains, parse_pin_overrides, update, pinned_contracts,
  pinned_set, pin_source, pinned_contract,
}
use spellbook.Dex.Words.{
  unsigned, addr, enc_bytes, offsets, enc_dyn_array, each, enc_bytes_array, heads_from, head_tail,
  i24,
}
use spellbook.Dex.Settler.{
  Bounds, Exec, Slippage, is_sell_leg, swap_tokens, is_barred, decode_settler_execute,
  decode_allowance_holder,
}
use spellbook.Dex.Layout.{
  word_at, word_uint, word_addr, word_int24, word_bool, bytes_at, read_single, encode_single_params,
  v4_exact_in_single,
}
use spellbook.Dex.V4Swap.{
  ur_msg_sender, swap_count, bytes_each, bound_trade, bound_trades, ending_of, bound_endings,
  decode_ur_v4_swap,
}
use spellbook.Dex.Commands.{
  Command, swap, v4_swap, v3_path_tokens, v3_swap_of, v2_swap_of, read_command, read_commands,
}
use spellbook.Dex.Router.{
  Routed, is_to_wallet, is_bought, is_pull, bind_command, bind_commands, is_settled,
  decode_universal_router,
}
use spellbook.Dex.Router.Effects.{
  RouterCall, is_sale, Effect, total, IsFair, decode_universal_router-IsFair,
}
use spellbook.Dex.Swap.{
  Tx, written, value_of, is_paid, routed, Decoded, decode_route, decode_swap_tx,
}
use spellbook.Dex.Swap.Sound.{IsBound, decode_swap_tx-IsBound}
use spellbook.Dex.Validate.{Intent, Quote, Plan}
use spellbook.Examples.Calldata.{
  wallet, token_a, token_b, sale, sale_inputs, held_sale, settler_call,
}

abbrev bounds : Bounds
bounds = record {
  wallet = wallet;
  sell_token = token_a;
  buy_token = token_b;
  sell_amount = 1000;
  min_buy = 900;
}

abbrev router : Text
router = codes "0x6ff5693b99212da76ad316178a184ab56d299b43"

abbrev commands : List Command
commands =
    swap record {
      recipient = ur_msg_sender;
      amount_in = 600;
      min_out = 550;
      token_in = token_a;
      token_out = token_b;
      payer_user = true;
    }
    ∷ v4_swap record {
      actions = codes "SWAP_EXACT_IN_SINGLE" ∷ codes "SETTLE_ALL" ∷ codes "TAKE_ALL" ∷ [];
      amount_in = 400;
      min_out = 350;
    }
    ∷ []

abbrev sale_routed : Routed
sale_routed = record {
  commands = codes "V3_SWAP_EXACT_IN" ∷ codes "V4_SWAP" ∷ [];
  bound = commands;
  totals = record { user_in = 1000; wrapped = 0; v4_native = 0; delivered = 900 };
}

-- The call's arguments.
abbrev sale_args : Text
sale_args = with_0x (drop 10 sale)

sale_decodes : decode_universal_router ur_execute sale_args bounds 0 ≡ some sale_routed
unfolding decode_universal_router bytes_of texts_of read_commands read_command v3_swap_of v2_swap_of
    v3_path_tokens decode_ur_v4_swap bytes_each enc_bytes enc_bytes_array head_tail heads_from
    offsets enc_dyn_array each unsigned be swap_count bound_trades bound_trade v4_exact_in_single
    word_at read_single word_addr word_uint word_int24 word_bool bytes_at encode_single_params i24
    twos_complement addr require_address is_address same_token is_native_token bound_endings
    ending_of bind_commands bind_command is_to_wallet is_bought is_pull is_settled split_selector
    abi_decode decode_abi coerce_bytes parse_types parse_type strip_dims dim_of kind_of sized_kind
    width decimal_from is_dynamic decode_sequence read_sequence resolve decode_at decode_dyn_elems
    decode_heads read_heads decode_inline decode_words decode_single decode_variable variable_of
    decode_word signed_of hex_value array_span elem_span read_number read_word from_be from_be_onto
    from_hex hex_digit to_hex hex_char
sale_decodes = refl

-- A decoded list of texts.
abbrev listed : List Text → Values
listed [] = nil
listed (t ∷ ts) = cons (str t) (listed ts)

-- The pools pay somewhat more than they have to.
abbrev effects : List Effect
effects =
    record { pulled = 600; other = 0; spent = 0; paid = 561 }
    ∷ record { pulled = 400; other = 0; spent = 0; paid = 352 }
    ∷ []

sale_call : RouterCall ur_execute sale_args (0 ∷ 16 ∷ []) sale_inputs
unfolding bytes_of texts_of abi_decode decode_abi coerce_bytes parse_types parse_type strip_dims
    dim_of kind_of sized_kind width decimal_from is_dynamic decode_sequence read_sequence resolve
    decode_at decode_dyn_elems decode_heads read_heads decode_inline decode_words decode_single
    decode_variable variable_of decode_word signed_of hex_value array_span elem_span read_number
    read_word from_be from_be_onto from_hex hex_digit to_hex hex_char
sale_call = record {
  values = cons (str (codes "0x0010")) (cons (items (listed sale_inputs)) nil);
  text = codes "0x0010";
  listed = listed sale_inputs;
  decoded = refl;
  read = refl;
  bytes = refl;
  texts = refl;
}

decode_universal_router-IsFair_example : IsFair bounds 0 (total effects)
unfolding is_to_wallet is_native_token is_sale is_bought
decode_universal_router-IsFair_example =
    decode_universal_router-IsFair ur_execute sale_args bounds 0 sale_routed (0 ∷ 16 ∷ [])
      sale_inputs effects sale_call sale_decodes
      ((refl, refl, refl, omega arith), (λ sale. (refl, refl, refl, omega arith), tt))

abbrev tx : Tx
tx = record { to = some router; data_hex = some sale; value = some (written (codes "0x00")) }

abbrev sale_decoded : Decoded
sale_decoded = record {
  venue = uniswap;
  target = router;
  target_role = universal_router;
  target_source = some (codes "uniswap deployments.json a677c0d (2026-09-22): UniversalRouter");
  selector = codes "0x24856bc3";
  value_wei = 0;
  route = routed sale_routed;
}

tx_decodes : decode_swap_tx (codes " Uniswap") 8453 tx bounds [] ≡ some sale_decoded
unfolding decode_swap_tx normalize_venue pinned_contract pinned_contracts update pinned_set
    pin_source pinned_source value_of int_base_0 with_sign read_prefixed read_digits is_paid
    decode_route decode_universal_router bytes_of texts_of read_commands read_command v3_swap_of
    v2_swap_of v3_path_tokens decode_ur_v4_swap bytes_each enc_bytes enc_bytes_array head_tail
    heads_from offsets enc_dyn_array each unsigned be swap_count bound_trades bound_trade
    v4_exact_in_single word_at read_single word_addr word_uint word_int24 word_bool bytes_at
    encode_single_params i24 twos_complement addr require_address is_address same_token
    is_native_token bound_endings ending_of bind_commands bind_command is_to_wallet is_bought
    is_pull is_settled split_selector abi_decode decode_abi coerce_bytes parse_types parse_type
    strip_dims dim_of kind_of sized_kind width decimal_from is_dynamic decode_sequence read_sequence
    resolve decode_at decode_dyn_elems decode_heads read_heads decode_inline decode_words
    decode_single decode_variable variable_of decode_word signed_of hex_value array_span elem_span
    read_number read_word from_be from_be_onto from_hex hex_digit to_hex hex_char
tx_decodes = refl

decode_swap_tx-IsBound_example : IsBound (codes " Uniswap") 8453 tx bounds [] sale_decoded
decode_swap_tx-IsBound_example =
    decode_swap_tx-IsBound (codes " Uniswap") 8453 tx bounds [] sale_decoded tx_decodes

abbrev intent : Intent
intent = record {
  chain_id = some 8453;
  venue = some (codes " Uniswap");
  wallet = some wallet;
  sell_token = some token_a;
  buy_token = some token_b;
  sell_amount_wei = some 1000;
  min_buy_amount_wei = some 900;
  max_slippage_bps = some 50;
  pin_overrides = [];
}

abbrev quote : Quote
quote = record {
  chain_id = some 8453;
  sell_token = some token_a;
  buy_token = some token_b;
  sell_amount = some 1000;
  buy_amount = some (pos 915);
  tx = some tx;
  allowance_target = none;
}

abbrev plan : Plan
plan = record {
  to = router;
  data_hex = sale;
  value_wei = 0;
  allowance_target = some (codes "0x000000000022d473030f116ddee9f6b43ac78ba3");
  approve_amount_wei = 1000;
  permit2_spender = some router;
  buy_amount_wei = pos 915;
  needs_approval = true;
  decoded = sale_decoded;
}

abbrev exec : Exec
exec = record {
  operator = codes "0x3333333333333333333333333333333333333333";
  token = token_a;
  amount = 1000;
  target = codes "0x3333333333333333333333333333333333333333";
  inner_data = settler_call;
}

abbrev slippage : Slippage
slippage = record { recipient = wallet; buy_token = token_b; min_out = 900 }

held_decodes :
    decode_allowance_holder held_sale (codes "0x0000000000001ff3684f28c67538d4d072c22734") bounds
    ≡ some (exec, slippage)
unfolding decode_allowance_holder decode_settler_execute is_sell_leg is_barred swap_tokens
    is_zero_address is_native_token same_token split_selector abi_decode decode_abi coerce_bytes
    parse_types parse_type strip_dims dim_of kind_of sized_kind width decimal_from is_dynamic
    decode_sequence read_sequence resolve decode_at decode_dyn_elems decode_heads read_heads
    decode_inline decode_words decode_single decode_variable variable_of decode_word signed_of
    hex_value array_span elem_span read_number read_word from_be from_be_onto from_hex hex_digit
    to_hex hex_char
held_decodes = refl

-- One chain with two roles.
abbrev raw_pins : RawOverrides
raw_pins = object (
    (
      codes " 10",
      some (
          (codes "permit2", some (codes "0x00000000000000000000000000000000000000AB"))
          ∷ (codes "v2_router", some token_b)
          ∷ []),
    )
    ∷ [])

abbrev parsed_pins : Overrides
parsed_pins =
    (
      10,
      (codes "permit2", codes "0x00000000000000000000000000000000000000ab")
          ∷ (codes "v2_router", token_b)
          ∷ [],
    )
    ∷ []

pins_parse : parse_pin_overrides raw_pins ≡ some parsed_pins
unfolding parse_pin_overrides add_chains add_roles int_base_10 with_sign read_digits hex_digit
    is_address is_zero_address
pins_parse = refl

parse_pin_overrides-IsChain_example : All IsChain parsed_pins
parse_pin_overrides-IsChain_example = parse_pin_overrides-IsChain raw_pins parsed_pins pins_parse
