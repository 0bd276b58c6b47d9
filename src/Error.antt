-- ===== src/Error.antt =====
-- The errors that the swap code returns: a constructor for each message of the source, with the
-- values that it prints where a caller can tell them apart. `wrapped` is `fmt.Errorf("...: %w")`,
-- `external` an error of the Ethereum client.

use lazyswap.Prelude.Text.{Bytes}
use lazyswap.Prelude.Int.{ℤ}
use lazyswap.Balance.{UnitsError}

-- the text in front of a wrapped error
pub data Context : Type 0 where
  parse_private_key allowance_call parse_amount approve_call approve_wait parse_input_amount :
      Context
  parse_min_output_amount swap_call swap_wait parse_native_amount transactor : Context
  get_amounts_out_call parse_usd approve_step min_output_step : Context
  parse_token_amount nonce_call gas_price_call sign_call send_call mined_wait : Context
  deposit_call deposit_wait decode_quote decode_inbound : Context

pub data Error : Type 0 where
  external : Bytes → Error
  units : UnitsError → Error
  wrapped : Context → Error → Error
  unknown_token : (symbol chain_name : Bytes) → Error
  invalid_from_token invalid_to_token invalid_amount_format amount_not_positive : Error
  empty_result unexpected_type missing_amount : Error
  unparseable_estimate : Bytes → Error
  no_slippage_protection : Bytes → Error
  invalid_input_amount slippage_out_of_range usd_not_positive : Error
  insufficient_allowance : (current required : Bytes) → Error
  no_liquidity : Bytes → Error
  -- BelowMinError, and the message that the flow makes of it
  below_minimum : ℤ → Error
  below_minimum_of : (symbol token_amount usd : Bytes) → Error
  thornode_error invalid_swap_amount invalid_thor_amount expected_not_integer : Bytes → Error
  unsupported_chain halted no_inbound : Bytes → Error
  no_expected_amount vault_required router_required memo_required btc_required : Error
