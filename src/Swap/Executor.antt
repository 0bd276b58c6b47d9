-- ===== src/Swap/Executor.antt =====
-- internal/swap/executor.go: approvals and the three swap variants.
pub mod Safe
pub mod Count
use lazyswap.Prelude.{
  ℕ, ◌+◌, ◌*◌, List, [], ◌∷◌, Option, none, some, Bool, true, false, ◌||◌, if◌then◌else◌, null,
}
use lazyswap.Prelude.Int.{ℤ, pos}
use lazyswap.Prelude.Text.{Bytes, codes, text_eq, trim_space}
use lazyswap.Prelude.Result.{Result, ok, err, map_err}
use lazyswap.Float.{Float64}
use lazyswap.Balance.{parse_units, format_units, big_string}
use lazyswap.Chain.{Config}
use lazyswap.Error.{
  Error, Context, units, wrapped, external, invalid_from_token, invalid_to_token,
  invalid_input_amount, slippage_out_of_range, insufficient_allowance, empty_result,
  unexpected_type, parse_private_key, allowance_call, parse_amount, approve_call, approve_wait,
  parse_input_amount, parse_min_output_amount, swap_call, swap_wait, parse_native_amount,
  transactor, approve_step,
}
use lazyswap.Swap.Io.{
  allowance, Returned, amounts, number, other, approve, swap_exact_tokens_for_tokens,
  swap_exact_eth_for_tokens, swap_exact_tokens_for_eth, TxOpts, Tx, Receipt, Client, Io, pure, fail,
  lift, label, ◌>>=◌, relabel, call_contract, send, wait, unix_now,
}
use lazyswap.Swap.Token.{native_sentinel, resolve_decimals}

pub record ExecutionResult : Type 0 where
  pub tx_hash : Bytes
  pub from_token : Bytes
  pub to_token : Bytes
  pub input_amount : Bytes
  pub output_amount : Bytes
  pub gas_used : Bytes

pub record Executor : Type 0 where
  pub chain : Config
  pub private_key : ℕ
  pub from : ℕ

-- the amount of a text in raw units, its parse error labelled
abbrev pub raw_amount : Context → Bytes → ℕ → Result Error ℤ
raw_amount c s decimals = map_err (λ e. wrapped c (units e)) (parse_units s decimals)

-- strings.TrimPrefix(s, "0x")
unfoldable pub trim_0x : Bytes → Bytes
unfolding text_eq
trim_0x (a ∷ b ∷ s) = if text_eq (a ∷ b ∷ []) (codes "0x") then s else a ∷ b ∷ s
trim_0x s = s

module _ (fl : Float64) where
  open fl use {F, of_ℕ, lt, le, parse}

  -- `v, _ := strconv.ParseFloat(s, 64)`: zero where it does not parse
  abbrev pub or_zero : Option F → F
  or_zero none = of_ℕ 0
  or_zero (some v) = v

  abbrev pub bad_amount : Option F → Bool
  bad_amount none = true
  bad_amount (some v) = le v (of_ℕ 0)

  -- validateSwapInputs without its tests of the token addresses
  unfoldable pub validate_amounts : Bytes → F → Result Error (Unit {0})
  validate_amounts input_amount slippage =
      if bad_amount (parse input_amount)
      then err invalid_input_amount
      else if lt slippage (of_ℕ 0) || lt (of_ℕ 100) slippage
      then err slippage_out_of_range
      else ok tt

  -- validateSwapInputs
  unfoldable pub validate_swap_inputs : Bytes → Bytes → Bytes → F → Result Error (Unit {0})
  unfolding validate_amounts
  validate_swap_inputs from_token to_token input_amount slippage =
      if null (trim_space from_token)
      then err invalid_from_token
      else if null (trim_space to_token)
      then err invalid_to_token
      else validate_amounts input_amount slippage

module _ (cl : Client) where
  open cl use {Node, hex_to_address, hex_to_ecdsa, pubkey_to_address, new_transactor}

  abbrev with_key : Config → Result Error ℕ → Result Error Executor
  with_key chain (err e) = err e
  with_key chain (ok key) =
      ok (record { chain = chain; private_key = key; from = pubkey_to_address key })

  -- NewExecutor, over the chain's configuration
  unfoldable pub new_executor : Config → Bytes → Result Error Executor
  new_executor chain private_key_hex =
      with_key chain (relabel parse_private_key (hex_to_ecdsa (trim_0x private_key_hex)))

  -- txOpts
  unfoldable pub tx_opts : Executor → Option ℤ → Io Node TxOpts
  tx_opts e value = do
    _ ← lift (relabel transactor (new_transactor e.private_key e.chain.chain_id))
    pure (record { key = e.private_key; chain_id = e.chain.chain_id; value = value })

  -- the value of an `allowance` call
  unfoldable pub allowance_of : List Returned → Io Node (Option ℤ)
  allowance_of [] = fail empty_result
  allowance_of (number raw ∷ rest) = pure raw
  allowance_of (_ ∷ rest) = fail unexpected_type

  -- CheckAllowance
  unfoldable pub check_allowance : Executor → Bytes → Bytes → Io Node Bytes
  check_allowance e token_addr spender = do
    out ←
        call_contract cl e.chain.chain_id allowance_call
          (allowance (hex_to_address token_addr) e.from (hex_to_address spender))
    raw ← allowance_of out
    pure (format_units raw (resolve_decimals e.chain token_addr))

  -- ApproveToken
  unfoldable pub approve_token : Executor → Bytes → Bytes → Io Node Bytes
  approve_token e token_addr amount = do
    raw ← lift (raw_amount parse_amount amount (resolve_decimals e.chain token_addr))
    auth ← tx_opts e none
    tx ← send cl approve_call (record {
      opts = auth;
      method = approve (hex_to_address token_addr) (hex_to_address e.chain.router_address) raw;
    })
    receipt ← wait cl approve_wait tx
    pure receipt.tx_hash

  -- bind.WaitMined and the summary of the receipt
  unfoldable pub settle : ℕ → Bytes → Bytes → Bytes → Bytes → Io Node ExecutionResult
  settle tx from_token to_token input_amount output_amount = do
    receipt ← wait cl swap_wait tx
    pure (record {
      tx_hash = receipt.tx_hash;
      from_token = from_token;
      to_token = to_token;
      input_amount = input_amount;
      output_amount = output_amount;
      gas_used = big_string (pos receipt.gas_used);
    })

module _ (fl : Float64) (cl : Client) where
  open fl use {F, lt, parse}
  open cl use {Node, hex_to_address}

  -- `cur < want` on the parsed texts
  abbrev pub below : Bytes → Bytes → Bool
  below current want = lt (or_zero fl (parse current)) (or_zero fl (parse want))

  -- ExecuteSwap
  unfoldable pub execute_swap :
      Executor → Bytes → Bytes → Bytes → Bytes → F → Io Node ExecutionResult
  execute_swap e from_token to_token input_amount min_output_amount slippage = do
    _ ← lift (validate_swap_inputs fl from_token to_token input_amount slippage)
    current ← check_allowance cl e from_token e.chain.router_address
    _ ← lift (
        if below current input_amount
        then err (insufficient_allowance current input_amount)
        else ok tt)
    amount_in ←
        lift (raw_amount parse_input_amount input_amount (resolve_decimals e.chain from_token))
    amount_out_min ←
        lift
          (raw_amount parse_min_output_amount min_output_amount (resolve_decimals e.chain to_token))
    now ← unix_now cl
    auth ← tx_opts cl e none
    tx ← send cl swap_call (record {
      opts = auth;
      method =
          swap_exact_tokens_for_tokens (hex_to_address e.chain.router_address) amount_in
            amount_out_min (hex_to_address from_token ∷ hex_to_address to_token ∷ []) e.from
            (now + 20 * 60);
    })
    settle cl tx from_token to_token input_amount min_output_amount

  -- ExecuteBuyWithNative
  unfoldable pub execute_buy_with_native :
      Executor → Bytes → Bytes → Bytes → F → Io Node ExecutionResult
  execute_buy_with_native e to_token native_amount min_output_amount slippage = do
    _ ← lift (if null (trim_space to_token) then err invalid_to_token else ok tt)
    _ ← lift (validate_amounts fl native_amount slippage)
    amount_out_min ←
        lift
          (raw_amount parse_min_output_amount min_output_amount (resolve_decimals e.chain to_token))
    amount_in_wei ← lift (raw_amount parse_native_amount native_amount 18)
    now ← unix_now cl
    auth ← tx_opts cl e (some amount_in_wei)
    tx ← send cl swap_call (record {
      opts = auth;
      method =
          swap_exact_eth_for_tokens (hex_to_address e.chain.router_address) amount_out_min
            (hex_to_address e.chain.wrapped_native ∷ hex_to_address to_token ∷ []) e.from
            (now + 20 * 60);
    })
    settle cl tx native_sentinel to_token native_amount min_output_amount

  -- ExecuteSellForNative
  unfoldable pub execute_sell_for_native :
      Executor → Bytes → Bytes → Bytes → F → Io Node ExecutionResult
  execute_sell_for_native e from_token input_amount min_output_amount slippage = do
    _ ← lift (if null (trim_space from_token) then err invalid_from_token else ok tt)
    _ ← lift (validate_amounts fl input_amount slippage)
    amount_in ←
        lift (raw_amount parse_input_amount input_amount (resolve_decimals e.chain from_token))
    amount_out_min ← lift (raw_amount parse_min_output_amount min_output_amount 18)
    now ← unix_now cl
    auth ← tx_opts cl e none
    tx ← send cl swap_call (record {
      opts = auth;
      method =
          swap_exact_tokens_for_eth (hex_to_address e.chain.router_address) amount_in amount_out_min
            (hex_to_address from_token ∷ hex_to_address e.chain.wrapped_native ∷ []) e.from
            (now + 20 * 60);
    })
    settle cl tx from_token native_sentinel input_amount min_output_amount

  -- the approval that ExecuteFullSwap makes where the allowance is short
  unfoldable pub ensure_allowance : Executor → Bytes → Bytes → Io Node (Unit {0})
  ensure_allowance e from_token input_amount = do
    current ← check_allowance cl e from_token e.chain.router_address
    if below current input_amount
        then (do _ ← label approve_step (approve_token cl e from_token input_amount); pure tt)
        else pure tt

  -- ExecuteFullSwap
  unfoldable pub execute_full_swap :
      Executor → Bytes → Bytes → Bytes → Bytes → F → Io Node ExecutionResult
  execute_full_swap e from_token to_token input_amount min_output_amount slippage = do
    _ ← lift (validate_swap_inputs fl from_token to_token input_amount slippage)
    if text_eq from_token native_sentinel
        then execute_buy_with_native e to_token input_amount min_output_amount slippage
        else (do
          _ ← ensure_allowance e from_token input_amount
          if text_eq to_token native_sentinel
              then execute_sell_for_native e from_token input_amount min_output_amount slippage
              else execute_swap e from_token to_token input_amount min_output_amount slippage)
