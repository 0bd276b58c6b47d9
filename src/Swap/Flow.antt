-- ===== src/Swap/Flow.antt =====
-- internal/swap/flow.go, flow_quote.go and flow_execute.go: the USD-denominated flow.
pub mod Safe
pub mod Count
use lazyswap.Prelude.{
  ℕ, List, [], ◌∷◌, ◌++◌, Option, none, some, Bool, true, false, if◌then◌else◌, null, not, ◌&&◌,
  ltb, take, length,
}
use lazyswap.Prelude.Int.{ℤ, is_zero}
use lazyswap.Prelude.Text.{Bytes, codes, text_eq, equal_fold}
use lazyswap.Prelude.Result.{Result, ok, err, map_err}
use lazyswap.Float.{Float64}
use lazyswap.Balance.{parse_units, format_units}
use lazyswap.Chain.{Config}
use lazyswap.Error.{
  Error, units, wrapped, usd_not_positive, no_liquidity, parse_usd, get_amounts_out_call,
  empty_result, unexpected_type, allowance_call,
}
use lazyswap.Swap.Io.{
  allowance, get_amounts_out, Returned, amounts, number, other, Client, World, Io, pure, fail, lift,
  attempt, ◌>>=◌, call_contract,
}
use lazyswap.Swap.Token.{TokenInfo, native_sentinel, resolve_address, stablecoin_decimals}
use lazyswap.Swap.Quote.{min_output_for, get_price, quote_get}
use lazyswap.Swap.Executor.{Executor, ExecutionResult, new_executor, execute_full_swap}

-- the fields of FlowQuote that are set outside THORchain quotes; USDAmountFormatted and
-- FromTokenPriceLine are the display forms of two numbers, and the numbers stand here
pub record FlowQuote (F : Type 0) : Type 0 where
  pub from_token : TokenInfo
  pub to_token : TokenInfo
  pub usd_amount : Bytes
  pub usd : F
  pub from_token_amount : Bytes
  pub price_per_token : F
  pub estimated_output : Bytes
  pub min_output : Bytes
  pub slippage : F
  pub needs_approval : Bool

-- FlowResult; `failed` is a result whose Success is false, with the error that Err prints
pub data FlowResult : Type 0 where
  succeeded : (tx_hash from_symbol to_symbol usd_amount output_amount gas_used : Bytes) → FlowResult
  failed : (from_symbol to_symbol usd_amount : Bytes) → Error → FlowResult

pub record UsdConversion (F : Type 0) : Type 0 where
  pub token_amount : Bytes
  pub price_per_token : F

-- `amounts[len(amounts)-1]`
abbrev pub last_amount : Option ℤ → List (Option ℤ) → Option ℤ
last_amount a [] = a
last_amount a (b ∷ more) = last_amount b more

module _ (cl : Client) where
  open cl use {Node, hex_to_address, is_hex_address}

  abbrev pub amounts_of : List Returned → Result Error (Option ℤ)
  amounts_of [] = err empty_result
  amounts_of (amounts (a ∷ more) ∷ rest) = ok (last_amount a more)
  amounts_of (_ ∷ rest) = err unexpected_type

  -- callAmountsOut
  unfoldable pub call_amounts_out : (chain_id router : ℕ) → ℤ → List ℕ → Io Node (Option ℤ)
  call_amounts_out chain_id router amount_in path = do
    out ← call_contract cl chain_id get_amounts_out_call (get_amounts_out router amount_in path)
    lift (amounts_of out)

  -- a failed call leaves the amount unset
  abbrev pub or_unset : Result Error (Option ℤ) → Option ℤ
  or_unset (ok raw) = raw
  or_unset (err e) = none

  -- One route of ConvertUsdToTokenAmount: tried where no amount is there yet and `open_route` holds.
  unfoldable pub try_route :
      Bool → Option ℤ → (chain_id router : ℕ) → ℤ → List ℕ → Io Node (Option ℤ)
  try_route open_route (some raw) chain_id router amount_in path = pure (some raw)
  try_route open_route none chain_id router amount_in path =
      if open_route
      then (do r ← attempt (call_amounts_out chain_id router amount_in path); pure (or_unset r))
      else pure none

  -- the three routes, in the order of the source
  unfoldable pub find_amount : Config → Bytes → ℤ → Io Node (Option ℤ)
  find_amount chain token_addr amount_in = do
    let router = hex_to_address chain.router_address
    let stable = hex_to_address chain.stablecoin_addr
    let token = hex_to_address token_addr
    direct ←
        try_route (not (equal_fold token_addr chain.stablecoin_addr)) none chain.chain_id router
          amount_in (stable ∷ token ∷ [])
    hop ←
        try_route (not (equal_fold token_addr chain.wrapped_native)) direct chain.chain_id router
          amount_in (stable ∷ hex_to_address chain.wrapped_native ∷ token ∷ [])
    try_route true hop chain.chain_id router amount_in (stable ∷ token ∷ [])

module _ (fl : Float64) where
  open fl use {F, of_ℕ, lt, le, div, parse}

  -- the result of a conversion that found an amount of the token
  abbrev pub converted : TokenInfo → F → Option ℤ → Result Error (UsdConversion F)
  converted token usd none = err (no_liquidity token.symbol)
  converted token usd (some raw) =
      if is_zero raw
      then err (no_liquidity token.symbol)
      else (let text = format_units (some raw) token.decimals in
          let amount : F = elim (parse text) [ none ↦ of_ℕ 0 | some v ↦ v ] in
          ok (record {
            token_amount = text;
            price_per_token =
                if le amount (of_ℕ 0) && le (of_ℕ 0) amount then of_ℕ 0 else div usd amount;
          }))

  -- the USD amount of a request: a positive number
  unfoldable pub parse_positive : Bytes → Result Error F
  parse_positive usd_amount = elim (parse usd_amount) [
    | none ↦ err usd_not_positive
    | some usd ↦ if le usd (of_ℕ 0) then err usd_not_positive else ok usd
  ]

module _ (fl : Float64) (cl : Client) where
  open fl use {F, of_ℕ, lt, parse, format_fixed}
  open cl use {Node, hex_to_address, is_hex_address}

  -- ConvertUsdToTokenAmount
  unfoldable pub convert_usd_to_token_amount : Config → TokenInfo → F → Io Node (UsdConversion F)
  convert_usd_to_token_amount chain token usd = do
    let decimals = stablecoin_decimals chain
    amount_in ← lift (
        map_err (λ e. wrapped parse_usd (units e))
          (parse_units (format_fixed usd decimals) decimals))
    raw ← find_amount cl chain (resolve_address chain token.address) amount_in
    lift (converted fl token usd raw)

  abbrev pub short_of : Bytes → ℕ → Result Error (List Returned) → Bool
  short_of required decimals (ok (number raw ∷ rest)) =
      lt (elim (parse (format_units raw decimals)) [ none ↦ of_ℕ 0 | some v ↦ v ])
        (elim (parse required) [ none ↦ of_ℕ 0 | some v ↦ v ])
  short_of required decimals _ = true

  -- checkNeedsApproval
  unfoldable pub check_needs_approval : Config → Bytes → Bytes → ℕ → Bytes → Io Node Bool
  check_needs_approval chain token_addr wallet_addr decimals required =
      if is_hex_address wallet_addr
      then (do
        r ← attempt (
            call_contract cl chain.chain_id allowance_call (
              allowance (hex_to_address token_addr) (hex_to_address wallet_addr)
                (hex_to_address chain.router_address)))
        pure (short_of required decimals r))
      else pure true

  -- Flow.Quote
  unfoldable pub quote : Config → TokenInfo → TokenInfo → Bytes → F → Bytes → Io Node (FlowQuote F)
  quote chain from_token to_token usd_amount slippage wallet_address = do
    usd ← lift (parse_positive fl usd_amount)
    conv ← convert_usd_to_token_amount chain from_token usd
    let from_addr = resolve_address chain from_token.address
    let to_addr = resolve_address chain to_token.address
    estimated ← quote_get fl (get_price cl chain) from_addr to_addr conv.token_amount
    min_output ← lift (min_output_for fl estimated slippage to_token.decimals)
    needs_approval ←
        if text_eq from_token.address native_sentinel
        then pure false
        else check_needs_approval chain from_addr wallet_address from_token.decimals
            conv.token_amount
    pure (record {
      from_token = from_token;
      to_token = to_token;
      usd_amount = usd_amount;
      usd = usd;
      from_token_amount = conv.token_amount;
      price_per_token = conv.price_per_token;
      estimated_output = estimated;
      min_output = min_output;
      slippage = slippage;
      needs_approval = needs_approval;
    })

  -- the body of Flow.Execute, whose early returns are its errors
  unfoldable pub execute_steps :
      Config → Bytes → TokenInfo → TokenInfo → Bytes → F → Io Node ExecutionResult
  execute_steps chain private_key from_token to_token usd_amount slippage = do
    usd ← lift (parse_positive fl usd_amount)
    executor ← lift (new_executor cl chain private_key)
    conv ← convert_usd_to_token_amount chain from_token usd
    estimated ←
        quote_get fl (get_price cl chain) (resolve_address chain from_token.address)
          (resolve_address chain to_token.address) conv.token_amount
    min_output ← lift (min_output_for fl estimated slippage to_token.decimals)
    execute_full_swap fl cl executor from_token.address to_token.address conv.token_amount
        min_output slippage

  abbrev pub flow_result : TokenInfo → TokenInfo → Bytes → Result Error ExecutionResult → FlowResult
  flow_result from_token to_token usd_amount (ok r) =
      succeeded r.tx_hash from_token.symbol to_token.symbol usd_amount r.output_amount r.gas_used
  flow_result from_token to_token usd_amount (err e) =
      failed from_token.symbol to_token.symbol usd_amount e

  abbrev pub report :
      TokenInfo
      → TokenInfo
      → Bytes
      → Result Error ExecutionResult × World Node
      → FlowResult × World Node
  report from_token to_token usd_amount (r, w) = (flow_result from_token to_token usd_amount r, w)

  -- Flow.Execute
  unfoldable pub execute :
      Config → Bytes → TokenInfo → TokenInfo → Bytes → F → World Node → FlowResult × World Node
  execute chain private_key from_token to_token usd_amount slippage w =
      report from_token to_token usd_amount
        (execute_steps chain private_key from_token to_token usd_amount slippage w)
