-- ===== src/Swap/Quote.antt =====
-- internal/swap/minoutput.go and quote.go, and the price provider of internal/dex/uniswap_v2.go.
pub mod Minimum
use lazyswap.Prelude.{ℕ, List, [], ◌∷◌, Option, none, some, ltb, if◌then◌else◌, null}
use lazyswap.Prelude.Int.{ℤ, is_pos}
use lazyswap.Prelude.Text.{Bytes, trim_space}
use lazyswap.Prelude.Result.{Result, ok, err, map_err}
use lazyswap.Float.{Float64}
use lazyswap.Balance.{parse_units, format_units}
use lazyswap.Chain.{Config}
use lazyswap.Error.{
  Error, units, wrapped, parse_amount, get_amounts_out_call, min_output_step, invalid_from_token,
  invalid_to_token, invalid_amount_format, amount_not_positive, empty_result, missing_amount,
  unparseable_estimate, no_slippage_protection,
}
use lazyswap.Swap.Io.{
  get_amounts_out, Returned, amounts, Client, Io, pure, fail, lift, ◌>>=◌, call_contract,
}
use lazyswap.Swap.Token.{resolve_decimals}

-- maxMinOutputPrecision
abbrev pub max_min_output_precision : ℕ
max_min_output_precision = 8

module _ (fl : Float64) where
  open fl use {F, of_ℕ, sub, mul, div, le, parse, format_fixed}

  -- est*(1-slippage/100), printed with `prec` fractional digits
  abbrev pub reduced : F → F → ℕ → Bytes
  reduced est slippage decimals =
      let prec =
        if ltb max_min_output_precision decimals then max_min_output_precision else decimals in
      format_fixed (mul est (sub (of_ℕ 1) (div slippage (of_ℕ 100)))) prec

  -- the check of the value that the router would receive
  abbrev pub checked_output : Bytes → Result Error ℤ → Result Error Bytes
  checked_output s (err e) = err (wrapped min_output_step e)
  checked_output s (ok v) = if is_pos v then ok s else err (no_slippage_protection s)

  abbrev pub min_output_of : Bytes → Option F → F → ℕ → Result Error Bytes
  min_output_of estimated none slippage decimals = err (unparseable_estimate estimated)
  min_output_of estimated (some est) slippage decimals =
      let s = reduced est slippage decimals in
      checked_output s (map_err units (parse_units s decimals))

  -- minOutputFor
  unfoldable pub min_output_for : Bytes → F → ℕ → Result Error Bytes
  min_output_for estimated slippage decimals =
      min_output_of estimated (parse estimated) slippage decimals

module _ (cl : Client) where
  open cl use {Node, hex_to_address}

  -- the second amount of the first value that getAmountsOut returns
  unfoldable pub price_of : ℕ → List Returned → Io Node Bytes
  price_of to_dec [] = fail empty_result
  price_of to_dec (amounts (a ∷ some b ∷ more) ∷ rest) = pure (format_units (some b) to_dec)
  price_of to_dec (_ ∷ rest) = fail missing_amount

  -- UniswapV2Provider.GetPrice
  unfoldable pub get_price : Config → Bytes → Bytes → Bytes → Io Node Bytes
  get_price chain from_token to_token input_amount = do
    amount_in ← lift (
        map_err (λ e. wrapped parse_amount (units e))
          (parse_units input_amount (resolve_decimals chain from_token)))
    out ← call_contract cl chain.chain_id get_amounts_out_call (
        get_amounts_out (hex_to_address chain.router_address) amount_in
          (hex_to_address from_token ∷ hex_to_address to_token ∷ []))
    price_of (resolve_decimals chain to_token) out

module _ (fl : Float64) where
  open fl use {of_ℕ, le, parse}

  -- v <= 0 is refused, and so is what does not parse
  abbrev pub positive_amount : Error → Error → Option fl.F → Result Error (Unit {0})
  positive_amount bad low none = err bad
  positive_amount bad low (some v) = if le v (of_ℕ 0) then err low else ok tt

  -- Quote.Get over a provider; the result is its EstimatedOutput, the other fields repeat the input
  unfoldable pub quote_get :
      {Node : Type 0} (provider : Bytes → Bytes → Bytes → Io Node Bytes)
      → Bytes
      → Bytes
      → Bytes
      → Io Node Bytes
  quote_get provider from_token to_token input_amount =
      if null (trim_space from_token)
      then fail invalid_from_token
      else if null (trim_space to_token)
      then fail invalid_to_token
      else do
        _ ← lift (positive_amount invalid_amount_format amount_not_positive (parse input_amount))
        provider from_token to_token input_amount
