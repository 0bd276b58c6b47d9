-- ===== src/Swap/Thorchain.antt =====
-- internal/swap/flow_thorchain.go: swaps of an amount in dollars to Bitcoin.
pub mod Safe
pub mod Deposited
pub mod Count
use lazyswap.Prelude.{Bool, [], false, if◌then◌else◌, not, null, true}
use lazyswap.Prelude.Int.{is_pos, pos, ℤ}
use lazyswap.Prelude.Result.{Result, err, ok}
use lazyswap.Prelude.Text.{Bytes, codes, text_eq, trim_space}
use lazyswap.Balance.Display.{format_usd}
use lazyswap.Chain.{Config}
use lazyswap.Error.{Error, below_minimum, below_minimum_of, btc_required}
use lazyswap.Float.{Float64}
use lazyswap.Swap.Executor.{Executor, new_executor}
use lazyswap.Swap.Flow.{
  FlowResult, UsdConversion, convert_usd_to_token_amount, failed, parse_positive, quote, succeeded,
}
use lazyswap.Swap.Io.{Client, Io, World, attempt, lift, pure, ◌>>=◌}
use lazyswap.Swap.Token.{TokenInfo, native_sentinel}
use lazyswap.Thorchain.{Http, InboundAddress, SwapQuote}
use lazyswap.Thorchain.Executor.{ThorResult, swap_erc20_to_btc, swap_native_to_btc}
use lazyswap.Thorchain.Provider.{
  build_erc20_asset_string, build_native_asset_string, get_inbound_address, get_swap_quote,
  to_thor_base_units,
}

-- The fields of FlowQuote that a THORchain quote sets to a value of its own. ToToken is always
-- btcToken, IsThorchain true, and the two displayed dollar figures are those of `usd` and
-- `price_per_token`.
pub record ThorQuote (F : Type 0) : Type 0 where
  pub from_token : TokenInfo
  pub usd_amount : Bytes
  pub usd : F
  pub from_token_amount : Bytes
  pub price_per_token : F
  pub estimated_output : Bytes
  pub min_output : Bytes
  pub needs_approval : Bool
  pub estimated_seconds : ℤ
  pub fees : Bytes
  pub btc_address : Bytes
  pub memo : Bytes
  pub estimated_output_sats : ℤ
  pub is_below_min : Bool
  pub min_token_amount : Bytes
  pub min_usd : Bytes

-- btcToken
abbrev pub btc_token : TokenInfo
btc_token = record { symbol = codes "BTC"; address = codes "bitcoin"; decimals = 8 }

-- thorAssetString
unfoldable pub thor_asset_string : (chain_key : Bytes) → TokenInfo → Result Error Bytes
thor_asset_string chain_key token =
    if text_eq token.address native_sentinel
    then build_native_asset_string chain_key token.symbol
    else build_erc20_asset_string chain_key token.symbol token.address

module _ (fl : Float64) where
  open fl use {F, of_ℕ, of_ℤ, mul, div, format_fixed}

  -- thorMin: the amount of the token, and its dollars
  unfoldable pub thor_min : ℤ → F → Bytes × Bytes
  unfolding format_usd
  thor_min min_in price =
      let mt = div (of_ℤ min_in) (of_ℕ 100000000) in
      (format_fixed mt 6, format_usd fl (mul mt price))

  -- thorMinFields
  unfoldable pub thor_min_fields : ℤ → F → Bytes × Bytes
  thor_min_fields min_in price = if is_pos min_in then thor_min min_in price else ([], [])

  -- belowMinErr
  unfoldable pub below_min_err : Bytes → ℤ → F → Error
  below_min_err symbol min_in price =
      let (t, u) = thor_min min_in price in below_minimum_of symbol t u

  -- the error of GetSwapQuote, as GetThorchainQuote and ExecuteThorchain return it
  unfoldable pub explained : Bytes → F → Error → Error
  explained symbol price (below_minimum min_in) = below_min_err symbol min_in price
  explained symbol price e = e

  abbrev pub explain {ℓ} : {A : Type ℓ} → Bytes → F → Result Error A → Result Error A
  explain symbol price (ok a) = ok a
  explain symbol price (err e) = err (explained symbol price e)

  -- the quote of a THORnode answer
  unfoldable pub thor_quote :
      TokenInfo
      → (usd_amount : Bytes) → F
      → UsdConversion F
      → (btc_address : Bytes) → SwapQuote
      → ThorQuote F
  thor_quote token usd_amount usd conv btc_address quote =
      let (min_tok, min_usd) = thor_min_fields quote.recommended_min_in conv.price_per_token in
      record {
        from_token = token;
        usd_amount = usd_amount;
        usd = usd;
        from_token_amount = conv.token_amount;
        price_per_token = conv.price_per_token;
        estimated_output = quote.expected_output;
        min_output = quote.min_output;
        needs_approval = not (text_eq token.address native_sentinel);
        estimated_seconds = quote.estimated_seconds;
        fees = quote.total_fees;
        btc_address = btc_address;
        memo = quote.memo;
        estimated_output_sats = quote.expected_sats;
        is_below_min = false;
        min_token_amount = min_tok;
        min_usd = min_usd;
      }

  -- the quote that EstimateThorchain returns for an amount under the minimum
  unfoldable pub below_min_quote :
      TokenInfo → (usd_amount : Bytes) → F → UsdConversion F → ℤ → ThorQuote F
  below_min_quote token usd_amount usd conv min_in =
      let (min_tok, min_usd) = thor_min min_in conv.price_per_token in
      record {
        from_token = token;
        usd_amount = usd_amount;
        usd = usd;
        from_token_amount = conv.token_amount;
        price_per_token = conv.price_per_token;
        estimated_output = [];
        min_output = [];
        needs_approval = not (text_eq token.address native_sentinel);
        estimated_seconds = pos 0;
        fees = [];
        btc_address = [];
        memo = [];
        estimated_output_sats = pos 0;
        is_below_min = true;
        min_token_amount = min_tok;
        min_usd = min_usd;
      }

  -- The estimate carries neither a destination nor a memo.
  unfoldable pub estimate_of :
      TokenInfo
      → (usd_amount : Bytes) → F
      → UsdConversion F
      → Result Error SwapQuote
      → Result Error (ThorQuote F)
  estimate_of token usd_amount usd conv (ok quote) =
      ok (record (thor_quote token usd_amount usd conv [] quote) { memo = [] })
  estimate_of token usd_amount usd conv (err (below_minimum min_in)) =
      ok (below_min_quote token usd_amount usd conv min_in)
  estimate_of token usd_amount usd conv (err e) = err e

-- the destination of a swap
unfoldable pub check_btc_address : Bytes → Result Error (Unit {0})
check_btc_address btc_address = if null (trim_space btc_address) then err btc_required else ok tt

-- the router that THORnode gives, or that of the chain
unfoldable pub router_of : Config → InboundAddress → Bytes
router_of chain inbound = if null inbound.router then chain.router_address else inbound.router

module _ (fl : Float64) (cl : Client) where
  open cl use {Node}

  -- sendThorSwap
  unfoldable pub send_thor_swap :
      Config → Executor → InboundAddress → TokenInfo → (amount memo : Bytes) → Io Node ThorResult
  send_thor_swap chain e inbound token amount memo =
      if text_eq token.address native_sentinel
      then swap_native_to_btc cl fl e inbound.vault_address amount memo
      else swap_erc20_to_btc cl fl e (router_of chain inbound) inbound.vault_address token.address
          token.symbol token.decimals amount memo

module _ (fl : Float64) (cl : Client) (http : Http cl.Node) where
  open fl use {F}
  open cl use {Node}

  -- GetThorchainQuote, on the chain `chain` of the key `chain_key`
  unfoldable pub get_thorchain_quote :
      (chain_key : Bytes)
      → Config
      → TokenInfo
      → (usd_amount btc_address : Bytes) → Io Node (ThorQuote F)
  get_thorchain_quote chain_key chain token usd_amount btc_address = do
    usd ← lift (parse_positive fl usd_amount)
    _ ← lift (check_btc_address btc_address)
    conv ← convert_usd_to_token_amount fl cl chain token usd
    from_asset ← lift (thor_asset_string chain_key token)
    thor_amount ← lift (to_thor_base_units fl conv.token_amount)
    r ← attempt (get_swap_quote fl http from_asset thor_amount btc_address)
    quote ← lift (explain fl token.symbol conv.price_per_token r)
    pure (thor_quote fl token usd_amount usd conv btc_address quote)

  -- EstimateThorchain
  unfoldable pub estimate_thorchain :
      (chain_key : Bytes) → Config → TokenInfo → (usd_amount : Bytes) → Io Node (ThorQuote F)
  estimate_thorchain chain_key chain token usd_amount = do
    usd ← lift (parse_positive fl usd_amount)
    conv ← convert_usd_to_token_amount fl cl chain token usd
    from_asset ← lift (thor_asset_string chain_key token)
    thor_amount ← lift (to_thor_base_units fl conv.token_amount)
    r ← attempt (get_swap_quote fl http from_asset thor_amount [])
    lift (estimate_of fl token usd_amount usd conv r)

  -- the body of ExecuteThorchain, whose early returns are its errors
  unfoldable pub thorchain_steps :
      (chain_key : Bytes)
      → Config
      → (private_key : Bytes) → TokenInfo
      → (usd_amount btc_address : Bytes) → Io Node (SwapQuote × ThorResult)
  thorchain_steps chain_key chain private_key token usd_amount btc_address = do
    usd ← lift (parse_positive fl usd_amount)
    _ ← lift (check_btc_address btc_address)
    e ← lift (new_executor cl chain private_key)
    conv ← convert_usd_to_token_amount fl cl chain token usd
    from_asset ← lift (thor_asset_string chain_key token)
    thor_amount ← lift (to_thor_base_units fl conv.token_amount)
    r ← attempt (get_swap_quote fl http from_asset thor_amount btc_address)
    quote ← lift (explain fl token.symbol conv.price_per_token r)
    inbound ← get_inbound_address http chain_key
    res ← send_thor_swap fl cl chain e inbound token conv.token_amount quote.memo
    pure (quote, res)

  abbrev thorchain_result : TokenInfo → Bytes → Result Error (SwapQuote × ThorResult) → FlowResult
  thorchain_result token usd_amount (ok (quote, res)) =
      succeeded res.tx_hash token.symbol (codes "BTC") usd_amount quote.expected_output res.gas_used
  thorchain_result token usd_amount (err e) = failed token.symbol btc_token.symbol usd_amount e

  abbrev thorchain_report :
      TokenInfo
      → Bytes
      → Result Error (SwapQuote × ThorResult) × World Node
      → FlowResult × World Node
  thorchain_report token usd_amount (r, w) = (thorchain_result token usd_amount r, w)

  -- ExecuteThorchain
  unfoldable pub execute_thorchain :
      (chain_key : Bytes)
      → Config
      → (private_key : Bytes) → TokenInfo
      → (usd_amount btc_address : Bytes) → World Node
      → FlowResult × World Node
  execute_thorchain chain_key chain private_key token usd_amount btc_address w =
      thorchain_report token usd_amount
        (thorchain_steps chain_key chain private_key token usd_amount btc_address w)
