-- ===== src/Thorchain/Provider.antt =====
-- internal/thorchain/provider.go: quotes, vaults and the names of assets.
use lazyswap.Prelude.{
  List, Option, [], false, if◌then◌else◌, leb, ltb, none, null, some, true, ◌&&◌, ◌++◌, ◌||◌, ◌∷◌,
}
use lazyswap.Prelude.Int.{is_zero, pos, ℤ}
use lazyswap.Prelude.Result.{Result, err, ok}
use lazyswap.Prelude.Text.{Bytes, codes, equal_fold, to_upper}
use lazyswap.Balance.{big_string}
use lazyswap.Chain.{lookup}
use lazyswap.Error.{
  Error, below_minimum, decode_inbound, decode_quote, expected_not_integer, external, halted,
  invalid_thor_amount, no_expected_amount, no_inbound, thornode_error, unsupported_chain,
}
use lazyswap.Float.{Float64}
use lazyswap.Swap.Io.{Io, lift, observe, pure, relabel, ◌>>=◌}
use lazyswap.Thorchain.{
  Http, InboundAddress, InboundEntry, QuoteResponse, Response, SwapQuote, btc_asset,
  evm_chain_to_thor, node_url,
}
use lazyswap.Thorchain.Messages.{encode_query, parse_below_min}
use lazyswap.Thorchain.Numbers.{big_of, int64_of, parse_int}

-- an error of the node: a typed one where its text names the minimum
abbrev refusal : Error → Option ℤ → Error
refusal e none = e
refusal e (some minimum) = below_minimum minimum

-- the endpoint of the node
abbrev pub base_url : Bytes → Bytes
base_url override = if null override then node_url else override

abbrev pub body_of : Result Bytes Response → Result Bytes Bytes
body_of (err e) = err e
body_of (ok r) =
    if ltb r.status 200 || leb 300 r.status
    then err
        (codes "THORchain request failed (" ++ big_string (pos r.status) ++ codes "): " ++ r.body)
    else ok r.body

-- firstNonEmpty
unfoldable pub first_non_empty : List Bytes → Bytes
first_non_empty [] = []
first_non_empty (v ∷ vals) = if null v then first_non_empty vals else v

module _ {Node : Type 0} (http : Http Node) where
  open http use {do_get, unmarshal_quote, unmarshal_inbound, url_override}

  -- Provider.get, its error as a value
  unfoldable pub get : Bytes → Io Node (Result Bytes Bytes)
  get endpoint = do r ← observe (do_get endpoint); pure (body_of r)

module _ (fl : Float64) where
  open fl use {F, of_ℕ, of_ℤ, mul, div, le, floor, to_int, parse, format_fixed}

  -- formatSats
  unfoldable pub format_sats : F → Bytes
  format_sats sats = format_fixed (div sats (of_ℕ 100000000)) 8

  -- int64(math.Floor(expectedF * (1 - MemoSlippage))): the constant is 0.97
  unfoldable pub min_sats : F → ℤ
  min_sats expected = to_int (floor (mul expected (div (of_ℕ 97) (of_ℕ 100))))

  -- the memo of an order, which THORnode gives or the program builds
  unfoldable pub memo_of : (given btc_address : Bytes) → ℤ → Bytes
  memo_of given btc_address least =
      if null given && (if null btc_address then false else true)
      then codes "=:" ++ btc_asset ++ b':' ∷ btc_address ++ b':' ∷ big_string least
      else given

  abbrev fee_sats : Bytes → Option F → F
  fee_sats [] parsed = of_ℕ 0
  fee_sats (c ∷ s) none = of_ℕ 0
  fee_sats (c ∷ s) (some f) = f

  abbrev seconds_or_default : ℤ → ℤ
  seconds_or_default s = if is_zero s then pos 600 else s

  -- the quote of an answer whose expected output is a number
  unfoldable pub quote_from : QuoteResponse → Bytes → ℤ → SwapQuote
  quote_from r btc_address expected =
      let least = min_sats (of_ℤ expected) in
      record {
        expected_output = format_sats (of_ℤ expected);
        expected_sats = int64_of expected;
        min_output = format_sats (of_ℤ least);
        total_fees = format_sats (fee_sats r.fees_total (parse r.fees_total));
        estimated_seconds = seconds_or_default r.outbound_delay_seconds;
        gas_limit = codes "300000";
        memo = memo_of r.memo btc_address least;
        recommended_min_in = (parse_int r.recommended_min_amount_in).0;
      }

  abbrev pub expected_quote : QuoteResponse → Bytes → Option ℤ → Result Error SwapQuote
  expected_quote r btc_address none = err (expected_not_integer r.expected_amount_out)
  expected_quote r btc_address (some expected) = ok (quote_from r btc_address expected)

  -- the checks of a decoded answer
  unfoldable pub check_quote : Bytes → QuoteResponse → Result Error SwapQuote
  check_quote btc_address r =
      let msg = first_non_empty (r.error ∷ r.message ∷ []) in
      if null msg
      then (if null r.expected_amount_out
          then err no_expected_amount
          else expected_quote r btc_address (big_of r.expected_amount_out))
      else err (refusal (thornode_error msg) (parse_below_min msg))

  abbrev pub decoded_quote : Bytes → Result Error QuoteResponse → Result Error SwapQuote
  decoded_quote btc_address (err e) = err e
  decoded_quote btc_address (ok r) = check_quote btc_address r

  -- GetSwapQuote behind the request
  unfoldable pub quote_of_body :
      (Bytes → Result Bytes QuoteResponse) → Bytes → Result Bytes Bytes → Result Error SwapQuote
  quote_of_body unmarshal btc_address (err e) = err (refusal (external e) (parse_below_min e))
  quote_of_body unmarshal btc_address (ok body) =
      decoded_quote btc_address (relabel decode_quote (unmarshal body))

  abbrev thor_units : Bytes → Option F → Result Error Bytes
  thor_units amount none = err (invalid_thor_amount amount)
  thor_units amount (some num) =
      if le num (of_ℕ 0)
      then err (invalid_thor_amount amount)
      else ok (big_string (to_int (floor (mul num (of_ℕ 100000000)))))

  -- ToThorBaseUnits
  unfoldable pub to_thor_base_units : Bytes → Result Error Bytes
  to_thor_base_units amount = thor_units amount (parse amount)

  module _ {Node : Type 0} (http : Http Node) where
    open http use {unmarshal_quote, url_override}

    -- GetSwapQuote
    unfoldable pub get_swap_quote : (from_asset from_amount btc_address : Bytes) → Io Node SwapQuote
    get_swap_quote from_asset from_amount btc_address = do
      body ← get http (
          base_url url_override
          ++ codes "/thorchain/quote/swap?"
          ++ encode_query from_asset from_amount btc_address)
      lift (quote_of_body unmarshal_quote btc_address body)

-- the loop of GetInboundAddress
unfoldable pub find_inbound : Bytes → List InboundEntry → Result Error InboundAddress
unfolding equal_fold
find_inbound thor_chain [] = err (no_inbound thor_chain)
find_inbound thor_chain (e ∷ entries) =
    let later = find_inbound thor_chain entries in
    if equal_fold e.chain thor_chain
    then (if e.is_halted
        then err (halted thor_chain)
        else ok (record { vault_address = e.address; chain = e.chain; router = e.router }))
    else later

abbrev pub inbound_entries : Bytes → Result Error (List InboundEntry) → Result Error InboundAddress
inbound_entries thor_chain (err e) = err e
inbound_entries thor_chain (ok entries) = find_inbound thor_chain entries

abbrev pub inbound_of_body :
    (Bytes → Result Bytes (List InboundEntry))
    → Bytes
    → Result Bytes Bytes
    → Result Error InboundAddress
inbound_of_body unmarshal thor_chain (err e) = err (external e)
inbound_of_body unmarshal thor_chain (ok body) =
    inbound_entries thor_chain (relabel decode_inbound (unmarshal body))

abbrev thor_chain_of : Bytes → Option Bytes → Result Error Bytes
thor_chain_of chain_key none = err (unsupported_chain chain_key)
thor_chain_of chain_key (some thor_chain) = ok thor_chain

-- `EVMChainToThor[chainKey]`, and the error of an unknown key
unfoldable pub thor_chain : Bytes → Result Error Bytes
thor_chain chain_key = thor_chain_of chain_key (lookup chain_key evm_chain_to_thor)

module _ {Node : Type 0} (http : Http Node) where
  open http use {unmarshal_inbound, url_override}

  -- GetInboundAddress
  unfoldable pub get_inbound_address : Bytes → Io Node InboundAddress
  get_inbound_address chain_key = do
    thor ← lift (thor_chain chain_key)
    body ← get http (base_url url_override ++ codes "/thorchain/inbound_addresses")
    lift (inbound_of_body unmarshal_inbound thor body)

abbrev prefixed : Bytes → Result Error Bytes → Result Error Bytes
prefixed asset (err e) = err e
prefixed asset (ok thor) = ok (thor ++ b'.' ∷ asset)

-- BuildNativeAssetString
unfoldable pub build_native_asset_string : (chain_key symbol : Bytes) → Result Error Bytes
build_native_asset_string chain_key symbol = prefixed (to_upper symbol) (thor_chain chain_key)

-- BuildErc20AssetString
unfoldable pub build_erc20_asset_string : (chain_key symbol address : Bytes) → Result Error Bytes
build_erc20_asset_string chain_key symbol address =
    prefixed (to_upper symbol ++ b'-' ∷ address) (thor_chain chain_key)
