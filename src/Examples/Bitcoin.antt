-- ===== src/Examples/Bitcoin.antt =====
-- internal/thorchain and internal/swap/flow_thorchain.go at concrete inputs: five dollars of BNB, and
-- of USDT, for Bitcoin.
use lazyswap.Prelude.{List, [], false, length, null, refl, some, true, ℕ, ◌+◌, ◌∷◌, ◌≡◌, ◌≤◌}
use lazyswap.Prelude.Int.{pos}
use lazyswap.Prelude.Result.{ok}
use lazyswap.Prelude.Text.{Bytes, codes}
use lazyswap.Chain.{bsc}
use lazyswap.Examples.Samples.{idle_world, node_client, whole_floats}
use lazyswap.Examples.Swaps.{bnb, usdt}
use lazyswap.Swap.Executor.{Executor}
use lazyswap.Swap.Io.{Io, Tx}
use lazyswap.Swap.Thorchain.{
  estimate_thorchain, execute_thorchain, get_thorchain_quote, send_thor_swap,
}
use lazyswap.Swap.Thorchain.Count.{execute_thorchain_at_most_two}
use lazyswap.Swap.Thorchain.Deposited.{Deposited, execute_thorchain-Deposited}
use lazyswap.Swap.Token.{TokenInfo}
use lazyswap.Thorchain.{Http, InboundAddress, InboundEntry, QuoteResponse, SwapQuote}
use lazyswap.Thorchain.Memo.{get_swap_quote-memo}
use lazyswap.Thorchain.Messages.{parse_below_min}
use lazyswap.Thorchain.Provider.{get_inbound_address, get_swap_quote, quote_from}
use lazyswap.Thorchain.Vaults.{NamesVault, get_inbound_address-NamesVault, vault_answer}

abbrev vault_entry : InboundEntry
vault_entry = record {
  chain = codes "bsc";
  address = codes "0xvault";
  is_halted = false;
  router = codes "0xrouter";
}

abbrev other_entry : InboundEntry
other_entry = record { chain = codes "ETH"; address = []; is_halted = true; router = [] }

abbrev sample_answer : QuoteResponse
sample_answer = record {
  expected_amount_out = codes "200000000";
  fees_total = codes "7";
  outbound_delay_seconds = pos 0;
  memo = [];
  recommended_min_amount_in = codes "12";
  error = [];
  message = [];
}

-- THORnode answers every request with an empty body.
abbrev sample_http : Http ℕ
sample_http = record {
  do_get = λ url n. (ok (record { status = 200; body = [] }), n);
  unmarshal_quote = λ body. ok sample_answer;
  unmarshal_inbound = λ body. ok (other_entry ∷ vault_entry ∷ []);
  url_override = [];
}

abbrev btc : Bytes
btc = codes "bc1q"

abbrev bsc_key : Bytes
bsc_key = codes "bsc"

abbrev executed : TokenInfo → List Tx
executed token =
    (execute_thorchain whole_floats node_client sample_http bsc_key bsc (codes "01") token
      (codes "5") btc idle_world).1.sent

execute_thorchain-Deposited_example :
    Deposited whole_floats node_client sample_http bsc_key bsc
      (codes "01")
      bnb
      (codes "5")
      btc
      (executed bnb)
execute_thorchain-Deposited_example =
    execute_thorchain-Deposited whole_floats node_client sample_http bsc_key bsc (codes "01") bnb
      (codes "5") btc idle_world refl

execute_thorchain_at_most_two_example : length (executed usdt) ≤ length idle_world.sent + 2
execute_thorchain_at_most_two_example =
    execute_thorchain_at_most_two whole_floats node_client sample_http bsc_key bsc (codes "01") usdt
      (codes "5") btc idle_world

abbrev sample_vault : InboundAddress
sample_vault = record {
  vault_address = codes "0xvault";
  chain = codes "bsc";
  router = codes "0xrouter";
}

vault_found : (get_inbound_address sample_http bsc_key idle_world).0 ≡ ok sample_vault
unfolding get_inbound_address lazyswap.Swap.Io.◌>>=◌ lazyswap.Swap.Io.lift
    lazyswap.Thorchain.Provider.thor_chain lazyswap.Chain.lookup lazyswap.Thorchain.Provider.get
    lazyswap.Swap.Io.observe lazyswap.Swap.Io.pure lazyswap.Thorchain.Provider.find_inbound
vault_found = refl

get_inbound_address-NamesVault_example :
    NamesVault sample_http bsc_key sample_vault (vault_answer sample_http idle_world)
get_inbound_address-NamesVault_example =
    get_inbound_address-NamesVault sample_http bsc_key sample_vault idle_world vault_found

abbrev quote_asked : Io ℕ SwapQuote
quote_asked = get_swap_quote whole_floats sample_http (codes "BSC.BNB") (codes "500000000") btc

abbrev sample_quote : SwapQuote
sample_quote = quote_from whole_floats sample_answer btc (pos 200000000)

quote_found : (quote_asked idle_world).0 ≡ ok sample_quote
unfolding get_swap_quote lazyswap.Swap.Io.◌>>=◌ lazyswap.Thorchain.Provider.get
    lazyswap.Swap.Io.observe lazyswap.Swap.Io.pure lazyswap.Swap.Io.lift
    lazyswap.Thorchain.Provider.quote_of_body lazyswap.Thorchain.Provider.check_quote
    lazyswap.Thorchain.Provider.first_non_empty lazyswap.Thorchain.Numbers.big_of
quote_found = refl

get_swap_quote-memo_example : null sample_quote.memo ≡ false
get_swap_quote-memo_example =
    get_swap_quote-memo whole_floats sample_http (codes "BSC.BNB") (codes "500000000") btc
      idle_world sample_quote refl quote_found

abbrev sample_executor_of_key : Executor
sample_executor_of_key = record { chain = bsc; private_key = 7; from = 8 }

abbrev sent_by : TokenInfo → List Tx
sent_by token =
    (send_thor_swap whole_floats node_client bsc sample_executor_of_key sample_vault token
      (codes "5") (codes "memo") idle_world).1.sent

-- one transfer for the native coin, an approval and a deposit for a token
native_test : length (sent_by bnb) ≡ 1
unfolding send_thor_swap lazyswap.Prelude.Text.text_eq
    lazyswap.Thorchain.Executor.swap_native_to_btc lazyswap.Swap.Io.◌>>=◌ lazyswap.Swap.Io.lift
    lazyswap.Thorchain.Executor.validate lazyswap.Prelude.Text.trim_space
    lazyswap.Balance.parse_units lazyswap.Balance.parse_parts lazyswap.Balance.split_dot
    lazyswap.Swap.Io.observe lazyswap.Swap.Io.send lazyswap.Thorchain.Executor.thor_settle
    lazyswap.Swap.Io.wait lazyswap.Swap.Io.pure
native_test = refl

token_test : length (sent_by usdt) ≡ 2
unfolding send_thor_swap lazyswap.Prelude.Text.text_eq
    lazyswap.Thorchain.Executor.swap_native_to_btc lazyswap.Swap.Io.◌>>=◌ lazyswap.Swap.Io.lift
    lazyswap.Thorchain.Executor.validate lazyswap.Prelude.Text.trim_space
    lazyswap.Balance.parse_units lazyswap.Balance.parse_parts lazyswap.Balance.split_dot
    lazyswap.Swap.Io.observe lazyswap.Swap.Io.send lazyswap.Thorchain.Executor.thor_settle
    lazyswap.Swap.Io.wait lazyswap.Swap.Io.pure lazyswap.Swap.Executor.tx_opts
    lazyswap.Swap.Io.unix_now lazyswap.Thorchain.Executor.swap_erc20_to_btc
    lazyswap.Swap.Thorchain.router_of
token_test = refl

below_test :
    parse_below_min (codes "amount less than min swap amount (recommended_min_amount_in: 1500)")
    ≡ some (pos 1500)
unfolding parse_below_min lazyswap.Thorchain.Numbers.parse_int
below_test = refl
