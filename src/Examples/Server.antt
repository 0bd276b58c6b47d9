-- ===== src/Examples/Server.antt =====
-- internal/mcp at concrete inputs: a server that may trade five dollars at a time and seven in all.
use lazyswap.Prelude.{
  length, leb, ◌≡◌, refl, ℕ, ◌+◌, ◌≤◌, ◌<◌, ◌⊎◌, Bool, true, false, List, [], ◌∷◌, all, arith,
}
use lazyswap.Prelude.Text.{Bytes, codes}
use lazyswap.Prelude.Result.{ok}
use lazyswap.Chain.{has}
use lazyswap.Safety.Report.{empty_report}
use lazyswap.Settings.{load}
use lazyswap.Mcp.{
  known_chains, Options, Server, Outside, SwapIn, Resolved, budget, check_options, chain_key,
  resolve_swap,
}
use lazyswap.Mcp.Trade.{swap_execute}
use lazyswap.Mcp.Tools.{call_swap_execute, handle}
use lazyswap.Mcp.Gate.{Quiet, Passed, Outcome, swap_execute-Outcome, swap_execute-Passed}
use lazyswap.Mcp.ReadOnly.{handle-Quiet}
use lazyswap.Mcp.Budget.{Event, trading, quoting, total_signed, Spent, total_signed-budget}
use lazyswap.Mcp.Ledger.{Books, Covered, serve_all, signed_amounts, serve_all-Books}
use lazyswap.Mcp.Readers.{split_list}
use lazyswap.Swap.Token.{sort_texts}
use lazyswap.Mcp.Startup.{check_options-budget, resolve_swap-has}
use lazyswap.Examples.Samples.{
  whole_floats, whole_floats-HasWholeNumbers, node_client, idle_world, Tables, list_sql,
  open_cipher, sample_db,
}
use lazyswap.Examples.Swaps.{bnb, usdt}

abbrev trading_opts : Options ℕ
trading_opts = record {
  allow_trading = true;
  max_usd = 5;
  max_usd_total = 7;
  allowed_chains = codes "bsc" ∷ [];
  allow_risky = false;
}

abbrev trading_server : Server Tables ℕ ℕ
trading_server = record {
  db = sample_db;
  opts = trading_opts;
  pw = codes "pw";
  spent_usd = 0;
  flows = [];
  bals = [];
  cache = [];
  world = idle_world;
}

abbrev quiet_server : Server Tables ℕ ℕ
quiet_server = record trading_server { opts = record trading_opts { allow_trading = false } }

abbrev outside : Outside
outside = record {
  checker = λ chain_key token. ok empty_report;
  now = 5;
  later = 6;
  dial_chain = λ key. ok tt;
  dial_balances = λ key. ok tt;
  fetch_all = λ key address. ok [];
}

abbrev five_dollars : SwapIn ℕ
five_dollars = record {
  usd = 5;
  from_symbol = codes "BNB";
  to_symbol = codes "USDT";
  slippage = 0;
  wallet = [];
  chain = codes "bsc";
}

swap_execute-Outcome_example :
    Outcome whole_floats node_client list_sql open_cipher [] outside trading_server
      (swap_execute whole_floats node_client list_sql open_cipher [] outside trading_server
        five_dollars).1
      five_dollars
swap_execute-Outcome_example =
    swap_execute-Outcome whole_floats node_client list_sql open_cipher [] outside trading_server
      five_dollars

swap_execute-Passed_example :
    ((swap_execute whole_floats node_client list_sql open_cipher [] outside trading_server
        five_dollars).1.world.sent
      ≡ [])
    ⊎ Passed whole_floats node_client list_sql open_cipher [] outside trading_server five_dollars
swap_execute-Passed_example =
    swap_execute-Passed whole_floats node_client list_sql open_cipher [] outside trading_server
      five_dollars

handle-Quiet_example :
    Quiet quiet_server
      (handle whole_floats node_client list_sql open_cipher [] outside quiet_server
        (call_swap_execute five_dollars)).1
handle-Quiet_example =
    handle-Quiet whole_floats node_client list_sql open_cipher [] outside quiet_server
      (call_swap_execute five_dollars) refl

nothing-Spent : Spent whole_floats node_client list_sql open_cipher [] trading_server 0 7
unfolding budget
nothing-Spent = record { spent = refl; total = refl; within = omega arith }

abbrev two_swaps : List (Event ℕ)
two_swaps =
    trading outside 5 five_dollars
    ∷ quoting outside five_dollars
    ∷ trading outside 5 five_dollars
    ∷ []

total_signed-budget_example :
    0 + total_signed whole_floats node_client list_sql open_cipher [] trading_server two_swaps ≤ 7
total_signed-budget_example =
    total_signed-budget whole_floats node_client list_sql open_cipher []
      whole_floats-HasWholeNumbers two_swaps trading_server 0 7 (omega arith) refl nothing-Spent

opts_pass : check_options whole_floats trading_opts ≡ ok tt
unfolding check_options known_chains has
opts_pass = refl

check_options-budget_example :
    (0 < 5)
    × ((b : ℕ) × (budget whole_floats trading_opts ≡ b) × (5 ≤ b))
    × (all has trading_opts.allowed_chains ≡ true)
check_options-budget_example =
    check_options-budget whole_floats whole_floats-HasWholeNumbers trading_opts 5 7 (omega arith)
      (omega arith) refl refl refl opts_pass

abbrev resolved_swap : Resolved ℕ
resolved_swap = record {
  key = codes "bsc";
  from_token = bnb;
  to_token = usdt;
  usd = codes "5";
  slip = 0;
}

resolves :
    resolve_swap whole_floats list_sql open_cipher [] sample_db five_dollars ≡ ok resolved_swap
unfolding resolve_swap chain_key has lazyswap.Swap.Token.resolve_token
    lazyswap.Prelude.Text.to_upper lazyswap.Chain.get lazyswap.Chain.bsc lazyswap.Mcp.slippage load
    lazyswap.Balance.format_units lazyswap.Settings.apply_default_wallet
    lazyswap.Settings.apply_chain lazyswap.Settings.apply_slippage
resolves = refl

resolve_swap-has_example :
    (leb 5 0 ≡ false)
    × (chain_key whole_floats list_sql open_cipher sample_db five_dollars.chain
        ≡ ok resolved_swap.key)
    × (has resolved_swap.key ≡ true)
    × (resolved_swap.usd ≡ whole_floats.format_shortest 5)
resolve_swap-has_example =
    resolve_swap-has whole_floats list_sql open_cipher [] sample_db five_dollars resolved_swap refl
      resolves

-- the first swap is signed and booked
abbrev traded_state : Server Tables ℕ ℕ
traded_state =
    (swap_execute whole_floats node_client list_sql open_cipher [] outside trading_server
      five_dollars).1

swap_execute_test : (length traded_state.world.sent ≡ 1) × (traded_state.spent_usd ≡ 5)
unfolding swap_execute lazyswap.Mcp.Trade.after_resolve lazyswap.Mcp.Trade.after_budget
    lazyswap.Mcp.Trade.after_risk lazyswap.Mcp.Trade.sign lazyswap.Mcp.Trade.trade
    lazyswap.Mcp.Trade.flow lazyswap.Mcp.Trade.risk_report lazyswap.Mcp.reserve budget
    lazyswap.Mcp.trading_chain_allowed lazyswap.Mcp.contains lazyswap.Mcp.unlock_wallet
    lazyswap.Wallet.unlock lazyswap.Wallet.pick lazyswap.Wallet.find_by_address
    lazyswap.Wallet.open_wallets lazyswap.Wallet.open_mnemonic lazyswap.Crypto.decrypt
    lazyswap.Crypto.encrypt lazyswap.Crypto.hex_decode lazyswap.Crypto.hex_encode
    lazyswap.Crypto.hex_value lazyswap.Crypto.split_colon lazyswap.Crypto.derive_key
    lazyswap.Crypto.new lazyswap.Chain.lookup lazyswap.Chain.chains
    lazyswap.Safety.Checker.should_check lazyswap.Safety.Checker.check lazyswap.Safety.Checker.fresh
    resolve_swap chain_key has lazyswap.Swap.Token.resolve_token lazyswap.Prelude.Text.to_upper
    lazyswap.Chain.get lazyswap.Mcp.slippage load lazyswap.Settings.apply_default_wallet
    lazyswap.Settings.apply_chain lazyswap.Settings.apply_slippage lazyswap.Swap.Flow.execute
    lazyswap.Swap.Flow.execute_steps lazyswap.Swap.Io.◌>>=◌ lazyswap.Swap.Io.lift
    lazyswap.Swap.Flow.parse_positive lazyswap.Balance.parse_units lazyswap.Prelude.Text.trim_space
    lazyswap.Balance.parse_parts lazyswap.Balance.split_dot lazyswap.Swap.Executor.new_executor
    lazyswap.Swap.Executor.trim_0x lazyswap.Swap.Flow.convert_usd_to_token_amount
    lazyswap.Balance.format_units lazyswap.Swap.Token.stablecoin_decimals lazyswap.Chain.bsc
    lazyswap.Prelude.Text.to_lower lazyswap.Swap.Flow.find_amount lazyswap.Swap.Flow.try_route
    lazyswap.Prelude.Text.equal_fold lazyswap.Balance.big_string lazyswap.Balance.contains_dot
    lazyswap.Balance.decimal_value lazyswap.Balance.digits lazyswap.Balance.set_string
    lazyswap.Balance.trim_suffix_dot lazyswap.Balance.trim_trailing_zeros
    lazyswap.Prelude.Text.text_eq lazyswap.Prelude.Text.trim_left lazyswap.Prelude.Text.trim_right
    lazyswap.Swap.Executor.allowance_of lazyswap.Swap.Executor.approve_token
    lazyswap.Swap.Executor.check_allowance lazyswap.Swap.Executor.ensure_allowance
    lazyswap.Swap.Executor.execute_buy_with_native lazyswap.Swap.Executor.execute_full_swap
    lazyswap.Swap.Executor.execute_sell_for_native lazyswap.Swap.Executor.execute_swap
    lazyswap.Swap.Executor.settle lazyswap.Swap.Executor.tx_opts
    lazyswap.Swap.Executor.validate_amounts lazyswap.Swap.Executor.validate_swap_inputs
    lazyswap.Swap.Flow.call_amounts_out lazyswap.Swap.Io.attempt lazyswap.Swap.Io.call_contract
    lazyswap.Swap.Io.fail lazyswap.Swap.Io.label lazyswap.Swap.Io.pure lazyswap.Swap.Io.send
    lazyswap.Swap.Io.unix_now lazyswap.Swap.Io.wait lazyswap.Swap.Quote.get_price
    lazyswap.Swap.Quote.min_output_for lazyswap.Swap.Quote.price_of lazyswap.Swap.Quote.quote_get
    lazyswap.Swap.Token.resolve_address lazyswap.Swap.Token.resolve_decimals
swap_execute_test = (refl, refl)

serve_all-Books_example :
    (ks : List ℕ) × (n : ℕ) × Books 7 0 ks n
    × Spent whole_floats node_client list_sql open_cipher []
        (serve_all whole_floats node_client list_sql open_cipher [] trading_server two_swaps)
        n
        7
    × Covered
        (signed_amounts whole_floats node_client list_sql open_cipher [] trading_server two_swaps)
        ks
serve_all-Books_example =
    serve_all-Books whole_floats node_client list_sql open_cipher [] whole_floats-HasWholeNumbers
      two_swaps trading_server 0 7 (omega arith) refl nothing-Spent

symbols_test : split_list 0 (codes "BNB, USDT") ≡ codes "BNB" ∷ codes "USDT" ∷ []
unfolding split_list
symbols_test = refl

sorted_test :
    sort_texts (codes "USDT" ∷ codes "BNB" ∷ codes "BUSD" ∷ [])
    ≡ codes "BNB" ∷ codes "BUSD" ∷ codes "USDT" ∷ []
unfolding sort_texts
sorted_test = refl
