-- ===== src/Mcp/ReadOnly.antt =====
-- The calls that sign nothing.
use lazyswap.Mcp.Readers.{
  GetBalancesIn, balance_inputs, balances, balances_for, connected, fetch_with, get_balances,
}
use lazyswap.Prelude.{Bool-cases, inl, inr, ◌≡◌, refl, false}
use lazyswap.Prelude.Text.{Bytes}
use lazyswap.Prelude.Result.{Result, ok, err}
use lazyswap.Float.{Float64}
use lazyswap.Chain.{get}
use lazyswap.Error.{Error}
use lazyswap.Crypto.{Primitives}
use lazyswap.Wallet.{Wallet, Sql}
use lazyswap.Swap.Io.{Client, World}
use lazyswap.Swap.Flow.{FlowQuote}
use lazyswap.Swap.Flow.Safe.{quote-sent}
use lazyswap.Mcp.{McpError, Server, Outside, SwapIn, Resolved, contains}
use lazyswap.Mcp.Trade.{flow}
use lazyswap.Mcp.Tools.{
  ToolCall, call_swap_quote, call_swap_execute, call_get_settings, call_set_settings,
  call_list_chains, call_get_wallets, call_get_balances, after_quote, after_flow, quote_inputs,
  quote_with, swap_quote, dispatch, handle,
}
use lazyswap.Mcp.Gate.{Quiet, Quiet-refl, Quiet-trans, flow-Quiet, risk_report-Quiet}

module _ (fl : Float64) (cl : Client) (sql : Sql) (p : Primitives) (rpc : Bytes) where
  open fl use {F, of_ℕ, lt, sub, add}
  open cl use {Node}
  open sql use {Db}

  after_quote-Quiet :
      (out : Outside) (q : Resolved F) (s : Server Db Node F)
      (r : Result Error (FlowQuote F) × World Node)
      → r.1.sent ≡ s.world.sent
      → Quiet s (after_quote fl cl sql p rpc out q s r).1
  unfolding after_quote
  after_quote-Quiet out q s (err e, w) h = record {
    same = record { opts = refl; spent = refl };
    sent = h;
  }
  after_quote-Quiet out q s (ok fq, w) h =
      Quiet-trans (record { same = record { opts = refl; spent = refl }; sent = h })
        (risk_report-Quiet out (get rpc q.key) (record s { world = w }) q.key q.to_token)

  after_flow-Quiet :
      (out : Outside) (q : Resolved F) (w : Wallet)
      (r : Result McpError (Unit {0}) × Server Db Node F)
      → Quiet r.1 (after_flow fl cl sql p rpc out q w r).1
  unfolding after_flow
  after_flow-Quiet out q w (err e, s) = Quiet-refl
  after_flow-Quiet out q w (ok u, s) =
      after_quote-Quiet out q s _
        (quote-sent fl cl (get rpc q.key) q.from_token q.to_token q.usd q.slip w.address s.world)

  quote_with-Quiet :
      (out : Outside) (s : Server Db Node F) (r : Result McpError (Resolved F × Wallet))
      → Quiet s (quote_with fl cl sql p rpc out s r).1
  quote_with-Quiet out s (err e) = Quiet-refl
  quote_with-Quiet out s (ok (q, w)) =
      Quiet-trans (flow-Quiet out s q.key) (after_flow-Quiet out q w (flow out s q.key))

  -- swap_quote never signs a transaction and books nothing, on any path.
  pub swap_quote-Quiet :
      (out : Outside) (s : Server Db Node F) (r : SwapIn F)
      → Quiet s (swap_quote fl cl sql p rpc out s r).1
  unfolding swap_quote
  swap_quote-Quiet out s r = quote_with-Quiet out s (quote_inputs fl cl sql p rpc s.db r)

  connected-Quiet :
      (s : Server Db Node F) (key : Bytes) (r : Result Bytes (Unit {0}))
      → Quiet s (connected s key r).1
  connected-Quiet s key (ok u) = record { same = record { opts = refl; spent = refl }; sent = refl }
  connected-Quiet s key (err e) = Quiet-refl

  balances-Quiet :
      (out : Outside) (s : Server Db Node F) (key : Bytes) → Quiet s (balances out s key).1
  unfolding balances
  balances-Quiet out s key = elim (Bool-cases (contains s.bals key)) [
    | inl e ↦ rw e Quiet-refl
    | inr e ↦ rw e (connected-Quiet s key (out.dial_balances key))
  ]

  fetch_with-Quiet :
      (out : Outside) (key : Bytes) (w : Wallet) (r : Result McpError (Unit {0}) × Server Db Node F)
      → Quiet r.1 (fetch_with out key w r).1
  fetch_with-Quiet out key w (err e, s) = Quiet-refl
  fetch_with-Quiet out key w (ok u, s) = Quiet-refl

  balances_for-Quiet :
      (out : Outside) (s : Server Db Node F) (r : Result McpError (Bytes × Wallet))
      → Quiet s (balances_for out s r).1
  unfolding balances
  balances_for-Quiet out s (err e) = Quiet-refl
  balances_for-Quiet out s (ok (key, w)) =
      Quiet-trans (balances-Quiet out s key) (fetch_with-Quiet out key w (balances out s key))

  -- get_balances signs nothing and books nothing, on any path.
  pub get_balances-Quiet :
      (out : Outside) (s : Server Db Node F) (r : GetBalancesIn)
      → Quiet s (get_balances fl sql p out s r).1
  unfolding get_balances
  get_balances-Quiet out s r = balances_for-Quiet out s (balance_inputs fl sql p s.db r)

  -- A call of any tool of a server that does not trade leaves the transactions and the budget.
  pub handle-Quiet :
      (out : Outside) (s : Server Db Node F) (c : ToolCall F)
      → s.opts.allow_trading ≡ false
      → Quiet s (handle fl cl sql p rpc out s c).1
  unfolding handle dispatch
  handle-Quiet out s (call_swap_quote r) off = swap_quote-Quiet out s r
  handle-Quiet out s (call_swap_execute r) off = rw off Quiet-refl
  handle-Quiet out s call_get_settings off = Quiet-refl
  handle-Quiet out s call_list_chains off = Quiet-refl
  handle-Quiet out s call_get_wallets off = Quiet-refl
  handle-Quiet out s (call_get_balances r) off = get_balances-Quiet out s r
  handle-Quiet out s (call_set_settings r) off = record {
    same = record { opts = refl; spent = refl };
    sent = refl;
  }
