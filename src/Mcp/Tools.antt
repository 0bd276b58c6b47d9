-- ===== src/Mcp/Tools.antt =====
-- internal/mcp/tools.go: the handlers of swap_quote, get_settings and set_settings, and the calls of
-- all the tools that the server answers. A handler returns its result or its error with the state it leaves.
use lazyswap.Mcp.Readers.{
  ChainOut, GetBalancesIn, GetBalancesOut, WalletOut, get_balances, get_wallets, list_chains,
}
use lazyswap.Prelude.{List, Bool, true, Option, none, some, if◌then◌else◌, null}
use lazyswap.Prelude.Text.{Bytes}
use lazyswap.Prelude.Result.{Result, ok, err, ◌>>=◌}
use lazyswap.Float.{Float64}
use lazyswap.Chain.{has, get}
use lazyswap.Error.{Error}
use lazyswap.Crypto.{Primitives}
use lazyswap.Wallet.{Wallet, Sql}
use lazyswap.Settings.{Settings, SettingsError, set_slippage, set_chain, set_default_wallet}
use lazyswap.Safety.Report.{Report}
use lazyswap.Swap.Io.{Client, World}
use lazyswap.Swap.Flow.{FlowQuote, FlowResult, quote}
use lazyswap.Mcp.{
  McpError, unknown_chain, settings_error, swap_error, no_such_tool, Server, Outside, SwapIn,
  Resolved, SetSettingsIn, SwapQuoteOut, load_settings, pick_wallet, resolve_swap,
}
use lazyswap.Mcp.Trade.{flow, risk_report, swap_execute}

-- the calls of the tools
pub data ToolCall (F : Type 0) : Type 0 where
  call_swap_quote call_swap_execute : SwapIn F → ToolCall F
  call_list_chains call_get_wallets call_get_settings : ToolCall F
  call_get_balances : GetBalancesIn → ToolCall F
  call_set_settings : SetSettingsIn F → ToolCall F

pub data ToolOut (F : Type 0) : Type 0 where
  quoted : SwapQuoteOut F → ToolOut F
  traded : FlowResult → ToolOut F
  settings_are : Settings F → ToolOut F
  chains_are : List ChainOut → ToolOut F
  wallets_are : List WalletOut → ToolOut F
  balances_are : GetBalancesOut → ToolOut F

-- register: swap_execute is offered only by a server that trades
abbrev pub registered : {F : Type 0} → Bool → ToolCall F → Bool
registered allow_trading (call_swap_execute r) = allow_trading
registered allow_trading _ = true

module _ (fl : Float64) (cl : Client) (sql : Sql) (p : Primitives) (rpc : Bytes) where
  open fl use {F}
  open cl use {Node}
  open sql use {Db}

  abbrev quote_out :
      FlowQuote F
      → Option Report × Server Db Node F
      → Result McpError (ToolOut F) × Server Db Node F
  quote_out q (rep, s) = (ok (quoted (record { flow_quote = q; safety = rep })), s)

  unfoldable pub after_quote :
      Outside
      → Resolved F
      → Server Db Node F
      → Result Error (FlowQuote F) × World Node
      → Result McpError (ToolOut F) × Server Db Node F
  after_quote out q s (err e, w) = (err (swap_error e), record s { world = w })
  after_quote out q s (ok fq, w) =
      quote_out fq (risk_report out (get rpc q.key) (record s { world = w }) q.key q.to_token)

  unfoldable pub after_flow :
      Outside
      → Resolved F
      → Wallet
      → Result McpError (Unit {0}) × Server Db Node F
      → Result McpError (ToolOut F) × Server Db Node F
  after_flow out q w (err e, s) = (err e, s)
  after_flow out q w (ok _, s) =
      after_quote out q s
        (quote fl cl (get rpc q.key) q.from_token q.to_token q.usd q.slip w.address s.world)

  -- the two steps of swapQuote that only read the database
  abbrev pub quote_inputs : Db → SwapIn F → Result McpError (Resolved F × Wallet)
  quote_inputs db r = do
    q ← resolve_swap fl sql p rpc db r
    w ← pick_wallet fl sql p db r.wallet
    ok (q, w)

  abbrev pub quote_with :
      Outside
      → Server Db Node F
      → Result McpError (Resolved F × Wallet)
      → Result McpError (ToolOut F) × Server Db Node F
  quote_with out s (err e) = (err e, s)
  quote_with out s (ok (q, w)) = after_flow out q w (flow out s q.key)

  -- swapQuote
  unfoldable pub swap_quote :
      Outside → Server Db Node F → SwapIn F → Result McpError (ToolOut F) × Server Db Node F
  swap_quote out s r = quote_with out s (quote_inputs s.db r)

  -- one setting of setSettings: what it leaves in the database, with its error
  abbrev pub stored : Db → Result SettingsError Db → Result McpError (Unit {0}) × Db
  stored db (ok db') = (ok tt, db')
  stored db (err e) = (err (settings_error e), db)

  unfoldable pub put_chain : Db → Bytes → Result McpError (Unit {0}) × Db
  put_chain db chain =
      if null chain
      then (ok tt, db)
      else if has chain
      then stored db (set_chain fl sql db chain)
      else (err (unknown_chain chain), db)

  unfoldable pub put_slippage : Db → Option F → Result McpError (Unit {0}) × Db
  put_slippage db none = (ok tt, db)
  put_slippage db (some v) = stored db (set_slippage fl sql db v)

  abbrev pub stored_wallet : Db → Bytes → Result McpError Wallet → Result McpError (Unit {0}) × Db
  stored_wallet db address (err e) = (err e, db)
  stored_wallet db address (ok w) = stored db (set_default_wallet fl sql db address)

  unfoldable pub put_wallet : Db → Bytes → Result McpError (Unit {0}) × Db
  put_wallet db address =
      if null address
      then (ok tt, db)
      else stored_wallet db address (pick_wallet fl sql p db address)

  abbrev pub and_then :
      Result McpError (Unit {0}) × Db
      → (Db → Result McpError (Unit {0}) × Db)
      → Result McpError (Unit {0}) × Db
  and_then (ok _, db) f = f db
  and_then (err e, db) f = (err e, db)

  -- setSettings in front of its answer; what was stored before an error stays
  unfoldable pub put_settings : Db → SetSettingsIn F → Result McpError (Unit {0}) × Db
  put_settings db r =
      and_then (and_then (put_chain db r.chain) (λ db. put_slippage db r.slippage))
        (λ db. put_wallet db r.default_wallet)

  -- getSettings
  abbrev pub get_settings : Db → Result McpError (ToolOut F)
  get_settings db = load_settings fl sql p db >>= λ st. ok (settings_are st)

  abbrev pub read_back : Result McpError (Unit {0}) × Db → Result McpError (ToolOut F) × Db
  read_back (ok _, db) = (get_settings db, db)
  read_back (err e, db) = (err e, db)

  -- setSettings
  unfoldable pub set_settings : Db → SetSettingsIn F → Result McpError (ToolOut F) × Db
  set_settings db r = read_back (put_settings db r)

  abbrev with_db :
      Server Db Node F
      → Result McpError (ToolOut F) × Db
      → Result McpError (ToolOut F) × Server Db Node F
  with_db s (r, db) = (r, record s { db = db })

  abbrev traded_out : Result McpError FlowResult → Result McpError (ToolOut F)
  traded_out (ok r) = ok (traded r)
  traded_out (err e) = err e

  abbrev as_out :
      Result McpError FlowResult × Server Db Node F → Result McpError (ToolOut F) × Server Db Node F
  as_out (r, s) = (traded_out r, s)

  abbrev balances_out :
      Result McpError GetBalancesOut × Server Db Node F
      → Result McpError (ToolOut F) × Server Db Node F
  balances_out (r, s) = (r >>= λ o. ok (balances_are o), s)

  -- the handler of a registered tool
  unfoldable pub dispatch :
      Outside → Server Db Node F → ToolCall F → Result McpError (ToolOut F) × Server Db Node F
  dispatch out s (call_swap_quote r) = swap_quote out s r
  dispatch out s (call_swap_execute r) = as_out (swap_execute fl cl sql p rpc out s r)
  dispatch out s call_list_chains = (list_chains fl sql p rpc s.db >>= λ o. ok (chains_are o), s)
  dispatch out s call_get_wallets = (get_wallets fl sql p rpc s.db >>= λ o. ok (wallets_are o), s)
  dispatch out s (call_get_balances r) = balances_out (get_balances fl sql p out s r)
  dispatch out s call_get_settings = (get_settings s.db, s)
  dispatch out s (call_set_settings r) = with_db s (set_settings s.db r)

  -- a call: the library answers for a tool that is not registered
  unfoldable pub handle :
      Outside → Server Db Node F → ToolCall F → Result McpError (ToolOut F) × Server Db Node F
  handle out s c =
      if registered s.opts.allow_trading c then dispatch out s c else (err no_such_tool, s)
