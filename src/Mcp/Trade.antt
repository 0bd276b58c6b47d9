-- ===== src/Mcp/Trade.antt =====
-- internal/mcp: swapExecute of tools.go with flow of server.go. The steps of the handler follow each
-- other in the order of the source, one function for what comes after each of them; each returns
-- its result or its error with the state it leaves.
use lazyswap.Prelude.{Bool, true, false, ◌&&◌, not, Option, none, some, ◌∷◌, if◌then◌else◌}
use lazyswap.Prelude.Text.{Bytes}
use lazyswap.Prelude.Result.{Result, ok, err}
use lazyswap.Float.{Float64}
use lazyswap.Chain.{Config, get}
use lazyswap.Crypto.{Primitives}
use lazyswap.Wallet.{Wallet, Sql}
use lazyswap.Safety.Report.{Report}
use lazyswap.Safety.Checker.{ReportCache, should_check, check}
use lazyswap.Swap.Io.{Client, World}
use lazyswap.Swap.Token.{TokenInfo}
use lazyswap.Swap.Flow.{FlowResult, failed, execute}
use lazyswap.Mcp.{
  McpError, chain_refused, swap_failed, dial_error, over_cap, over_budget, risk_refused, Server,
  Outside, SwapIn, Resolved, contains, is_high, trading_chain_allowed, reserve, unlock_wallet,
  resolve_swap,
}

module _ {Db Node F : Type 0} where
  abbrev pub dialed :
      Server Db Node F
      → Bytes
      → Result Bytes (Unit {0})
      → Result McpError (Unit {0}) × Server Db Node F
  dialed s key (ok _) = (ok tt, record s { flows = key ∷ s.flows })
  dialed s key (err e) = (err (dial_error e), s)

  -- server.flow: a chain is dialed once
  unfoldable pub flow :
      Outside → Server Db Node F → Bytes → Result McpError (Unit {0}) × Server Db Node F
  flow out s key = if contains s.flows key then (ok tt, s) else dialed s key (out.dial_chain key)

  abbrev pub assessed : Server Db Node F → Report × ReportCache → Option Report × Server Db Node F
  assessed s (rep, cache) = (some rep, record s { cache = cache })

  -- server.riskReport; the configuration is that of `key`
  unfoldable pub risk_report :
      Outside
      → Config
      → Server Db Node F
      → (key : Bytes) → TokenInfo
      → Option Report × Server Db Node F
  risk_report out c s key to_token =
      if should_check c to_token
      then assessed s (check out.checker out.now out.later s.cache key to_token.address)
      else (none, s)

  -- what swapExecute makes of the result of the flow
  abbrev pub finish :
      Server Db Node F → FlowResult × World Node → Result McpError FlowResult × Server Db Node F
  finish s (failed from_symbol to_symbol usd e, w) = (err (swap_failed e), record s { world = w })
  finish s (res, w) = (ok res, record s { world = w })

module _ (fl : Float64) (cl : Client) (sql : Sql) (p : Primitives) (rpc : Bytes) where
  open fl use {F, of_ℕ, lt, le}
  open cl use {Node}
  open sql use {Db}

  -- flow.Execute with the key of the wallet
  unfoldable pub trade :
      Resolved F
      → Wallet
      → Result McpError (Unit {0}) × Server Db Node F
      → Result McpError FlowResult × Server Db Node F
  trade q w (err e, s) = (err e, s)
  trade q w (ok _, s) =
      finish s
        (execute fl cl (get rpc q.key) w.private_key q.from_token q.to_token q.usd q.slip s.world)

  unfoldable pub sign :
      Outside
      → Resolved F
      → Server Db Node F
      → Result McpError Wallet
      → Result McpError FlowResult × Server Db Node F
  sign out q s (err e) = (err e, s)
  sign out q s (ok w) = trade q w (flow out s q.key)

  unfoldable pub after_risk :
      Outside
      → SwapIn F
      → Resolved F
      → Option Report × Server Db Node F
      → Result McpError FlowResult × Server Db Node F
  after_risk out r q (rep, s) =
      if is_high rep && not s.opts.allow_risky
      then (err risk_refused, s)
      else sign out q s (unlock_wallet fl sql p s.db s.pw r.wallet)

  unfoldable pub after_budget :
      Outside
      → SwapIn F
      → Resolved F
      → (F × Bool) × Server Db Node F
      → Result McpError FlowResult × Server Db Node F
  after_budget out r q ((remaining, false), s) = (err over_budget, s)
  after_budget out r q ((remaining, true), s) =
      if trading_chain_allowed fl s.opts q.key
      then after_risk out r q (risk_report out (get rpc q.key) s q.key q.to_token)
      else (err (chain_refused q.key), s)

  unfoldable pub after_resolve :
      Outside
      → Server Db Node F
      → SwapIn F
      → Result McpError (Resolved F)
      → Result McpError FlowResult × Server Db Node F
  after_resolve out s r (err e) = (err e, s)
  after_resolve out s r (ok q) =
      if lt s.opts.max_usd r.usd
      then (err over_cap, s)
      else after_budget out r q (reserve fl s r.usd)

  -- swapExecute
  unfoldable pub swap_execute :
      Outside → Server Db Node F → SwapIn F → Result McpError FlowResult × Server Db Node F
  swap_execute out s r = after_resolve out s r (resolve_swap fl sql p rpc s.db r)
