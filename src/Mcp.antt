-- ===== src/Mcp.antt =====
-- internal/mcp: the tools that the server offers to an agent (tools.go) and the guards in front of
-- trading (server.go). The transport and the JSON of a call belong to the MCP library.
pub mod Trade
pub mod Readers
pub mod Tools
pub mod Gate
pub mod ReadOnly
pub mod Budget
pub mod Ledger
pub mod Startup
use lazyswap.Prelude.{
  ℕ, Bool, true, false, ◌&&◌, ◌||◌, not, Option, none, some, List, [], ◌∷◌, if◌then◌else◌, null,
}
use lazyswap.Prelude.Text.{Bytes, text_eq}
use lazyswap.Prelude.Result.{Result, ok, err, map_err, ◌>>=◌}
use lazyswap.Float.{Float64}
use lazyswap.Chain.{Config, has, get}
use lazyswap.Error.{Error}
use lazyswap.Crypto.{Primitives}
use lazyswap.Wallet.{Wallet, WalletError, database, Sql, pick, unlock, open_wallets}
use lazyswap.Settings
use lazyswap.Settings.{
  Settings, SettingsError, checked, load, set_slippage, set_chain, set_default_wallet,
}
use lazyswap.Safety.Report.{Report, Level, high}
use lazyswap.Safety.Checker.{ReportCache, should_check, check}
use lazyswap.Swap.Io.{Client, World}
use lazyswap.Swap.Token.{TokenInfo, resolve_token}
use lazyswap.Swap.Flow.{FlowQuote, FlowResult, succeeded, failed, quote, execute}

pub data McpError : Type 0 where
  max_usd_missing total_below_max password_missing usd_not_positive : McpError
  unknown_chain chain_refused : Bytes → McpError
  settings_error : SettingsError → McpError
  wallet_error : WalletError → McpError
  swap_error swap_failed : Error → McpError
  dial_error balance_error : Bytes → McpError
  over_cap over_budget risk_refused no_such_tool : McpError

pub record Options (F : Type 0) : Type 0 where
  pub allow_trading : Bool
  pub max_usd : F
  pub max_usd_total : F
  pub allowed_chains : List Bytes
  pub allow_risky : Bool

-- The state behind the handlers. `flows` holds the chains that are dialed; `cache` is the state of
-- the safety service, `world` that of the nodes with the transactions handed to them; `bals` holds the
-- chains that have a balance service.
pub record Server (Db Node F : Type 0) : Type 0 where
  pub db : Db
  pub opts : Options F
  pub pw : Bytes
  pub spent_usd : F
  pub flows : List Bytes
  pub bals : List Bytes
  pub cache : ReportCache
  pub world : World Node

-- what a balance service tells of a token, as far as a handler passes it on
pub record TokenBalance : Type 0 where
  pub symbol : Bytes
  pub name : Bytes
  pub address : Bytes
  pub balance : Bytes
  pub usd_value : Bytes

-- What a call finds outside the handlers: the token checker with the time before and after it,
-- whether the endpoint of a chain can be dialed for a flow and for a balance service, and what that
-- service answers for the chain and the address of a wallet.
pub record Outside : Type 0 where
  pub checker : Bytes → Bytes → Result Bytes Report
  pub now : ℕ
  pub later : ℕ
  pub dial_chain : Bytes → Result Bytes (Unit {0})
  pub dial_balances : Bytes → Result Bytes (Unit {0})
  pub fetch_all : (key address : Bytes) → Result Bytes (List TokenBalance)

pub record SwapIn (F : Type 0) : Type 0 where
  pub usd : F
  pub from_symbol : Bytes
  pub to_symbol : Bytes
  pub slippage : F
  pub wallet : Bytes
  pub chain : Bytes

-- the results of resolveSwap
pub record Resolved (F : Type 0) : Type 0 where
  pub key : Bytes
  pub from_token : TokenInfo
  pub to_token : TokenInfo
  pub usd : Bytes
  pub slip : F

pub record SetSettingsIn (F : Type 0) : Type 0 where
  pub chain : Bytes
  pub slippage : Option F
  pub default_wallet : Bytes

pub record SwapQuoteOut (F : Type 0) : Type 0 where
  pub flow_quote : FlowQuote F
  pub safety : Option Report

-- slices.Contains
unfoldable pub contains : List Bytes → Bytes → Bool
contains [] key = false
contains (k ∷ ks) key = if text_eq k key then true else contains ks key

unfoldable pub known_chains : List Bytes → Result McpError (Unit {0})
known_chains [] = ok tt
known_chains (k ∷ ks) = let rest = known_chains ks in if has k then rest else err (unknown_chain k)

abbrev is_high_level : Level → Bool
is_high_level high = true
is_high_level _ = false

-- rep != nil && rep.Level == safety.LevelHigh
abbrev pub is_high : Option Report → Bool
is_high none = false
is_high (some rep) = is_high_level rep.level

module _ (fl : Float64) where
  open fl use {F, of_ℕ, add, sub, lt, le}

  -- server.budget
  unfoldable pub budget : Options F → F
  budget opts = if lt (of_ℕ 0) opts.max_usd_total then opts.max_usd_total else opts.max_usd

  -- the checks of Run on its options, in front of the database
  unfoldable pub check_options : Options F → Result McpError (Unit {0})
  check_options opts =
      if opts.allow_trading && le opts.max_usd (of_ℕ 0)
      then err max_usd_missing
      else if lt (of_ℕ 0) opts.max_usd_total && lt opts.max_usd_total opts.max_usd
      then err total_below_max
      else known_chains opts.allowed_chains

  -- server.tradingChainAllowed
  unfoldable pub trading_chain_allowed : Options F → Bytes → Bool
  trading_chain_allowed opts key = null opts.allowed_chains || contains opts.allowed_chains key

  module _ {Db Node : Type 0} where
    -- server.reserve: what is left of the budget, and whether the amount fitted
    unfoldable pub reserve : Server Db Node F → F → (F × Bool) × Server Db Node F
    reserve s amount_usd =
        let left = sub (budget s.opts) s.spent_usd in
        if lt left amount_usd
        then ((left, false), s)
        else (let spent = add s.spent_usd amount_usd in
            ((sub (budget s.opts) spent, true), record s { spent_usd = spent }))

-- The parts of a handler that read the database.
module _ (fl : Float64) (sql : Sql) (p : Primitives) where
  open fl use {F, of_ℕ, lt, le, format_shortest}
  open sql use {Db, select_wallets}

  abbrev pub load_settings : Db → Result McpError (Settings F)
  load_settings db = map_err settings_error (checked fl sql (load fl sql (some db)))

  abbrev pub stored_wallets : Db → Result McpError (List Wallet)
  stored_wallets db = map_err (λ e. wallet_error (database e)) (select_wallets db)

  -- server.chainKey
  unfoldable pub chain_key : Db → (explicit : Bytes) → Result McpError Bytes
  chain_key db explicit =
      if null explicit
      then (load_settings db >>= λ st. ok st.chain_key)
      else if has explicit
      then ok explicit
      else err (unknown_chain explicit)

  -- server.slippage
  unfoldable pub slippage : Db → (explicit : F) → Result McpError F
  slippage db explicit =
      if lt (of_ℕ 0) explicit then ok explicit else (load_settings db >>= λ st. ok st.slippage)

  -- server.pickWallet
  unfoldable pub pick_wallet : Db → (explicit : Bytes) → Result McpError Wallet
  pick_wallet db explicit = do
    ws ← stored_wallets db
    st ← load_settings db
    map_err wallet_error (pick ws explicit st.default_wallet)

  -- server.unlockWallet
  unfoldable pub unlock_wallet : Db → (pw explicit : Bytes) → Result McpError Wallet
  unlock_wallet db pw explicit = do
    svc ← map_err wallet_error (unlock sql p db pw)
    sealed ← stored_wallets db
    ws ← map_err wallet_error (open_wallets p svc sealed)
    st ← load_settings db
    map_err wallet_error (pick ws explicit st.default_wallet)

  -- resolveSwap behind chainKey
  abbrev pub resolve_on :
      (key usd : Bytes)
      → (from_token to_token : Result McpError TokenInfo) → (slip : Result McpError F)
      → Result McpError (Resolved F)
  resolve_on key usd from_token to_token slip = do
    from_token ← from_token
    to_token ← to_token
    slip ← slip
    ok (record { key = key; from_token = from_token; to_token = to_token; usd = usd; slip = slip })

  abbrev pub token_on : (rpc key symbol : Bytes) → Result McpError TokenInfo
  token_on rpc key symbol = map_err swap_error (resolve_token (get rpc key) symbol)

  -- resolveSwap; `rpc` is the endpoint that the environment sets
  unfoldable pub resolve_swap : (rpc : Bytes) → Db → SwapIn F → Result McpError (Resolved F)
  resolve_swap rpc db r = if le r.usd (of_ℕ 0) then err usd_not_positive else (do
    key ← chain_key db r.chain
    resolve_on key (format_shortest r.usd) (token_on rpc key r.from_symbol)
        (token_on rpc key r.to_symbol) (slippage db r.slippage))

  -- the check of the password when Run starts
  unfoldable pub check_password : Options F → Db → (pw : Bytes) → Result McpError (Unit {0})
  check_password opts db pw =
      if opts.allow_trading
      then (if null pw
          then err password_missing
          else (map_err wallet_error (unlock sql p db pw) >>= λ _. ok tt))
      else ok tt
