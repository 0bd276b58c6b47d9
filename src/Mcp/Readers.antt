-- ===== src/Mcp/Readers.antt =====
-- internal/mcp/tools.go: listChains, getWallets and getBalances, and balances of server.go. The balance
-- service is what `Outside` answers for it.
use lazyswap.Prelude.{Bool, List, [], false, if◌then◌else◌, map, suc, zero, ◌&&◌, ◌==◌, ◌∷◌, ℕ}
use lazyswap.Prelude.Result.{Result, err, ok, ◌>>=◌}
use lazyswap.Prelude.Text.{Bytes, equal_fold, text_eq}
use lazyswap.Chain.{get, ordered_keys}
use lazyswap.Crypto.{Primitives, cons_head}
use lazyswap.Float.{Float64}
use lazyswap.Mcp.{
  McpError, Outside, Server, TokenBalance, balance_error, chain_key, contains, dial_error,
  load_settings, pick_wallet, stored_wallets,
}
use lazyswap.Swap.Token.{available_symbols}
use lazyswap.Wallet.{Sql, Wallet}

pub record ChainOut : Type 0 where
  pub key : Bytes
  pub name : Bytes
  pub chain_id : ℕ
  pub native_symbol : Bytes
  pub tokens : List Bytes
  pub is_default : Bool

pub record WalletOut : Type 0 where
  pub address : Bytes
  pub is_default : Bool

pub record GetBalancesIn : Type 0 where
  pub wallet : Bytes
  pub chain : Bytes

pub record GetBalancesOut : Type 0 where
  pub chain : Bytes
  pub wallet : Bytes
  pub balances : List TokenBalance

abbrev starts_blank : Bytes → Bool
starts_blank [] = false
starts_blank (c ∷ s) = c == b' '

-- strings.Split(s, ", "), behind `k` bytes of a separator
unfoldable pub split_list : (k : ℕ) → Bytes → List Bytes
split_list k [] = [] ∷ []
split_list (suc k) (c ∷ s) = split_list k s
split_list zero (c ∷ s) =
    let cut = c == b',' && starts_blank s in
    let rest = split_list (if cut then 1 else 0) s in if cut then [] ∷ rest else cons_head c rest

-- one round of the loop of listChains
unfoldable pub chain_out : (rpc : Bytes) → (default_key key : Bytes) → ChainOut
unfolding split_list
chain_out rpc default_key key =
    let c = get rpc key in
    record {
      key = key;
      name = c.name;
      chain_id = c.chain_id;
      native_symbol = c.native_symbol;
      tokens = split_list 0 (available_symbols c);
      is_default = text_eq key default_key;
    }

-- one round of the loop of getWallets
unfoldable pub wallet_out : (default_wallet : Bytes) → Wallet → WalletOut
wallet_out default_wallet w = record {
  address = w.address;
  is_default = equal_fold w.address default_wallet;
}

module _ (fl : Float64) (sql : Sql) (p : Primitives) (rpc : Bytes) where
  open fl use {F}
  open sql use {Db}

  -- listChains
  unfoldable pub list_chains : Db → Result McpError (List ChainOut)
  unfolding chain_out
  list_chains db = do
    st ← load_settings fl sql p db
    ok (map (chain_out rpc st.chain_key) ordered_keys)

  -- getWallets
  unfoldable pub get_wallets : Db → Result McpError (List WalletOut)
  unfolding wallet_out
  get_wallets db = do
    ws ← stored_wallets fl sql p db
    st ← load_settings fl sql p db
    ok (map (wallet_out st.default_wallet) ws)

abbrev pub fetched :
    Bytes → Wallet → Result Bytes (List TokenBalance) → Result McpError GetBalancesOut
fetched key w (err e) = err (balance_error e)
fetched key w (ok bs) = ok (record { chain = key; wallet = w.address; balances = bs })

module _ {Db Node F : Type 0} where
  abbrev pub connected :
      Server Db Node F
      → Bytes
      → Result Bytes (Unit {0})
      → Result McpError (Unit {0}) × Server Db Node F
  connected s key (ok _) = (ok tt, record s { bals = key ∷ s.bals })
  connected s key (err e) = (err (dial_error e), s)

  -- server.balances: the service of a chain is made once
  unfoldable pub balances :
      Outside → Server Db Node F → Bytes → Result McpError (Unit {0}) × Server Db Node F
  balances out s key =
      if contains s.bals key then (ok tt, s) else connected s key (out.dial_balances key)

  abbrev pub fetch_with :
      Outside
      → Bytes
      → Wallet
      → Result McpError (Unit {0}) × Server Db Node F
      → Result McpError GetBalancesOut × Server Db Node F
  fetch_with out key w (err e, s) = (err e, s)
  fetch_with out key w (ok _, s) = (fetched key w (out.fetch_all key w.address), s)

  abbrev pub balances_for :
      Outside
      → Server Db Node F
      → Result McpError (Bytes × Wallet)
      → Result McpError GetBalancesOut × Server Db Node F
  balances_for out s (err e) = (err e, s)
  balances_for out s (ok (key, w)) = fetch_with out key w (balances out s key)

module _ (fl : Float64) (sql : Sql) (p : Primitives) where
  open fl use {F}
  open sql use {Db}

  -- the two steps of getBalances that only read the database
  abbrev pub balance_inputs : Db → GetBalancesIn → Result McpError (Bytes × Wallet)
  balance_inputs db r = do
    key ← chain_key fl sql p db r.chain
    w ← pick_wallet fl sql p db r.wallet
    ok (key, w)

  -- getBalances
  unfoldable pub get_balances :
      {Node : Type 0}
      → Outside
      → Server Db Node F
      → GetBalancesIn
      → Result McpError GetBalancesOut × Server Db Node F
  unfolding balances
  get_balances out s r = balances_for out s (balance_inputs s.db r)
