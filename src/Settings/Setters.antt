-- ===== src/Settings/Setters.antt =====
-- What is set is loaded, and nothing else changes.
use lazyswap.Prelude.{◌≡◌, refl, ◌∙◌, ap, Bool, true, false, some, if◌then◌else◌}
use lazyswap.Prelude.Text.{Bytes, text_eq}
use lazyswap.Prelude.Result.{Result, ok, err, map_err}
use lazyswap.Float.{Float64, HasShortest}
use lazyswap.Chain.{has}
use lazyswap.Wallet.{Sql, IsTable}
use lazyswap.Settings.{
  SettingsError, bad_slippage, bad_chain, database, key_slippage, key_chain, key_default_wallet,
  Settings, in_range, load, store, set_slippage, set_chain, set_default_wallet,
}
use lazyswap.Settings.Loading.{
  assemble-slippage, assemble-chain, assemble-default_wallet, load_of_Rows, Rows-of_load,
}

module _ (fl : Float64) (sql : Sql) (table : IsTable sql) where
  open fl use {F}
  open sql use {Db, select_value, upsert}

  stored :
      (db db' : Db) (key value : Bytes)
      → store fl sql db key value ≡ ok db'
      → (j : Bytes)
      → select_value db' j ≡ (if text_eq key j then ok (some value) else select_value db j)
  stored db db' key value h = table.select_upsert db db' key value (upserted _ h)
    where
      upserted : (r : Result Bytes Db) → map_err database r ≡ ok db' → r ≡ ok db'
      upserted (ok x) k = cc
      upserted (err x) k = cc

  -- After a successful SetSlippage of a number between 0 and 100, Load returns without an error the
  -- settings it so returned before with the new slippage, if a printed float parses back to itself.
  pub load-set_slippage :
      (db db' : Db) (s : Settings F) (v : F)
      → HasShortest fl
      → in_range fl v ≡ true
      → load fl sql (some db) ≡ (s, ok tt)
      → set_slippage fl sql db v ≡ ok db'
      → load fl sql (some db') ≡ (record s { slippage = v }, ok tt)
  unfolding set_slippage text_eq
  load-set_slippage db db' s v shortest fits before set =
      let (a, b, c, rows, same) = Rows-of_load fl sql db s before in
      let now = stored db db' key_slippage (fl.format_shortest v) (written _ set) in
      load_of_Rows fl sql db' (some (fl.format_shortest v)) b c (record {
        slippage_row = now key_slippage;
        chain_row = now key_chain ∙ rows.chain_row;
        wallet_row = now key_default_wallet ∙ rows.wallet_row;
      })
      ∙ ap (λ (t : Settings F). (t, ok tt))
          (assemble-slippage fl a b c v shortest fits
            ∙ ap (λ (t : Settings F). record t { slippage = v }) same)
    where
      written :
          (refused : Bool) {r : Result SettingsError Db}
          → (if refused then err bad_slippage else r) ≡ ok db'
          → r ≡ ok db'
      written true k = cc
      written false k = k

  -- After a successful SetChain, Load returns without an error the settings it so returned before with the new chain;
  -- and SetChain succeeds only for a chain of the registry.
  pub load-set_chain :
      (db db' : Db) (s : Settings F) (key : Bytes)
      → load fl sql (some db) ≡ (s, ok tt)
      → set_chain fl sql db key ≡ ok db'
      → (has key ≡ true) × (load fl sql (some db') ≡ (record s { chain_key = key }, ok tt))
  unfolding set_chain text_eq
  load-set_chain db db' s key before set =
      let (known, written) = allowed (has key) set in
      let (a, b, c, rows, same) = Rows-of_load fl sql db s before in
      let now = stored db db' key_chain key written in
      (
        known,
        load_of_Rows fl sql db' a (some key) c (record {
          slippage_row = now key_slippage ∙ rows.slippage_row;
          chain_row = now key_chain;
          wallet_row = now key_default_wallet ∙ rows.wallet_row;
        })
            ∙ ap (λ (t : Settings F). (t, ok tt))
                (assemble-chain fl a b c key known
                  ∙ ap (λ (t : Settings F). record t { chain_key = key }) same),
      )
    where
      allowed :
          (known : Bool) {r : Result SettingsError Db}
          → (if known then r else err bad_chain) ≡ ok db'
          → (known ≡ true) × (r ≡ ok db')
      allowed true k = (refl, k)
      allowed false k = cc

  -- After a successful SetDefaultWallet, Load returns without an error the settings it so returned before with the new
  -- default wallet.
  pub load-set_default_wallet :
      (db db' : Db) (s : Settings F) (address : Bytes)
      → load fl sql (some db) ≡ (s, ok tt)
      → set_default_wallet fl sql db address ≡ ok db'
      → load fl sql (some db') ≡ (record s { default_wallet = address }, ok tt)
  unfolding set_default_wallet text_eq
  load-set_default_wallet db db' s address before set =
      let (a, b, c, rows, same) = Rows-of_load fl sql db s before in
      let now = stored db db' key_default_wallet address set in
      load_of_Rows fl sql db' a b (some address) (record {
        slippage_row = now key_slippage ∙ rows.slippage_row;
        chain_row = now key_chain ∙ rows.chain_row;
        wallet_row = now key_default_wallet;
      })
      ∙ ap (λ (t : Settings F). (t, ok tt))
          (assemble-default_wallet fl a b c address
            ∙ ap (λ (t : Settings F). record t { default_wallet = address }) same)
