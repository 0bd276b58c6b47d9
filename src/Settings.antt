-- ===== src/Settings.antt =====
-- internal/settings/settings.go: the user's preferences in the app_config table.
pub mod Loading
pub mod Setters
use lazyswap.Prelude.{Bool, true, false, ◌&&◌, ◌||◌, Option, none, some, [], if◌then◌else◌}
use lazyswap.Prelude.Text.{Bytes, codes}
use lazyswap.Prelude.Result.{Result, ok, err, map_err, ◌>>=◌}
use lazyswap.Float.{Float64}
use lazyswap.Chain.{default_key, has}
use lazyswap.Wallet.{Sql}

pub data SettingsError : Type 0 where
  bad_slippage bad_chain : SettingsError
  database : Bytes → SettingsError

abbrev pub key_slippage : Bytes
key_slippage = codes "setting_slippage"

abbrev pub key_chain : Bytes
key_chain = codes "setting_chain"

abbrev pub key_default_wallet : Bytes
key_default_wallet = codes "setting_default_wallet"

pub record Settings (F : Type 0) : Type 0 where
  pub slippage : F
  pub chain_key : Bytes
  pub default_wallet : Bytes

module _ (fl : Float64) where
  open fl use {F, of_ℕ, half, lt, le, parse}

  -- Defaults; DefaultSlippage is 0.5
  abbrev pub defaults : Settings F
  defaults = record { slippage = half; chain_key = default_key; default_wallet = [] }

  -- f >= 0 && f <= 100
  abbrev pub in_range : F → Bool
  in_range f = le (of_ℕ 0) f && le f (of_ℕ 100)

  abbrev pub apply_parsed : Option F → Settings F → Settings F
  apply_parsed none s = s
  apply_parsed (some f) s = if in_range f then record s { slippage = f } else s

  -- loadSlippage after the read of its row
  unfoldable pub apply_slippage : Option Bytes → Settings F → Settings F
  apply_slippage none s = s
  apply_slippage (some v) s = apply_parsed (parse v) s

  -- loadChain after the read of its row
  unfoldable pub apply_chain : Option Bytes → Settings F → Settings F
  apply_chain none s = s
  apply_chain (some v) s = if has v then record s { chain_key = v } else s

  -- loadDefaultWallet after the read of its row
  unfoldable pub apply_default_wallet : Option Bytes → Settings F → Settings F
  apply_default_wallet none s = s
  apply_default_wallet (some v) s = record s { default_wallet = v }

module _ (fl : Float64) (sql : Sql) where
  open fl use {F, of_ℕ, lt, format_shortest}
  open sql use {Db, select_value, upsert}

  abbrev pub row : Db → Bytes → Result SettingsError (Option Bytes)
  row db key = map_err database (select_value db key)

  -- settings beside what Load returns as its error
  abbrev pub Loaded : Type 0
  Loaded = Settings F × Result SettingsError (Unit {0})

  -- one of loadSlippage, loadChain and loadDefaultWallet: an error keeps the settings so far
  abbrev pub after_row :
      Result SettingsError (Option Bytes)
      → (Option Bytes → Settings F → Settings F)
      → Loaded
      → Loaded
  after_row r apply (s, err e) = (s, err e)
  after_row (err e) apply (s, ok _) = (s, err e)
  after_row (ok v) apply (s, ok _) = (apply v s, ok tt)

  -- Load; `none` is a nil dao
  unfoldable pub load : Option Db → Loaded
  load none = (defaults fl, ok tt)
  load (some db) = after_row (row db key_default_wallet) (apply_default_wallet fl) (
      after_row (row db key_chain) (apply_chain fl)
        (after_row (row db key_slippage) (apply_slippage fl) (defaults fl, ok tt)))

  -- the settings for a caller that returns where there is an error
  abbrev pub checked : Loaded → Result SettingsError (Settings F)
  checked (s, ok _) = ok s
  checked (s, err e) = err e

  abbrev pub store : Db → Bytes → Bytes → Result SettingsError Db
  store db key value = map_err database (upsert db key value)

  -- SetSlippage
  unfoldable pub set_slippage : Db → F → Result SettingsError Db
  set_slippage db v =
      if lt v (of_ℕ 0) || lt (of_ℕ 100) v
      then err bad_slippage
      else store db key_slippage (format_shortest v)

  -- SetChain
  unfoldable pub set_chain : Db → Bytes → Result SettingsError Db
  set_chain db key = if has key then store db key_chain key else err bad_chain

  -- SetDefaultWallet
  unfoldable pub set_default_wallet : Db → Bytes → Result SettingsError Db
  set_default_wallet db address = store db key_default_wallet address
