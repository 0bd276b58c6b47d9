-- ===== src/Wallet.antt =====
-- internal/wallet: pick.go, unlock.go and the reading half of service.go, over the tables that
-- dao.go keeps in SQLite. The database driver is an interface; its statements are those of dao.go.
pub mod Picks
pub mod Store
use lazyswap.Prelude.{
  ℕ, ◌≡◌, Bool, true, false, Option, none, some, List, [], ◌∷◌, if◌then◌else◌, null,
}
use lazyswap.Prelude.Text.{Bytes, codes, text_eq, equal_fold}
use lazyswap.Prelude.Result.{Result, ok, err, map_err, ◌>>=◌}
use lazyswap.Crypto
use lazyswap.Crypto.{CryptoError, Primitives, hex_decode, sentinel_plain}

pub record Wallet : Type 0 where
  pub id : Bytes
  pub address : Bytes
  pub private_key : Bytes
  pub mnemonic : Bytes
  pub created_at : ℕ
  pub updated_at : ℕ

pub data WalletError : Type 0 where
  database : Bytes → WalletError
  no_wallets multiple_wallets not_initialised invalid_password bad_salt : WalletError
  no_such_wallet default_not_found : Bytes → WalletError
  crypto : CryptoError → WalletError
  decrypt_private_key decrypt_mnemonic : Bytes → CryptoError → WalletError

-- The statements of dao.go that the modelled code runs: the SELECT and the upsert on app_config,
-- and the SELECT on wallets, newest first.
pub record Sql : Type 1 where
  pub Db : Type 0
  pub select_value : Db → (key : Bytes) → Result Bytes (Option Bytes)
  pub upsert : Db → (key value : Bytes) → Result Bytes Db
  pub select_wallets : Db → Result Bytes (List Wallet)

-- What SQL says of the upsert: the row of its key holds the new value, the others are as before.
pub record IsTable (sql : Sql) : Type 0 where
  pub select_upsert :
      (db db' : sql.Db) (key value : Bytes)
      → sql.upsert db key value ≡ ok db'
      → (j : Bytes)
      → sql.select_value db' j ≡ (if text_eq key j then ok (some value) else sql.select_value db j)

-- findByAddress
unfoldable pub find_by_address : List Wallet → Bytes → Option Wallet
find_by_address [] addr = none
find_by_address (w ∷ ws) addr =
    if equal_fold w.address addr then some w else find_by_address ws addr

abbrev found_or : WalletError → Option Wallet → Result WalletError Wallet
found_or e none = err e
found_or e (some w) = ok w

abbrev only_wallet : List Wallet → Result WalletError Wallet
only_wallet (w ∷ []) = ok w
only_wallet _ = err multiple_wallets

-- Pick
unfoldable pub pick : List Wallet → (explicit_addr default_addr : Bytes) → Result WalletError Wallet
pick ws explicit_addr default_addr =
    if null ws
    then err no_wallets
    else if null explicit_addr
    then (if null default_addr
        then only_wallet ws
        else found_or (default_not_found default_addr) (find_by_address ws default_addr))
    else found_or (no_such_wallet explicit_addr) (find_by_address ws explicit_addr)

abbrev pub key_encryption_salt : Bytes
key_encryption_salt = codes "encryption_salt"

abbrev pub key_password_sentinel : Bytes
key_password_sentinel = codes "password_sentinel"

abbrev initialised : Option Bytes → Result WalletError Bytes
initialised none = err not_initialised
initialised (some v) = ok v

abbrev salt_of : Option Bytes → Result WalletError Bytes
salt_of none = err bad_salt
salt_of (some s) = ok s

-- `err != nil || pt != SentinelPlain`
abbrev sentinel_opens : Result CryptoError Bytes → Result WalletError (Unit {0})
sentinel_opens (err e) = err invalid_password
sentinel_opens (ok pt) = if text_eq pt sentinel_plain then ok tt else err invalid_password

module _ (sql : Sql) where
  open sql use {Db, select_value, select_wallets}

  abbrev config : Db → Bytes → Result WalletError (Option Bytes)
  config db key = map_err database (select_value db key)

  -- Unlock
  unfoldable pub unlock : Primitives → Db → (password : Bytes) → Result WalletError Crypto.Service
  unlock p db password = do
    salt_hex ← config db key_encryption_salt >>= initialised
    salt ← salt_of (hex_decode salt_hex)
    key ← map_err crypto (Crypto.derive_key p password salt)
    svc ← map_err crypto (Crypto.new key)
    sentinel ← config db key_password_sentinel >>= initialised
    _ ← sentinel_opens (Crypto.decrypt p svc sentinel)
    ok svc

-- the plaintext of an optional field
unfoldable pub open_mnemonic : Primitives → Crypto.Service → Wallet → Result WalletError Bytes
open_mnemonic p svc w =
    if null w.mnemonic
    then ok []
    else map_err (decrypt_mnemonic w.address) (Crypto.decrypt p svc w.mnemonic)

-- the loop of Service.FetchAll
unfoldable pub open_wallets :
    Primitives → Crypto.Service → List Wallet → Result WalletError (List Wallet)
open_wallets p svc [] = ok []
open_wallets p svc (w ∷ ws) = do
  priv ← map_err (decrypt_private_key w.address) (Crypto.decrypt p svc w.private_key)
  words ← open_mnemonic p svc w
  rest ← open_wallets p svc ws
  ok (
      record {
        id = w.id;
        address = w.address;
        private_key = priv;
        mnemonic = words;
        created_at = w.created_at;
        updated_at = w.updated_at;
      }
      ∷ rest)
