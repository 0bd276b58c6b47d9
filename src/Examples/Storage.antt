-- ===== src/Examples/Storage.antt =====
-- internal/crypto, internal/wallet and internal/settings at concrete inputs.
use lazyswap.Prelude.{ℕ, some, ◌≡◌, refl, true, List, [], ◌∷◌, ◌≢◌}
use mathlib.Core.List.{Memᴰ}
use lazyswap.Prelude.Text.{Bytes, to_lower, codes, text_eq, equal_fold}
use lazyswap.Prelude.Result.{ok, ◌>>=◌}
use lazyswap.Balance.{format_units}
use lazyswap.Chain.{lookup, has}
use lazyswap.Crypto.{
  new, derive_key, hex_value, split_colon, encrypt, decrypt, hex_encode, hex_decode,
}
use lazyswap.Crypto.RoundTrip.{hex_decode-hex_encode, decrypt-encrypt}
use lazyswap.Wallet.{open_mnemonic, Wallet, pick, find_by_address, open_wallets, unlock}
use lazyswap.Wallet.Picks.{IsChoice, pick-IsChoice, pick-explicit}
use lazyswap.Wallet.Store.{OpensAll, open_wallets-Opens}
use lazyswap.Settings.{
  apply_default_wallet, apply_chain, apply_slippage, Settings, key_chain, key_default_wallet,
  key_slippage, defaults, load, set_slippage, set_chain, set_default_wallet,
}
use lazyswap.Settings.Loading.{IsValid, load-IsValid}
use lazyswap.Settings.Setters.{load-set_slippage, load-set_chain, load-set_default_wallet}
use lazyswap.Examples.Samples.{
  whole_floats, whole_floats-HasShortest, list_sql, list_sql-IsTable, open_cipher,
  open_cipher-IsAead, sample_service, sample_iv, sample_wallet, sample_db,
}

abbrev loaded : Settings ℕ
loaded = (load whole_floats list_sql (some sample_db)).0

decrypt-encrypt_example :
    (encrypt open_cipher sample_service (some sample_iv) (codes "secret")
      >>= decrypt open_cipher sample_service)
    ≡ ok (codes "secret")
decrypt-encrypt_example =
    decrypt-encrypt open_cipher open_cipher-IsAead sample_service sample_iv (codes "secret") refl
      refl refl refl

hex_decode-hex_encode_example : hex_decode (hex_encode (0 ∷ 255 ∷ [])) ≡ some (0 ∷ 255 ∷ [])
hex_decode-hex_encode_example = hex_decode-hex_encode (0 ∷ 255 ∷ []) refl

abbrev lower_address : Bytes
lower_address = codes "0xab5801a7d398351b8be11c439e05c5b3259aec9b"

abbrev other_wallet : Wallet
other_wallet = record sample_wallet { address = codes "0x00" }

abbrev two_wallets : List Wallet
two_wallets = other_wallet ∷ sample_wallet ∷ []

picked : pick two_wallets [] lower_address ≡ ok sample_wallet
unfolding pick find_by_address equal_fold text_eq to_lower
picked = refl

pick-IsChoice_example :
    Memᴰ sample_wallet two_wallets × IsChoice two_wallets [] lower_address sample_wallet
pick-IsChoice_example = pick-IsChoice two_wallets [] lower_address sample_wallet picked

same_address : equal_fold sample_wallet.address lower_address ≡ true
unfolding equal_fold text_eq to_lower
same_address = refl

lower_address_given : lower_address ≢ []
lower_address_given h = cc

pick-explicit_example :
    (v : Wallet) × (pick two_wallets lower_address [] ≡ ok v)
    × Memᴰ v two_wallets
    × (equal_fold v.address lower_address ≡ true)
pick-explicit_example =
    pick-explicit two_wallets lower_address [] sample_wallet lower_address_given
      (Memᴰ.tail (Memᴰ.head refl)) same_address

abbrev opened_wallet : Wallet
opened_wallet = record sample_wallet { private_key = codes "01" }

wallets_open :
    open_wallets open_cipher sample_service (sample_wallet ∷ []) ≡ ok (opened_wallet ∷ [])
unfolding open_wallets open_mnemonic decrypt hex_decode split_colon encrypt hex_encode hex_value
wallets_open = refl

unlocks : unlock list_sql open_cipher sample_db (codes "pw") ≡ ok sample_service
unfolding unlock decrypt hex_decode split_colon encrypt hex_encode hex_value text_eq lookup
    derive_key new
unlocks = refl

open_wallets-Opens_example :
    OpensAll open_cipher sample_service (sample_wallet ∷ []) (opened_wallet ∷ [])
open_wallets-Opens_example =
    open_wallets-Opens open_cipher sample_service (sample_wallet ∷ []) (opened_wallet ∷ [])
      wallets_open

loaded_defaults : load whole_floats list_sql (some sample_db) ≡ (defaults whole_floats, ok tt)
unfolding load lookup text_eq apply_slippage apply_chain apply_default_wallet
loaded_defaults = refl

load-IsValid_example : IsValid whole_floats (load whole_floats list_sql (some sample_db)).0
load-IsValid_example = load-IsValid whole_floats list_sql (some sample_db) refl

slippage_set :
    set_slippage whole_floats list_sql sample_db 3
    ≡ ok ((key_slippage, codes "3") ∷ sample_db.0, sample_db.1)
unfolding set_slippage format_units
slippage_set = refl

load-set_slippage_example :
    load whole_floats list_sql (some ((key_slippage, codes "3") ∷ sample_db.0, sample_db.1))
    ≡ (record (defaults whole_floats) { slippage = 3 }, ok tt)
load-set_slippage_example =
    load-set_slippage whole_floats list_sql list_sql-IsTable sample_db
      ((key_slippage, codes "3") ∷ sample_db.0, sample_db.1) (defaults whole_floats) 3
      whole_floats-HasShortest refl loaded_defaults slippage_set

chain_set :
    set_chain whole_floats list_sql sample_db (codes "sepolia")
    ≡ ok ((key_chain, codes "sepolia") ∷ sample_db.0, sample_db.1)
unfolding set_chain has
chain_set = refl

load-set_chain_example :
    (has (codes "sepolia") ≡ true)
    × (load whole_floats list_sql (some ((key_chain, codes "sepolia") ∷ sample_db.0, sample_db.1))
        ≡ (record (defaults whole_floats) { chain_key = codes "sepolia" }, ok tt))
load-set_chain_example =
    load-set_chain whole_floats list_sql list_sql-IsTable sample_db
      ((key_chain, codes "sepolia") ∷ sample_db.0, sample_db.1) (defaults whole_floats)
      (codes "sepolia") loaded_defaults chain_set

wallet_set :
    set_default_wallet whole_floats list_sql sample_db lower_address
    ≡ ok ((key_default_wallet, lower_address) ∷ sample_db.0, sample_db.1)
unfolding set_default_wallet
wallet_set = refl

load-set_default_wallet_example :
    load whole_floats list_sql
      (some ((key_default_wallet, lower_address) ∷ sample_db.0, sample_db.1))
    ≡ (record (defaults whole_floats) { default_wallet = lower_address }, ok tt)
load-set_default_wallet_example =
    load-set_default_wallet whole_floats list_sql list_sql-IsTable sample_db
      ((key_default_wallet, lower_address) ∷ sample_db.0, sample_db.1) (defaults whole_floats)
      lower_address loaded_defaults wallet_set
