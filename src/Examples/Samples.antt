-- ===== src/Examples/Samples.antt =====
-- Instances of the interfaces that are small enough to compute with: floats that are whole numbers,
-- a node that answers every call, a database of two lists, and a cipher that hides nothing.
use lazyswap.Prelude.{
  ℕ, ◌+◌, ◌-◌, ◌*◌, ◌/◌, ◌≡◌, refl, subst, Option, none, some, List, [], ◌∷◌, if◌then◌else◌, map,
  null, length, drop, replicate, ltb, leb, ◌==◌, arith, Bool-cases, inl, inr,
}
use lazyswap.Prelude.Int.{ℤ, pos, negsuc}
use lazyswap.Prelude.Text.{Bytes, codes, text_eq}
use lazyswap.Prelude.Result.{Result, ok, err}
use lazyswap.Float.{Float64, HasShortest, HasWholeNumbers}
use lazyswap.Balance.{UnitsError, parse_units, format_units}
use lazyswap.Balance.RoundTrip.{parse_units-format_units}
use lazyswap.Chain.{lookup}
use lazyswap.Crypto.{Primitives, Service, encrypt, sentinel_plain, key_length}
use lazyswap.Crypto.RoundTrip.{IsAead}
use lazyswap.Wallet.{Wallet, Sql, IsTable, key_encryption_salt, key_password_sentinel}
use lazyswap.Swap.Io.{Call, get_amounts_out, allowance, Returned, amounts, number, Client, World}

abbrev natural_of : Result UnitsError ℤ → Option ℕ
natural_of (ok (pos n)) = some n
natural_of _ = none

abbrev whole_part : ℤ → ℕ
whole_part (pos n) = n
whole_part (negsuc n) = 0

abbrev pub whole_floats : Float64
whole_floats = record {
  F = ℕ;
  of_ℕ = λ n. n;
  of_ℤ = whole_part;
  half = 0;
  add = λ a b. a + b;
  sub = λ a b. a - b;
  mul = λ a b. a * b;
  div = λ a b. a / b;
  lt = ltb;
  le = leb;
  floor = λ n. n;
  to_int = pos;
  parse = λ s. natural_of (parse_units s 0);
  format_fixed = λ n prec. format_units (some (pos n)) 0;
  format_shortest = λ n. format_units (some (pos n)) 0;
}

pub whole_floats-HasShortest : HasShortest whole_floats
whole_floats-HasShortest = record { round_trip = λ n. rw (parse_units-format_units n 0) }

pub whole_floats-HasWholeNumbers : HasWholeNumbers whole_floats
whole_floats-HasWholeNumbers = record {
  add_whole = λ m n h. refl;
  sub_whole = λ m n h g. refl;
  lt_whole = λ m n h g. refl;
  le_whole = λ m n h g. refl;
}

abbrev answer : Call → List Returned
answer (get_amounts_out router amount path) = amounts (map (λ _. some amount) path) ∷ []
answer (allowance token owner spender) = number (some (pos 0)) ∷ []

-- The node counts the transactions that it is given.
abbrev pub node_client : Client
node_client = record {
  Node = ℕ;
  hex_to_address = length;
  is_hex_address = λ s. leb 40 (length s);
  hex_to_ecdsa = λ s. if null s then err (codes "no key") else ok 7;
  pubkey_to_address = λ key. key + 1;
  new_transactor = λ key chain_id. ok tt;
  pending_nonce = λ chain_id account n. (ok n, n);
  suggest_gas_price = λ chain_id n. (ok (pos 5), n);
  estimate_gas = λ chain_id from to value payload n. (ok 50000, n);
  sign_tx = λ tx. ok tt;
  contract_call = λ chain_id q n. (ok (answer q), n);
  transact = λ tx n. (ok n, n + 1);
  wait_mined = λ tx n. (ok (record { tx_hash = codes "0x1"; gas_used = 21000 }), n);
  now = λ n. 1000;
}

abbrev pub idle_world : World ℕ
idle_world = record { node = 0; sent = [] }

abbrev pub Tables : Type 0
Tables = List (Bytes × Bytes) × List Wallet

abbrev pub list_sql : Sql
list_sql = record {
  Db = Tables;
  select_value = λ db key. ok (lookup key db.0);
  upsert = λ db key value. ok ((key, value) ∷ db.0, db.1);
  select_wallets = λ db. ok db.1;
}

pub list_sql-IsTable : IsTable list_sql
unfolding lookup
list_sql-IsTable = record { select_upsert = λ db db' key value h j. selected db db' key value h j }
  where
    stored : {d e : Tables} → ◌≡◌ {A = Result Bytes Tables} (ok d) (ok e) → d ≡ e
    stored h = cc

    selected :
        (db db' : Tables) (key value : Bytes)
        → ◌≡◌ {A = Result Bytes Tables} (ok ((key, value) ∷ db.0, db.1)) (ok db')
        → (j : Bytes)
        → ◌≡◌ {A = Result Bytes (Option Bytes)}
            (ok (lookup j db'.0))
            (if text_eq key j then ok (some value) else ok (lookup j db.0))
    selected db db' key value h j =
        subst
          (λ (d : Tables).
            ◌≡◌ {A = Result Bytes (Option Bytes)} (ok (lookup j d.0))
              (if text_eq key j then ok (some value) else ok (lookup j db.0)))
          (stored h) (elim (Bool-cases (text_eq key j)) [ inl e ↦ rw e | inr e ↦ rw e ])

abbrev pub open_cipher : Primitives
open_cipher = record {
  accepts_key = λ key. length key == key_length;
  seal = λ key nonce text. 0 ∷ 0 ∷ 0 ∷ 0 ∷ 0 ∷ 0 ∷ 0 ∷ 0 ∷ 0 ∷ 0 ∷ 0 ∷ 0 ∷ 0 ∷ 0 ∷ 0 ∷ 0 ∷ text;
  open_sealed = λ key nonce sealed. some (drop 16 sealed);
  pbkdf2 = λ password salt. if null password then none else some (replicate 32 1);
}

pub open_cipher-IsAead : IsAead open_cipher
open_cipher-IsAead = record {
  accepts = λ key h. ground arith;
  tagged = λ key nonce text. omega arith;
  sealed_bytes = λ key nonce text h. h;
  opens = λ key nonce text. refl;
}

abbrev pub sample_service : Service
sample_service = record { key = replicate 32 1 }

abbrev pub sample_iv : Bytes
sample_iv = replicate 16 9

abbrev sealed_text : {E : Type 0} → Result E Bytes → Bytes
sealed_text (ok s) = s
sealed_text (err e) = []

abbrev pub sealed : Bytes → Bytes
sealed text = sealed_text (encrypt open_cipher sample_service (some sample_iv) text)

abbrev pub sample_wallet : Wallet
sample_wallet = record {
  id = codes "w1";
  address = codes "0xAb5801a7D398351b8bE11C439e05C5B3259aeC9B";
  private_key = sealed (codes "01");
  mnemonic = [];
  created_at = 0;
  updated_at = 0;
}

abbrev pub sample_db : Tables
sample_db = (
  (key_encryption_salt, codes "00ff") ∷ (key_password_sentinel, sealed sentinel_plain) ∷ [],
  sample_wallet ∷ [],
)
