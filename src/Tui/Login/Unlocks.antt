-- ===== src/Tui/Login/Unlocks.antt =====
-- A password that the screen created opens the wallet store.
use lazyswap.Prelude.{Option, all, ap, arith, length, refl, some, subst, sym, true, ◌∙◌, ◌≡◌}
use lazyswap.Prelude.Result.{Result, err, map_err, ok, returned, ◌>>=◌}
use lazyswap.Prelude.Text.{Bytes, text_eq}
use lazyswap.Crypto
use lazyswap.Crypto.{
  CryptoError, Primitives, hex_decode, hex_encode, iv_length, key_length, sentinel_plain,
}
use lazyswap.Crypto.RoundTrip.{IsAead, decrypt-encrypt, hex_decode-hex_encode, is_byte}
use lazyswap.Wallet.{IsTable, Sql, WalletError, key_encryption_salt, key_password_sentinel, unlock}
use lazyswap.Tui.Login.{
  derive_and_init_cmd, derive_and_verify_cmd, derive_fresh_key, explained,
  is_encryption_initialised, prepare, store_prepared, store_sentinel, stored,
}

module _ (p : Primitives) (salt iv password : Bytes) where
  -- What was computed before the writes.
  record Prepared (svc : Crypto.Service) (used sentinel : Bytes) : Type 0 where
    fresh : used ≡ salt
    derived : Crypto.derive_key p password salt ≡ ok svc.key
    made : Crypto.new svc.key ≡ ok svc
    sealed : Crypto.encrypt p svc (some iv) sentinel_plain ≡ ok sentinel
    key_ok : length svc.key ≡ key_length

  new_key :
      (key : Bytes) (svc : Crypto.Service)
      → Crypto.new key ≡ ok svc
      → (svc.key ≡ key) × (length key ≡ key_length)
  unfolding Crypto.new
  new_key key svc h = ground (arith, h)

  prepared :
      (svc : Crypto.Service) (used sentinel : Bytes)
      → prepare p (some salt) (some iv) password ≡ ok (svc, used, sentinel)
      → Prepared svc used sentinel
  unfolding prepare derive_fresh_key
  prepared svc used sentinel h =
      let (d, from_key, rest) = returned (derive_fresh_key p (some salt) password) _ h in
      let (k, key, pair) = returned (Crypto.derive_key p password salt) _ from_key in
      let (svc', made, rest') = returned (Crypto.new d.0) _ rest in
      let (s, sealed, last) = returned (Crypto.encrypt p svc' (some iv) sentinel_plain) _ rest' in
      collected d k svc' s key pair made sealed last
    where
      collected :
          (d : Bytes × Bytes) (k : Bytes) (svc' : Crypto.Service) (s : Bytes)
          → Crypto.derive_key p password salt ≡ ok k
          → ◌≡◌ {A = Result CryptoError (Bytes × Bytes)} (ok (k, salt)) (ok d)
          → Crypto.new d.0 ≡ ok svc'
          → Crypto.encrypt p svc' (some iv) sentinel_plain ≡ ok s
          → ◌≡◌ {A = Result CryptoError (Crypto.Service × Bytes × Bytes)}
              (ok (svc', d.1, s))
              (ok (svc, used, sentinel))
          → Prepared svc used sentinel
      collected d k svc' s key pair made sealed last =
          let at_d : k ≡ d.0 = cc in
          let used_salt : salt ≡ d.1 = cc in
          let same : svc' ≡ svc = cc in
          let (kept, long) = new_key d.0 svc' made in
          record {
            fresh = cc;
            derived = key ∙ ap ok (at_d ∙ sym kept ∙ ap (λ (x : Crypto.Service). x.key) same);
            made = cc;
            sealed = cc;
            key_ok = cc;
          }

module _ (sql : Sql) (error_text : WalletError → Bytes) (db db' : sql.Db) where
  -- The two writes.
  record Written (used sentinel : Bytes) : Type 0 where
    between : sql.Db
    first : sql.upsert db key_encryption_salt (hex_encode used) ≡ ok between
    second : sql.upsert between key_password_sentinel sentinel ≡ ok db'

  at_second_write :
      (svc svc' : Crypto.Service) (between : sql.Db) (r : Result Bytes sql.Db)
      → stored sql error_text svc' between r ≡ (db', ok svc)
      → (svc' ≡ svc) × (r ≡ ok db')
  at_second_write svc svc' between (err e) h = absurd cc
  at_second_write svc svc' between (ok x) h = (cc, cc)

  at_first_write :
      (svc svc' : Crypto.Service) (used sentinel : Bytes) (r : Result Bytes sql.Db)
      → sql.upsert db key_encryption_salt (hex_encode used) ≡ r
      → store_sentinel sql error_text svc' sentinel db r ≡ (db', ok svc)
      → (svc' ≡ svc) × Written used sentinel
  at_first_write svc svc' used sentinel (err e) first h = absurd cc
  at_first_write svc svc' used sentinel (ok between) first h =
      let (same, second) =
        at_second_write svc svc' between (sql.upsert between key_password_sentinel sentinel) h in
      (same, record { between = between; first = first; second = second })

  written :
      (svc : Crypto.Service) (r : Result CryptoError (Crypto.Service × Bytes × Bytes))
      → store_prepared sql error_text db r ≡ (db', ok svc)
      → (used : Bytes) × (sentinel : Bytes) × (r ≡ ok (svc, used, sentinel)) × Written used sentinel
  written svc (err e) h = absurd cc
  written svc (ok (svc', used, sentinel)) h =
      let (same, w) = at_first_write svc svc' used sentinel _ refl h in
      (used, sentinel, ap (λ s. ok (s, used, sentinel)) same, w)

module _ (sql : Sql) (error_text : WalletError → Bytes) (p : Primitives) where
  open sql use {Db, select_value}

  opened :
      (db' : Db) (salt iv password sentinel : Bytes) (svc : Crypto.Service)
      → IsAead p
      → all is_byte salt ≡ true
      → length iv ≡ iv_length
      → all is_byte iv ≡ true
      → Prepared p salt iv password svc salt sentinel
      → select_value db' key_encryption_salt ≡ ok (some (hex_encode salt))
      → select_value db' key_password_sentinel ≡ ok (some sentinel)
      → unlock sql p db' password ≡ ok svc
  unfolding unlock text_eq
  opened db' salt iv password sentinel svc aead salt_ok iv_len iv_ok made salt_row sentinel_row =
      rw (
        salt_row,
        hex_decode-hex_encode salt salt_ok,
        made.derived,
        made.made,
        sentinel_row,
        decrypts,
      )
    where
      decrypts : Crypto.decrypt p svc sentinel ≡ ok sentinel_plain
      decrypts =
          ap (λ (r : Result CryptoError Bytes). r >>= Crypto.decrypt p svc) (sym made.sealed)
          ∙ decrypt-encrypt p aead svc iv sentinel_plain made.key_ok iv_len iv_ok refl

  abbrev the_row : Bytes → Result Bytes (Option Bytes)
  the_row v = ok (some v)

  -- Both rows are there behind the two writes.
  rows :
      (db db' : Db) (used sentinel : Bytes)
      → IsTable sql
      → Written sql error_text db db' used sentinel
      → (select_value db' key_encryption_salt ≡ the_row (hex_encode used))
        × (select_value db' key_password_sentinel ≡ the_row sentinel)
  unfolding text_eq
  rows db db' used sentinel table w = (
    table.select_upsert w.between db' key_password_sentinel sentinel w.second key_encryption_salt
        ∙ table.select_upsert db w.between key_encryption_salt (hex_encode used) w.first
            key_encryption_salt,
    table.select_upsert w.between db' key_password_sentinel sentinel w.second key_password_sentinel,
  )

  -- Where the creation of a password succeeds, with random bytes as salt and 16 of them as iv, the
  -- store counts as initialised behind it, and the same password unlocks it with the same key.
  pub derive_and_init_cmd-unlock :
      (db db' : Db) (salt iv password : Bytes) (svc : Crypto.Service)
      → IsTable sql
      → IsAead p
      → all is_byte salt ≡ true
      → length iv ≡ iv_length
      → all is_byte iv ≡ true
      → derive_and_init_cmd sql error_text p (some salt) (some iv) db password ≡ (db', ok svc)
      → (is_encryption_initialised sql db' ≡ ok true)
        × (derive_and_verify_cmd sql error_text p db' password ≡ ok svc)
  unfolding derive_and_init_cmd derive_and_verify_cmd is_encryption_initialised
  derive_and_init_cmd-unlock db db' salt iv password svc table aead salt_ok iv_len iv_ok h =
      let (used, sentinel, done, w) =
        written sql error_text db db' svc (prepare p (some salt) (some iv) password) h in
      let made = prepared p salt iv password svc used sentinel done in
      let salt_row =
        (rows db db' used sentinel table w).0 ∙ ap (λ s. the_row (hex_encode s)) made.fresh in
      let sentinel_row = (rows db db' used sentinel table w).1 in
      (
        rw (salt_row, sentinel_row) refl,
        ap (map_err (explained sql error_text)) (
            opened db' salt iv password sentinel svc aead salt_ok iv_len iv_ok
              (subst (λ u. Prepared p salt iv password svc u sentinel) made.fresh made) salt_row
              sentinel_row),
      )
