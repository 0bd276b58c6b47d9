-- ===== src/Tui/Login.antt =====
-- internal/tui/screens/login: the screen that creates the password, or asks for it. The texts of
-- errors are a parameter, and so are the tables of package
-- unicode, the widget of the input and the random bytes.
pub mod Rules
pub mod Requests
pub mod Unlocks
use lazyswap.Prelude.{
  Bool, List, Option, [], false, if◌then◌else◌, leb, length, ltb, none, not, null, some, true, ℕ,
  ◌++◌, ◌&&◌, ◌∷◌,
}
use lazyswap.Prelude.Result.{Result, err, map_err, ok, ◌>>=◌}
use lazyswap.Prelude.Text.{Bytes, codes, runes, text_eq}
use lazyswap.Crypto
use lazyswap.Crypto.{CryptoError, Primitives, hex_encode, sentinel_plain}
use lazyswap.Wallet.{
  Sql, WalletError, crypto, database, invalid_password, key_encryption_salt, key_password_sentinel,
  unlock,
}
use lazyswap.Tui.Seed.{TextInput}

-- the tables of package unicode: IsLower, IsUpper and IsDigit of a character
pub record Unicode : Type 0 where
  pub is_lower : ℕ → Bool
  pub is_upper : ℕ → Bool
  pub is_digit : ℕ → Bool

-- hasLower, hasUpper, hasDigit
pub record Found : Type 0 where
  pub has_lower : Bool
  pub has_upper : Bool
  pub has_digit : Bool

-- one round of the loop of ValidatePassword
unfoldable pub notice : Unicode → ℕ → Found → Found
notice u c f =
    if u.is_lower c
    then record f { has_lower = true }
    else if u.is_upper c
    then record f { has_upper = true }
    else if u.is_digit c
    then record f { has_digit = true }
    else f

-- the loop of ValidatePassword over the characters of the password
unfoldable pub scan : Unicode → Found → List ℕ → Found
scan u f [] = f
scan u f (c ∷ s) = scan u (notice u c f) s

abbrev pub nothing_found : Found
nothing_found = record { has_lower = false; has_upper = false; has_digit = false }

-- the checks behind the loop
unfoldable pub missing : Found → Bytes
missing f =
    if not f.has_lower
    then codes "Password must contain at least one lowercase letter."
    else if not f.has_upper
    then codes "Password must contain at least one uppercase letter."
    else if not f.has_digit
    then codes "Password must contain at least one digit."
    else []

-- ValidatePassword
unfoldable pub validate_password : Unicode → Bytes → Bytes
unfolding scan missing runes
validate_password u pw =
    if ltb (length pw) 8
    then codes "Password must be at least 8 characters."
    else missing (scan u nothing_found (runes 0 pw))

pub record Model (Input : Type 0) : Type 0 where
  pub input : Input
  pub is_first_access : Bool
  pub awaiting_confirm : Bool
  pub first_entry : Bytes
  pub err_msg : Bytes
  pub hint : Bytes
  pub busy : Bool
  pub width : ℕ
  pub height : ℕ

pub data Msg (Event : Type 0) : Type 0 where
  window_size : (width height : ℕ) → Msg Event
  -- loginInternalSuccessMsg, loginErrMsg
  internal_success : Crypto.Service → Msg Event
  login_err : Bytes → Msg Event
  enter : Msg Event
  -- esc, any other key, and any other message: what the input makes of them
  esc key other_msg : Event → Msg Event

-- the commands; `login_success` is the message to the parent
pub data Cmd : Type 0 where
  no_cmd : Cmd
  login_success : Crypto.Service → Cmd
  derive_and_init derive_and_verify : (password : Bytes) → Cmd

-- defaultHint
unfoldable pub default_hint : (is_first_access : Bool) → Bytes
default_hint first =
    if first then codes "Create a password  (8+ chars, A-Z a-z 0-9)" else codes "Enter password"

module _ (u : Unicode) (ti : TextInput) where
  open ti use {Input, Event, blank, value, set_value, change}

  -- the model that New returns, by the answer of IsEncryptionInitialised
  unfoldable pub new : (initialised : Bool) → Model Input
  unfolding default_hint
  new initialised = record {
    input = blank;
    is_first_access = not initialised;
    awaiting_confirm = false;
    first_entry = [];
    err_msg = [];
    hint = default_hint (not initialised);
    busy = false;
    width = 0;
    height = 0;
  }

  -- resetConfirm
  unfoldable pub reset_confirm : Model Input → Model Input
  unfolding default_hint
  reset_confirm m = record m {
    awaiting_confirm = false;
    first_entry = [];
    hint = default_hint m.is_first_access;
    input = set_value [] m.input;
  }

  -- the first entry of a new password, in submit
  unfoldable pub submit_first : (pw : Bytes) → Model Input → Model Input × Cmd
  unfolding validate_password
  submit_first pw m =
      let problem = validate_password u pw in
      if null problem
      then (
        record m { first_entry = pw; awaiting_confirm = true; hint = codes "Confirm password" },
        no_cmd,
      )
      else (record m { err_msg = problem }, no_cmd)

  -- its confirmation, in submit
  unfoldable pub submit_confirm : (pw : Bytes) → Model Input → Model Input × Cmd
  unfolding reset_confirm
  submit_confirm pw m =
      if text_eq pw m.first_entry then (record m { busy = true }, derive_and_init pw) else (
        record (reset_confirm m) { err_msg = codes "Passwords do not match. Please try again." },
        no_cmd,
      )

  -- submit
  unfoldable pub submit : Model Input → Model Input × Cmd
  unfolding submit_first submit_confirm
  submit m =
      let pw = value m.input in
      let cleared = record m { input = set_value [] m.input; err_msg = [] } in
      if m.is_first_access && not m.awaiting_confirm
      then submit_first pw cleared
      else if m.is_first_access && m.awaiting_confirm
      then submit_confirm pw cleared
      else (record cleared { busy = true }, derive_and_verify pw)

  -- the end of Update: the input takes the message
  unfoldable pub to_input : Event → Model Input → Model Input × Cmd
  to_input e m =
      if m.busy then (m, no_cmd) else (record m { input = change e m.input; err_msg = [] }, no_cmd)

  -- Update
  unfoldable pub update : Msg Event → Model Input → Model Input × Cmd
  unfolding submit to_input reset_confirm
  update (window_size w h) m = (record m { width = w; height = h }, no_cmd)
  update (internal_success svc) m = (m, login_success svc)
  update (login_err e) m =
      (record m { busy = false; err_msg = e; input = set_value [] m.input }, no_cmd)
  update enter m = if m.busy then (m, no_cmd) else submit m
  update (esc e) m =
      if m.busy
      then (m, no_cmd)
      else if m.is_first_access && m.awaiting_confirm
      then (reset_confirm m, no_cmd)
      else to_input e m
  update (key e) m = to_input e m
  update (other_msg e) m = to_input e m

  -- the commands of the screen over a sequence of messages
  unfoldable pub run : List (Msg Event) → Model Input → List Cmd
  unfolding update
  run [] m = []
  run (msg ∷ msgs) m = let (n, c) = update msg m in c ∷ run msgs n

abbrev random_or_error : Option Bytes → Result CryptoError Bytes
random_or_error none = err CryptoError.random_failed
random_or_error (some bytes) = ok bytes

-- DeriveKey without a salt: `random` is what rand.Read delivers
unfoldable pub derive_fresh_key :
    Primitives → (random : Option Bytes) → (password : Bytes) → Result CryptoError (Bytes × Bytes)
derive_fresh_key p random password = do
  salt ← random_or_error random
  derived ← Crypto.derive_key p password salt
  ok (derived, salt)

-- what deriveAndInitCmd computes before it writes: the service, the salt and the sentinel
unfoldable pub prepare :
    Primitives
    → (salt_random iv_random : Option Bytes) → (password : Bytes)
    → Result CryptoError (Crypto.Service × Bytes × Bytes)
unfolding derive_fresh_key
prepare p salt_random iv_random password = do
  derived ← derive_fresh_key p salt_random password
  svc ← Crypto.new derived.0
  sentinel ← Crypto.encrypt p svc iv_random sentinel_plain
  ok (svc, derived.1, sentinel)

-- the second result of GetSalt and GetSentinel
abbrev pub is_there : Option Bytes → Bool
is_there none = false
is_there (some v) = true

module _ (sql : Sql) where
  open sql use {Db, select_value}

  -- IsEncryptionInitialised
  unfoldable pub is_encryption_initialised : Db → Result Bytes Bool
  is_encryption_initialised db = do
    salt ← select_value db key_encryption_salt
    sentinel ← select_value db key_password_sentinel
    ok (is_there salt && is_there sentinel)

-- New
unfoldable pub new_screen :
    (u : Unicode) (ti : TextInput) (sql : Sql) → sql.Db → Result Bytes (Model ti.Input)
unfolding is_encryption_initialised new
new_screen u ti sql db = do
  initialised ← is_encryption_initialised sql db
  ok (new u ti initialised)

module _ (sql : Sql) (error_text : WalletError → Bytes) where
  open sql use {Db, upsert}

  -- the command succeeds where the row is written
  abbrev pub stored :
      Crypto.Service → (db : Db) → Result Bytes Db → Db × Result Bytes Crypto.Service
  stored svc db (err e) = (db, err (error_text (database e)))
  stored svc db (ok db') = (db', ok svc)

  -- SetSentinel behind SetSalt
  abbrev pub store_sentinel :
      Crypto.Service
      → (sentinel : Bytes) → (db : Db) → Result Bytes Db
      → Db × Result Bytes Crypto.Service
  store_sentinel svc sentinel db (err e) = (db, err (error_text (database e)))
  store_sentinel svc sentinel db (ok db') =
      stored svc db' (upsert db' key_password_sentinel sentinel)

  abbrev pub store_prepared :
      (db : Db)
      → Result CryptoError (Crypto.Service × Bytes × Bytes)
      → Db × Result Bytes Crypto.Service
  store_prepared db (err e) = (db, err (error_text (crypto e)))
  store_prepared db (ok (svc, salt, sentinel)) =
      store_sentinel svc sentinel db (upsert db key_encryption_salt (hex_encode salt))

  -- deriveAndInitCmd: the database that it leaves, and the message that it emits
  unfoldable pub derive_and_init_cmd :
      Primitives
      → (salt_random iv_random : Option Bytes) → (db : Db) → (password : Bytes)
      → Db × Result Bytes Crypto.Service
  unfolding prepare
  derive_and_init_cmd p salt_random iv_random db password =
      store_prepared db (prepare p salt_random iv_random password)

  abbrev pub explained : WalletError → Bytes
  explained invalid_password = codes "invalid password " ++ 226 ∷ 128 ∷ 148 ∷ codes " try again"
  explained e = error_text e

  -- deriveAndVerifyCmd
  unfoldable pub derive_and_verify_cmd :
      Primitives → Db → (password : Bytes) → Result Bytes Crypto.Service
  derive_and_verify_cmd p db password = map_err explained (unlock sql p db password)
