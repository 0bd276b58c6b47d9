-- ===== src/Examples/Login.antt =====
-- The login screen at concrete inputs: a password is created, and then asked for.
use mathlib.Core.List.{Memᴰ}
use lazyswap.Prelude.{leb, ◌&&◌, List, [], false, refl, some, true, ◌++◌, ◌∷◌, ◌≡◌, ◌≤◌}
use lazyswap.Prelude.Result.{ok}
use lazyswap.Prelude.Text.{runes, trim_space, Bytes, codes, text_eq}
use lazyswap.Crypto
use lazyswap.Crypto.{encrypt, hex_encode}
use lazyswap.Tui.Login.{
  Unicode, Msg, derive_and_init, derive_and_init_cmd, derive_and_verify_cmd, enter,
  is_encryption_initialised, key, login_err, new, notice, run, validate_password,
}
use lazyswap.Tui.Login.Requests.{derivations, run-Allowed, run-derivations}
use lazyswap.Tui.Login.Rules.{IsStrong}
use lazyswap.Tui.Login.Unlocks.{derive_and_init_cmd-unlock}
use lazyswap.Tui.Seed.{TextInput}
use lazyswap.Wallet.{WalletError}
use lazyswap.Examples.Samples.{
  list_sql, list_sql-IsTable, open_cipher, open_cipher-IsAead, sample_iv, sample_service,
}

-- the tables of the characters of ASCII
abbrev ascii : Unicode
ascii = record {
  is_lower = λ c. leb b'a' c && leb c b'z';
  is_upper = λ c. leb b'A' c && leb c b'Z';
  is_digit = λ c. leb b'0' c && leb c b'9';
}

-- An input holds what was pasted.
abbrev clipboard : TextInput
clipboard = record {
  Input = Bytes;
  Event = Bytes;
  blank = [];
  value = λ s. s;
  set_value = λ v s. v;
  change = λ v s. s ++ v;
}

-- two Cyrillic letters, a byte that is no UTF-8, and a letter of ASCII
runes_test : runes 0 (208 ∷ 159 ∷ 208 ∷ 176 ∷ 255 ∷ b'a' ∷ []) ≡ 1055 ∷ 1072 ∷ 65533 ∷ 97 ∷ []
unfolding runes
runes_test = refl

-- a no-break space in front, a thin space behind
trim_space_test : trim_space (194 ∷ 160 ∷ b'a' ∷ 226 ∷ 128 ∷ 137 ∷ []) ≡ b'a' ∷ []
unfolding trim_space
trim_space_test = refl

abbrev good_password : Bytes
good_password = codes "Abcdefg1"

abbrev typed_twice : List (Msg Bytes)
typed_twice = key good_password ∷ enter ∷ key good_password ∷ enter ∷ []

no_complaint : validate_password ascii good_password ≡ []
unfolding validate_password notice
no_complaint = refl

started :
    Memᴰ
      (derive_and_init good_password)
      (run ascii clipboard typed_twice (new ascii clipboard false))
unfolding run new validate_password text_eq notice
started = Memᴰ.tail (Memᴰ.tail (Memᴰ.tail (Memᴰ.head refl)))

run-Allowed_example : (true ≡ true) × IsStrong ascii good_password
run-Allowed_example =
    run-Allowed ascii clipboard false typed_twice (derive_and_init good_password) started

abbrev tried_twice : List (Msg Bytes)
tried_twice =
    key good_password ∷ enter ∷ enter ∷ login_err (codes "no") ∷ key good_password ∷ enter ∷ []

both_tries : derivations (run ascii clipboard tried_twice (new ascii clipboard true)) ≡ 2
unfolding run new
both_tries = refl

run-derivations_example :
    derivations (run ascii clipboard tried_twice (new ascii clipboard true)) ≤ 2
run-derivations_example = run-derivations ascii clipboard true tried_twice

abbrev no_text : WalletError → Bytes
no_text e = []

abbrev empty_db : list_sql.Db
empty_db = ([], [])

abbrev new_db : list_sql.Db
new_db =
    (derive_and_init_cmd list_sql no_text open_cipher (some (7 ∷ [])) (some sample_iv) empty_db
      good_password).0

created :
    derive_and_init_cmd list_sql no_text open_cipher
      (some (7 ∷ []))
      (some sample_iv)
      empty_db
      good_password
    ≡ (new_db, ok sample_service)
unfolding derive_and_init_cmd Crypto.derive_key Crypto.new encrypt
created = refl

derive_and_init_cmd-unlock_example :
    (is_encryption_initialised list_sql new_db ≡ ok true)
    × (derive_and_verify_cmd list_sql no_text open_cipher new_db good_password ≡ ok sample_service)
derive_and_init_cmd-unlock_example =
    derive_and_init_cmd-unlock list_sql no_text open_cipher empty_db new_db (7 ∷ []) sample_iv
      good_password sample_service list_sql-IsTable open_cipher-IsAead refl refl refl created
