-- ===== src/Crypto.antt =====
-- internal/crypto/crypto.go: sealing secrets under a password, in the envelope
-- "iv_hex:authTag_hex:ciphertext_hex". AES-GCM and PBKDF2 are an interface; the random bytes are
-- arguments.
pub mod RoundTrip
use lazyswap.Prelude.{
  ℕ, ◌+◌, ◌-◌, ◌*◌, ◌/◌, ◌%◌, Bool, true, false, ◌&&◌, Option, none, some, List, [], ◌∷◌, ◌++◌, ltb,
  leb, ◌==◌, if◌then◌else◌, length, take, drop, not,
}
use lazyswap.Prelude.Text.{Bytes, codes}
use lazyswap.Prelude.Result.{Result, ok, err, ◌>>=◌}

abbrev pub key_length : ℕ
key_length = 32

abbrev pub iv_length : ℕ
iv_length = 16

abbrev pub auth_tag_length : ℕ
auth_tag_length = 16

-- SentinelPlain
abbrev pub sentinel_plain : Bytes
sentinel_plain = codes "lazyswap-v1-ok"

pub data CryptoError : Type 0 where
  bad_key_length bad_cipher derive_failed random_failed sealed_too_short invalid_format :
      CryptoError
  bad_iv_hex bad_iv_length bad_tag_hex bad_tag_length bad_ciphertext_hex open_failed : CryptoError

-- aes.NewCipher with cipher.NewGCMWithNonceSize, and pbkdf2.Key with 100000 rounds
pub record Primitives : Type 0 where
  pub accepts_key : Bytes → Bool
  pub seal : (key nonce plaintext : Bytes) → Bytes
  pub open_sealed : (key nonce sealed : Bytes) → Option Bytes
  pub pbkdf2 : (password salt : Bytes) → Option Bytes

-- crypto.Service
pub record Service : Type 0 where
  pub key : Bytes

-- New
unfoldable pub new : Bytes → Result CryptoError Service
new key = if length key == key_length then ok (record { key = key }) else err bad_key_length

-- DeriveKey with a salt that is there
unfoldable pub derive_key : Primitives → (password salt : Bytes) → Result CryptoError Bytes
derive_key p password salt = elim (p.pbkdf2 password salt) [
  | none ↦ err derive_failed
  | some k ↦ ok k
]

abbrev pub hex_digit : ℕ → ℕ
hex_digit n = if ltb n 10 then b'0' + n else b'a' + (n - 10)

-- hex.EncodeToString
unfoldable pub hex_encode : Bytes → Bytes
hex_encode [] = []
hex_encode (b ∷ s) = hex_digit (b / 16) ∷ hex_digit (b % 16) ∷ hex_encode s

unfoldable pub hex_value : ℕ → Option ℕ
hex_value c =
    if leb b'0' c && leb c b'9'
    then some (c - b'0')
    else if leb b'a' c && leb c b'f'
    then some (c - b'a' + 10)
    else if leb b'A' c && leb c b'F'
    then some (c - b'A' + 10)
    else none

abbrev pub join_byte : Option ℕ → Option ℕ → Option Bytes → Option Bytes
join_byte (some h) (some l) (some s) = some ((h * 16 + l) ∷ s)
join_byte (some h) (some l) none = none
join_byte (some h) none o = none
join_byte none p o = none

-- hex.DecodeString; `none` is its error
unfoldable pub hex_decode : Bytes → Option Bytes
unfolding hex_value
hex_decode [] = some []
hex_decode (a ∷ []) = none
hex_decode (a ∷ b ∷ s) = join_byte (hex_value a) (hex_value b) (hex_decode s)

abbrev pub cons_head : ℕ → List Bytes → List Bytes
cons_head c [] = (c ∷ []) ∷ []
cons_head c (s ∷ ss) = (c ∷ s) ∷ ss

-- strings.Split(s, ":")
unfoldable pub split_colon : Bytes → List Bytes
split_colon [] = [] ∷ []
split_colon (c ∷ s) = let rest = split_colon s in if c == b':' then [] ∷ rest else cons_head c rest

abbrev or_error : {A : Type 0} → CryptoError → Option A → Result CryptoError A
or_error e none = err e
or_error e (some a) = ok a

abbrev check : CryptoError → Bool → Result CryptoError (Unit {0})
check e true = ok tt
check e false = err e

-- the envelope of an iv and a sealed text, whose last bytes are the tag
abbrev pub envelope_of : (iv sealed : Bytes) → Bytes
envelope_of iv sealed =
    let cut = length sealed - auth_tag_length in
    hex_encode iv ++ b':' ∷ (hex_encode (drop cut sealed) ++ b':' ∷ hex_encode (take cut sealed))

-- Encrypt; `iv` is what rand.Read delivers
unfoldable pub encrypt : Primitives → Service → Option Bytes → Bytes → Result CryptoError Bytes
encrypt p s random plaintext = do
  iv ← or_error random_failed random
  _ ← check bad_cipher (p.accepts_key s.key)
  let sealed = p.seal s.key iv plaintext
  _ ← check sealed_too_short (not (ltb (length sealed) auth_tag_length))
  ok (envelope_of iv sealed)

-- the three parts of an envelope
abbrev decrypt_parts : Primitives → Service → List Bytes → Result CryptoError Bytes
decrypt_parts p s (iv_hex ∷ tag_hex ∷ text_hex ∷ []) = do
  iv ← or_error bad_iv_hex (hex_decode iv_hex)
  _ ← check bad_iv_length (length iv == iv_length)
  tag ← or_error bad_tag_hex (hex_decode tag_hex)
  _ ← check bad_tag_length (length tag == auth_tag_length)
  ciphertext ← or_error bad_ciphertext_hex (hex_decode text_hex)
  _ ← check bad_cipher (p.accepts_key s.key)
  or_error open_failed (p.open_sealed s.key iv (ciphertext ++ tag))
decrypt_parts p s _ = err invalid_format

-- Decrypt
unfoldable pub decrypt : Primitives → Service → Bytes → Result CryptoError Bytes
decrypt p s envelope = decrypt_parts p s (split_colon envelope)
