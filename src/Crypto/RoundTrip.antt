-- ===== src/Crypto/RoundTrip.antt =====
-- Decrypt after Encrypt.
use Prim.Native.Nat.{◌≤◌}
use lazyswap.Prelude.{
  ℕ, ◌+◌, ◌-◌, ◌/◌, ◌%◌, ◌<◌, ◌≡◌, refl, ◌∙◌, ap, Bool, true, not, some, [], ◌∷◌, ◌++◌, arith, ltb,
  ◌==◌, length, take, drop, all, all-take, all-drop, take-append-drop, length-drop, and_split,
  ltb→lt, le→ltb_false,
}
use lazyswap.Prelude.Text.{Bytes}
use lazyswap.Prelude.Result.{ok, ◌>>=◌}
use lazyswap.Crypto.{
  key_length, iv_length, auth_tag_length, Primitives, Service, hex_digit, hex_encode, hex_value,
  hex_decode, split_colon, envelope_of, encrypt, decrypt,
}

abbrev pub is_byte : ℕ → Bool
is_byte b = ltb b 256

-- What the packages crypto/aes and crypto/cipher document: a key of 32 bytes is accepted, Seal
-- appends a tag of 16 bytes, and Open gives back what was sealed under the same key and nonce.
pub record IsAead (p : Primitives) : Type 0 where
  pub accepts : (key : Bytes) → length key ≡ key_length → p.accepts_key key ≡ true
  pub tagged :
      (key nonce text : Bytes) → length (p.seal key nonce text) ≡ length text + auth_tag_length
  pub sealed_bytes :
      (key nonce text : Bytes)
      → all is_byte text ≡ true
      → all is_byte (p.seal key nonce text) ≡ true
  pub opens : (key nonce text : Bytes) → p.open_sealed key nonce (p.seal key nonce text) ≡ some text

hex_value-hex_digit : (n : ℕ) → n < 16 → hex_value (hex_digit n) ≡ some n
unfolding hex_value
hex_value-hex_digit n h = ground arith

-- Decoding the hexadecimal text of a list of bytes gives the bytes back.
pub hex_decode-hex_encode : (s : Bytes) → all is_byte s ≡ true → hex_decode (hex_encode s) ≡ some s
unfolding hex_decode hex_encode
hex_decode-hex_encode [] h = refl
hex_decode-hex_encode (b ∷ s) h =
    let (small, rest) = and_split (ltb b 256) (all is_byte s) h in
    let lt : b < 256 = ltb→lt b 256 small in
    rw
      (
        hex_value-hex_digit (b / 16) (omega arith),
        hex_value-hex_digit (b % 16) (omega arith),
        hex_decode-hex_encode s rest,
      )
      (ap (λ k. some (k ∷ s)) (omega arith))

abbrev no_colon : ℕ → Bool
no_colon c = not (c == b':')

hex_digit-no_colon : (n : ℕ) → n < 16 → no_colon (hex_digit n) ≡ true
hex_digit-no_colon n h = ground arith

hex_encode-no_colon : (s : Bytes) → all is_byte s ≡ true → all no_colon (hex_encode s) ≡ true
unfolding hex_encode
hex_encode-no_colon [] h = refl
hex_encode-no_colon (b ∷ s) h =
    let (small, rest) = and_split (ltb b 256) (all is_byte s) h in
    let lt : b < 256 = ltb→lt b 256 small in
    rw (hex_digit-no_colon (b / 16) (omega arith), hex_digit-no_colon (b % 16) (omega arith))
      (hex_encode-no_colon s rest)

split_colon-last : (s : Bytes) → all no_colon s ≡ true → split_colon s ≡ s ∷ []
unfolding split_colon
split_colon-last [] h = refl
split_colon-last (c ∷ s) h = ground (arith, split_colon-last s)

split_colon-append :
    (s t : Bytes) → all no_colon s ≡ true → split_colon (s ++ b':' ∷ t) ≡ s ∷ split_colon t
unfolding split_colon
split_colon-append [] t h = refl
split_colon-append (c ∷ s) t h = ground (arith, split_colon-append s t)

module _ (iv sealed : Bytes) (iv_ok : all is_byte iv ≡ true)
    (sealed_ok : all is_byte sealed ≡ true) where
  split_envelope :
      split_colon (envelope_of iv sealed)
      ≡ hex_encode iv
        ∷ hex_encode (drop (length sealed - auth_tag_length) sealed)
        ∷ hex_encode (take (length sealed - auth_tag_length) sealed)
        ∷ []
  split_envelope =
      split_colon-append _ _ (hex_encode-no_colon iv iv_ok)
      ∙ ap (λ t. hex_encode iv ∷ t)
          (split_colon-append _ _ (hex_encode-no_colon _ (all-drop is_byte _ sealed sealed_ok))
            ∙ ap (λ t. hex_encode (drop (length sealed - auth_tag_length) sealed) ∷ t)
                (split_colon-last _ (hex_encode-no_colon _ (all-take is_byte _ sealed sealed_ok))))

module _ (p : Primitives) (s : Service) (accepted : p.accepts_key s.key ≡ true) (iv : Bytes)
    (iv_len : length iv ≡ iv_length) (iv_ok : all is_byte iv ≡ true) where
  decrypt-envelope_of :
      (sealed text : Bytes)
      → all is_byte sealed ≡ true
      → auth_tag_length ≤ length sealed
      → p.open_sealed s.key iv sealed ≡ some text
      → decrypt p s (envelope_of iv sealed) ≡ ok text
  unfolding decrypt
  decrypt-envelope_of sealed text sealed_ok long opened =
      let cut = length sealed - auth_tag_length in
      let tag_len : length (drop cut sealed) ≡ auth_tag_length =
        omega (arith, length-drop cut sealed) in
      rw (
        split_envelope iv sealed iv_ok sealed_ok,
        hex_decode-hex_encode iv iv_ok,
        iv_len,
        hex_decode-hex_encode (drop cut sealed) (all-drop is_byte cut sealed sealed_ok),
        tag_len,
        hex_decode-hex_encode (take cut sealed) (all-take is_byte cut sealed sealed_ok),
        accepted,
        take-append-drop cut sealed,
        opened,
      )

  encrypt-eq :
      (text : Bytes)
      → auth_tag_length ≤ length (p.seal s.key iv text)
      → encrypt p s (some iv) text ≡ ok (envelope_of iv (p.seal s.key iv text))
  unfolding encrypt
  encrypt-eq text long =
      rw (accepted, le→ltb_false (length (p.seal s.key iv text)) auth_tag_length long)

-- What Encrypt returns under a key of 32 bytes, a random iv of 16 and a text of bytes, Decrypt
-- under the same key turns back into the text; and Encrypt does return an envelope.
pub decrypt-encrypt :
    (p : Primitives)
    → IsAead p
    → (s : Service) (iv text : Bytes) → length s.key ≡ key_length
    → length iv ≡ iv_length
    → all is_byte iv ≡ true
    → all is_byte text ≡ true
    → (encrypt p s (some iv) text >>= decrypt p s) ≡ ok text
decrypt-encrypt p aead s iv text key_ok iv_len iv_ok text_ok =
    let accepted = aead.accepts s.key key_ok in
    let long : auth_tag_length ≤ length (p.seal s.key iv text) =
      omega (arith, aead.tagged s.key iv text) in
    rw (encrypt-eq p s accepted iv iv_len iv_ok text long) (
      decrypt-envelope_of p s accepted iv iv_len iv_ok (p.seal s.key iv text) text
        (aead.sealed_bytes s.key iv text text_ok) long (aead.opens s.key iv text))
