-- ===== src/Thorchain/Numbers.antt =====
-- The integers of strconv and math/big that internal/thorchain reads from texts: signed numbers of
-- any size, and those of 64 bits.
use lazyswap.Prelude.{
  ℕ, suc, ◌-◌, ◌%◌, ◌^◌, Bool, true, false, Option, none, some, [], ◌∷◌, if◌then◌else◌, ltb, ◌==◌,
}
use lazyswap.Prelude.Int.{ℤ, pos, negsuc, neg}
use lazyswap.Prelude.Text.{Bytes}
use lazyswap.Balance.{set_string, signed}

-- the sign of a number and its digits
abbrev sign_of : Bytes → Bool × Bytes
sign_of [] = (false, [])
sign_of (c ∷ s) = if c == b'-' then (true, s) else if c == b'+' then (false, s) else (false, c ∷ s)

abbrev with_sign_of : Bool → Option ℕ → Option ℤ
with_sign_of sign none = none
with_sign_of sign (some n) = some (signed sign n)

-- new(big.Int).SetString(s, 10)
unfoldable pub big_of : Bytes → Option ℤ
unfolding set_string
big_of s = let (sign, rest) = sign_of s in with_sign_of sign (set_string rest)

-- The value of a number in 64 bits, and whether it fits: the nearest bound where it does not.
abbrev clamped : Option ℤ → ℤ × Bool
clamped none = (pos 0, false)
clamped (some (pos n)) = if ltb n (2 ^ 63) then (pos n, true) else (pos (2 ^ 63 - 1), false)
clamped (some (negsuc n)) =
    if ltb n (2 ^ 63) then (negsuc n, true) else (negsuc (2 ^ 63 - 1), false)

-- strconv.ParseInt(s, 10, 64): the value, and whether its error is nil
unfoldable pub parse_int : Bytes → ℤ × Bool
unfolding big_of
parse_int s = clamped (big_of s)

-- the signed value of the low 64 bits
abbrev low_word : ℕ → ℤ
low_word n = let m = n % 2 ^ 64 in if ltb m (2 ^ 63) then pos m else neg (2 ^ 64 - m)

-- big.Int.Int64
unfoldable pub int64_of : ℤ → ℤ
int64_of (pos n) = low_word n
int64_of (negsuc n) = low_word (2 ^ 64 - suc n % 2 ^ 64)
