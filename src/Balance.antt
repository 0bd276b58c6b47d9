-- ===== src/Balance.antt =====
-- internal/balance/format.go: raw token units to decimal texts and back. Texts are lists of bytes,
-- `*big.Int` is `Option ℤ` (nil is `none`), a `uint8` of decimals is a number.
pub mod Decimal
pub mod Parse
pub mod Grammar
pub mod Trim
pub mod RoundTrip
pub mod Scale
pub mod Commas
pub mod Display
use lazyswap.Prelude.{
  ℕ, zero, suc, ◌+◌, ◌-◌, ◌*◌, ◌/◌, ◌%◌, Bool, true, false, ◌&&◌, Option, none, some, List, [], ◌∷◌,
  ◌++◌, ltb, leb, ◌==◌, if◌then◌else◌, length, null, take, drop, replicate, all,
}
use lazyswap.Prelude.Int.{ℤ, pos, negsuc, neg}
use lazyswap.Prelude.Text.{Bytes, codes, text_eq, trim_left, trim_right, trim_space}
use lazyswap.Prelude.Result.{Result, ok, err}

-- c >= '0' && c <= '9'
abbrev pub is_digit : ℕ → Bool
is_digit c = leb b'0' c && leb c b'9'

abbrev pub is_nought : ℕ → Bool
is_nought c = c == b'0'

-- One decimal digit for each round, the lowest first. A number has at most as many digits as its
-- value plus one, so the fuel `suc n` is enough.
digits_from : ℕ → ℕ → Bytes → Bytes
digits_from zero n out = out
digits_from (suc f) n out =
    let rest = digits_from f (n / 10) ((b'0' + n % 10) ∷ out) in if n == 0 then out else rest

-- the decimal digits of a positive number
unfoldable pub digits : ℕ → Bytes
unfolding digits_from
digits n = digits_from (suc n) n []

-- big.Int.String
unfoldable pub big_string : ℤ → Bytes
unfolding digits
big_string (pos zero) = b'0' ∷ []
big_string (pos (suc n)) = digits (suc n)
big_string (negsuc n) = b'-' ∷ digits (suc n)

-- strings.Contains(s, ".")
unfoldable pub contains_dot : Bytes → Bool
contains_dot [] = false
contains_dot (c ∷ s) = if c == b'.' then true else contains_dot s

-- strings.TrimSuffix(s, ".")
unfoldable pub trim_suffix_dot : Bytes → Bytes
trim_suffix_dot [] = []
trim_suffix_dot (c ∷ []) = if c == b'.' then [] else c ∷ []
trim_suffix_dot (c ∷ d ∷ s) = c ∷ trim_suffix_dot (d ∷ s)

unfoldable pub trim_trailing_zeros : Bytes → Bytes
unfolding contains_dot trim_suffix_dot trim_right
trim_trailing_zeros s =
    if contains_dot s
    then (let t = trim_suffix_dot (trim_right is_nought s) in
        elim t [ [] ↦ b'0' ∷ [] | c ∷ r ↦ if c == b'-' && null r then b'0' ∷ [] else c ∷ r ])
    else s

-- FormatUnits
unfoldable pub format_units : Option ℤ → ℕ → Bytes
unfolding big_string trim_trailing_zeros
format_units none decimals = b'0' ∷ []
format_units (some (pos zero)) decimals = b'0' ∷ []
format_units (some raw) decimals =
    let str = big_string raw in
    if leb (length str) decimals
    then trim_trailing_zeros (b'0' ∷ b'.' ∷ replicate (decimals - length str) b'0' ++ str)
    else (let int_part = take (length str - decimals) str in
        let frac_part = drop (length str - decimals) str in
        if null frac_part then int_part else trim_trailing_zeros (int_part ++ b'.' ∷ frac_part))

pub data UnitsError : Type 0 where
  empty_input invalid_integer invalid_fraction too_many_digits conversion_failed : UnitsError

-- s[:dot] and s[dot+1:] at the first dot; all of `s` and "" where there is none
unfoldable pub split_dot : Bytes → Bytes × Bytes
split_dot [] = ([], [])
split_dot (c ∷ s) = let (i, f) = split_dot s in if c == b'.' then ([], s) else (c ∷ i, f)

-- the number that a text of digits writes, most significant first
unfoldable pub decimal_value : ℕ → Bytes → ℕ
decimal_value acc [] = acc
decimal_value acc (c ∷ s) = decimal_value (acc * 10 + (c - b'0')) s

-- big.Int.SetString(s, 10), on texts without a sign
unfoldable pub set_string : Bytes → Option ℕ
unfolding decimal_value
set_string s = if null s then none else if all is_digit s then some (decimal_value 0 s) else none

-- v.Neg(v) under the sign flag
abbrev pub signed : Bool → ℕ → ℤ
signed true n = neg n
signed false n = pos n

abbrev pub with_sign : Bool → Option ℕ → Result UnitsError ℤ
with_sign sign none = err conversion_failed
with_sign sign (some v) = ok (signed sign v)

-- strings.HasPrefix(s, "-"), and s[1:] where it holds
abbrev pub take_sign : Bytes → Bool × Bytes
take_sign [] = (false, [])
take_sign (c ∷ s) = if c == b'-' then (true, s) else (false, c ∷ s)

-- if intStr == "" { intStr = "0" }
abbrev pub or_nought : Bytes → Bytes
or_nought [] = b'0' ∷ []
or_nought (c ∷ s) = c ∷ s

-- ParseUnits behind the split at the point
unfoldable pub parse_parts : Bool → Bytes → Bytes → ℕ → Result UnitsError ℤ
unfolding set_string trim_left
parse_parts sign int_str frac_str decimals =
    if all is_digit int_str
    then (if all is_digit frac_str
        then (if ltb decimals (length frac_str)
            then err too_many_digits
            else (let combined =
                  trim_left is_nought
                    (int_str ++ frac_str ++ replicate (decimals - length frac_str) b'0') in
                if null combined then ok (pos 0) else with_sign sign (set_string combined)))
        else err invalid_fraction)
    else err invalid_integer

-- ParseUnits
unfoldable pub parse_units : Bytes → ℕ → Result UnitsError ℤ
parse_units s decimals =
    let trimmed = trim_space s in
    if null trimmed
    then err empty_input
    else (let (sign, rest) = take_sign trimmed in
        let (i, f) = split_dot rest in parse_parts sign (or_nought i) f decimals)

-- `for i := pre; i < n; i += 3`: groups of three, a comma between two of them
comma_groups : ℕ → Bytes → Bytes
comma_groups zero s = []
comma_groups (suc k) s =
    if leb (length s) 3 then s else take 3 s ++ b',' ∷ comma_groups k (drop 3 s)

-- The rounds are bounded by the length of the text.
unfoldable pub insert_commas : Bytes → Bytes
unfolding comma_groups
insert_commas s =
    let n = length s in
    if leb n 3
    then s
    else (let pre = n % 3 in
        if ltb 0 pre then take pre s ++ b',' ∷ comma_groups n (drop pre s) else comma_groups n s)

-- strings.ReplaceAll(s, ",", "")
unfoldable pub remove_byte : ℕ → Bytes → Bytes
remove_byte b [] = []
remove_byte b (c ∷ s) = let r = remove_byte b s in if c == b then r else c ∷ r
