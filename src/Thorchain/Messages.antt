-- ===== src/Thorchain/Messages.antt =====
-- internal/thorchain/provider.go: the query of a quote, and the minimum that THORnode names in the
-- text of an error.
use lazyswap.Prelude.{
  Bool, Option, [], false, if◌then◌else◌, leb, ltb, none, null, some, true, ℕ, ◌%◌, ◌&&◌, ◌++◌, ◌+◌,
  ◌-◌, ◌/◌, ◌==◌, ◌||◌, ◌∷◌,
}
use lazyswap.Prelude.Int.{ℤ}
use lazyswap.Prelude.Text.{Bytes, codes}
use lazyswap.Balance.{is_digit}
use lazyswap.Thorchain.{btc_asset}
use lazyswap.Thorchain.Numbers.{parse_int}

-- one byte of url.QueryEscape
abbrev hex_digit : ℕ → ℕ
hex_digit n = if ltb n 10 then b'0' + n else b'A' + (n - 10)

abbrev is_unreserved : ℕ → Bool
is_unreserved c =
    leb b'a' c && leb c b'z'
    || leb b'A' c && leb c b'Z'
    || is_digit c
    || (c == b'-' || c == b'_')
    || (c == b'.' || c == b'~')

-- url.QueryEscape
unfoldable pub query_escape : Bytes → Bytes
query_escape [] = []
query_escape (c ∷ s) =
    let rest = query_escape s in
    if is_unreserved c
    then c ∷ rest
    else if c == b' '
    then b'+' ∷ rest
    else b'%' ∷ hex_digit (c / 16) ∷ hex_digit (c % 16) ∷ rest

-- `\s` of a Go regular expression
abbrev is_blank : ℕ → Bool
is_blank c = c == 9 || c == 10 || c == 12 || c == 13 || c == 32

-- what follows `prefix`, where the text starts with it
unfoldable pub cut_prefix : Bytes → Bytes → Option Bytes
cut_prefix [] s = some s
cut_prefix (p ∷ ps) [] = none
cut_prefix (p ∷ ps) (c ∷ s) = let rest = cut_prefix ps s in if p == c then rest else none

unfoldable pub skip_blanks : Bytes → Bytes
skip_blanks [] = []
skip_blanks (c ∷ s) = let rest = skip_blanks s in if is_blank c then rest else c ∷ s

unfoldable pub leading_digits : Bytes → Bytes
leading_digits [] = []
leading_digits (c ∷ s) = let rest = leading_digits s in if is_digit c then c ∷ rest else []

abbrev some_digits : Bytes → Option Bytes
some_digits [] = none
some_digits (c ∷ s) = some (c ∷ s)

abbrev pub minimum_key : Bytes
minimum_key = codes "recommended_min_amount_in:"

abbrev digits_behind : Option Bytes → Option Bytes
digits_behind none = none
digits_behind (some rest) = some_digits (leading_digits (skip_blanks rest))

abbrev or_else : Option Bytes → Option Bytes → Option Bytes
or_else (some d) later = some d
or_else none later = later

-- minSwapRe.FindStringSubmatch(s)[1]: the group of the leftmost match
unfoldable pub find_minimum : Bytes → Option Bytes
unfolding cut_prefix skip_blanks leading_digits
find_minimum [] = none
find_minimum (c ∷ s) =
    let later = find_minimum s in or_else (digits_behind (cut_prefix minimum_key (c ∷ s))) later

abbrev when_parsed : ℤ × Bool → Option ℤ
when_parsed (n, true) = some n
when_parsed (n, false) = none

abbrev minimum_of : Option Bytes → Option ℤ
minimum_of none = none
minimum_of (some d) = when_parsed (parse_int d)

-- parseBelowMin
unfoldable pub parse_below_min : Bytes → Option ℤ
unfolding find_minimum
parse_below_min s = minimum_of (find_minimum s)

-- q.Encode(), whose keys are sorted
unfoldable pub encode_query : (from_asset from_amount btc_address : Bytes) → Bytes
unfolding query_escape
encode_query from_asset from_amount btc_address =
    codes "amount="
    ++ query_escape from_amount
    ++ (if null btc_address then [] else codes "&destination=" ++ query_escape btc_address)
    ++ codes "&from_asset="
    ++ query_escape from_asset
    ++ codes "&to_asset="
    ++ query_escape btc_asset
