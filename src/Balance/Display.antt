-- ===== src/Balance/Display.antt =====
-- internal/balance/format.go: amounts and dollars for display, and the sum of displayed dollars.
use lazyswap.Prelude.{
  ℕ, zero, suc, Option, none, some, List, [], ◌∷◌, ◌++◌, if◌then◌else◌, null, ◌==◌,
}
use lazyswap.Prelude.Int.{ℤ}
use lazyswap.Prelude.Text.{Bytes, codes}
use lazyswap.Float.{Float64}
use lazyswap.Balance.{format_units, split_dot, insert_commas, remove_byte}

-- Trailing zeros are dropped behind the first `min_frac` digits.
unfoldable pub trim_fraction : (min_frac : ℕ) → Bytes → Bytes
trim_fraction min_frac [] = []
trim_fraction zero (c ∷ s) =
    let r = trim_fraction zero s in if null r then (if c == b'0' then [] else c ∷ []) else c ∷ r
trim_fraction (suc n) (c ∷ s) = c ∷ trim_fraction n s

abbrev with_fraction : Bytes → Bytes → Bytes
with_fraction whole frac = if null frac then whole else whole ++ b'.' ∷ frac

-- the text of a number that is not negative, regrouped
unfoldable pub regroup : (min_frac : ℕ) → Bytes → Bytes
unfolding split_dot insert_commas trim_fraction
regroup min_frac s =
    let (i, f) = split_dot s in with_fraction (insert_commas i) (trim_fraction min_frac f)

module _ (fl : Float64) where
  open fl use {F, of_ℕ, add, sub, lt, parse, format_fixed}

  -- formatFloat
  unfoldable pub format_float : F → (min_frac max_frac : ℕ) → Bytes
  format_float amount min_frac max_frac =
      if lt amount (of_ℕ 0)
      then b'-' ∷ regroup min_frac (format_fixed (sub (of_ℕ 0) amount) max_frac)
      else regroup min_frac (format_fixed amount max_frac)

  abbrev displayed : Option F → Bytes
  displayed none = codes "0.00"
  displayed (some f) = format_float f 2 6

  -- FormatBalance
  unfoldable pub format_balance : Option ℤ → ℕ → Bytes
  format_balance raw decimals = displayed (parse (format_units raw decimals))

  -- FormatUSD
  unfoldable pub format_usd : F → Bytes
  format_usd amount = b'$' ∷ format_float amount 2 2

  -- ParseUSD
  unfoldable pub parse_usd : Bytes → Option F
  parse_usd s =
      let bare = remove_byte b',' (remove_byte b'$' s) in if null bare then none else parse bare

  -- one round of TotalUSD; the sum is `none` as long as nothing was parsed
  abbrev added : Option F → Option F → Option F
  added sum none = sum
  added none (some f) = some (add (of_ℕ 0) f)
  added (some t) (some f) = some (add t f)

  unfoldable pub total_from : Option F → List Bytes → Option F
  total_from sum [] = sum
  total_from sum (v ∷ values) = total_from (if null v then sum else added sum (parse_usd v)) values

  abbrev total_text : Option F → Bytes
  total_text none = []
  total_text (some t) = format_usd t

  -- TotalUSD
  unfoldable pub total_usd : List Bytes → Bytes
  unfolding total_from
  total_usd values = total_text (total_from none values)
