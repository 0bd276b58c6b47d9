-- ===== src/Swap/Quote/Minimum.antt =====
-- What minOutputFor returns, and for which quotes.
use lazyswap.Prelude.{
  Bool-cases, Option, arith, inl, inr, ltb, none, refl, some, ℕ, ◌<◌, ◌∙◌, ◌≡◌, ◌≤◌, ◌↔◌, ◌⊎◌,
  subst, sym, true, if◌then◌else◌, ap,
}
use lazyswap.Prelude.Int.{ℤ, IsPos, is_pos, negsuc, pos}
use lazyswap.Prelude.Result.{Result, err, map_err, ok}
use lazyswap.Prelude.Text.{Bytes}
use lazyswap.Balance.{UnitsError, parse_units}
use lazyswap.Error.{units}
use lazyswap.Float.{Float64}
use lazyswap.Swap.Quote.{
  checked_output, max_min_output_precision, min_output_for, min_output_of, reduced,
}

sign_iff : (v : ℤ) → (is_pos v ≡ true) ↔ IsPos v
sign_iff (pos n) = ((λ h. ground (arith, h)), (λ h. ground (arith, h)))
sign_iff (negsuc n) = ((λ h. cc), (λ h. absurd (omega (arith, h))))

-- the digits that are printed: those of the token, but at most eight
abbrev printed_digits : ℕ → ℕ
printed_digits decimals =
    if ltb max_min_output_precision decimals then max_min_output_precision else decimals

module _ (fl : Float64) where
  open fl use {F, div, format_fixed, mul, of_ℕ, parse, sub}

  -- The least output of a quote: the estimate less the slippage, printed with the decimals of the
  -- token or with eight digits where it has more, which the same decimals read as a positive number
  -- of units.
  pub record IsMinimum (estimated : Bytes) (slippage : F) (decimals : ℕ) (t : Bytes) : Type 0 where
    pub estimate : F
    pub parsed : parse estimated ≡ some estimate
    pub digits : ℕ
    pub capped : ((decimals ≤ 8) × (digits ≡ decimals)) ⊎ ((8 < decimals) × (digits ≡ 8))
    pub printed : t ≡ format_fixed (mul estimate (sub (of_ℕ 1) (div slippage (of_ℕ 100)))) digits
    pub amount : ℤ
    pub read : parse_units t decimals ≡ ok amount
    pub positive : IsPos amount

  capped_digits :
      (decimals : ℕ)
      → ((decimals ≤ 8) × (printed_digits decimals ≡ decimals))
        ⊎ ((8 < decimals) × (printed_digits decimals ≡ 8))
  capped_digits decimals = ground arith

  digits_unique :
      (digits decimals : ℕ)
      → ((decimals ≤ 8) × (digits ≡ decimals)) ⊎ ((8 < decimals) × (digits ≡ 8))
      → digits ≡ printed_digits decimals
  digits_unique digits decimals h = ground (arith, h)

  checked_ok :
      (s t : Bytes) (r : Result UnitsError ℤ)
      → checked_output fl s (map_err units r) ≡ ok t
      → (s ≡ t) × (v : ℤ) × (r ≡ ok v) × IsPos v
  checked_ok s t (err x) h = cc
  checked_ok s t (ok v) h = elim (Bool-cases (is_pos v)) [
    | inl p ↦ (ground (arith, h, p), v, refl, (sign_iff v).0 p)
    | inr p ↦ absurd (ground (arith, h, p))
  ]

  of_estimate :
      (estimated t : Bytes) (slippage : F) (decimals : ℕ) (o : Option F)
      → parse estimated ≡ o
      → min_output_of fl estimated o slippage decimals ≡ ok t
      → IsMinimum estimated slippage decimals t
  of_estimate estimated t slippage decimals none e h = cc
  of_estimate estimated t slippage decimals (some est) e h =
      let s = reduced fl est slippage decimals in
      let (same, v, read, positive) = checked_ok s t (parse_units s decimals) h in
      record {
        estimate = est;
        parsed = e;
        digits = printed_digits decimals;
        capped = capped_digits decimals;
        printed = sym same;
        amount = v;
        read = subst (λ u. parse_units u decimals ≡ ok v) same read;
        positive = positive;
      }

  to_result :
      (estimated t : Bytes) (slippage : F) (decimals : ℕ)
      → (m : IsMinimum estimated slippage decimals t)
      → min_output_of fl estimated (some m.estimate) slippage decimals ≡ ok t
  to_result estimated t slippage decimals m =
      let s = reduced fl m.estimate slippage decimals in
      let same : t ≡ s =
        m.printed
        ∙ ap (format_fixed (mul m.estimate (sub (of_ℕ 1) (div slippage (of_ℕ 100)))))
            (digits_unique m.digits decimals m.capped) in
      subst (λ u. checked_output fl u (map_err units (parse_units u decimals)) ≡ ok t) same
        (rw m.read (rw ((sign_iff m.amount).1 m.positive) refl))

  -- minOutputFor returns a figure exactly where it is the least output of the quote: reduced by the
  -- slippage, printed in the precision of the token up to eight digits, and read back in that
  -- token's decimals as a positive amount.
  pub min_output_for-IsMinimum :
      (estimated t : Bytes) (slippage : F) (decimals : ℕ)
      → (min_output_for fl estimated slippage decimals ≡ ok t)
        ↔ IsMinimum estimated slippage decimals t
  unfolding min_output_for
  min_output_for-IsMinimum estimated t slippage decimals = (
    (λ h. of_estimate estimated t slippage decimals (parse estimated) refl h),
    (λ m.
        subst (λ o. min_output_of fl estimated o slippage decimals ≡ ok t) (sym m.parsed)
          (to_result estimated t slippage decimals m)),
  )
