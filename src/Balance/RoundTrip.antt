-- ===== src/Balance/RoundTrip.antt =====
-- ParseUnits after FormatUnits.
use Prim.Native.Nat.{◌≤◌, ◌^◌}
use lazyswap.Prelude.{
  subst, ℕ, zero, suc, ◌-◌, ◌*◌, ◌≡◌, refl, ◌∙◌, ap, true, false, some, [], ◌∷◌, ◌++◌, arith, leb,
  if◌then◌else◌, length, null, take, drop, replicate, all, Bool-cases, inl, inr, length-append,
  length-replicate, all-append, all-replicate, all-take, all-drop, append-nil, append_assoc, sym,
  length-drop, take-append-drop, leb→le,
}
use lazyswap.Prelude.Int.{pos}
use lazyswap.Prelude.Text.{Bytes, trim_right}
use lazyswap.Prelude.Result.{ok}
use lazyswap.Balance.{
  is_digit, is_nought, decimal_value, digits, format_units, trim_trailing_zeros, parse_units,
}
use lazyswap.Balance.Decimal.{
  decimal_value-append, decimal_value-noughts, decimal_value-digits, all-digits, null-digits,
}
use lazyswap.Balance.Trim.{
  trim_trailing_zeros-parts, length-trim_right, all-trim_right, trim_right-restore,
}
use lazyswap.Balance.Parse.{parse_units_digits, parse_units_dotted}

-- Trailing zeros of the fraction carry no value.
value_trimmed :
    (i f : Bytes)
    → decimal_value 0 (i ++ trim_right is_nought f)
        * 10 ^ (length f - length (trim_right is_nought f))
      ≡ decimal_value 0 (i ++ f)
value_trimmed i f =
    sym (decimal_value-noughts _ _)
    ∙ sym (decimal_value-append 0 (i ++ trim_right is_nought f) _)
    ∙ ap (decimal_value 0) (append_assoc i _ _ ∙ ap (λ t. i ++ t) (trim_right-restore f))

null_eq : (s : Bytes) → null s ≡ true → s ≡ []
null_eq [] h = refl
null_eq (c ∷ s) h = cc

-- The text `i.f`, its trailing zeros trimmed, parses to the number whose digits are `i` and `f`.
parse_trimmed :
    (c : ℕ) (i f : Bytes)
    → all is_digit (c ∷ i) ≡ true
    → all is_digit f ≡ true
    → parse_units (trim_trailing_zeros (c ∷ i ++ b'.' ∷ f)) (length f)
      ≡ ok (pos (decimal_value 0 (c ∷ i ++ f)))
parse_trimmed c i f hi hf =
    rw (trim_trailing_zeros-parts c i f hi hf) (elim (Bool-cases (null (trim_right is_nought f))) [
      | inl e ↦ rw e (parse_units_digits c i (length f) hi ∙ ap (λ n. ok (pos n)) (whole e))
      | inr e ↦ rw e (
          parse_units_dotted c i (trim_right is_nought f) (length f) hi
            (all-trim_right is_digit is_nought f hf) (length-trim_right is_nought f)
          ∙ ap (λ n. ok (pos n)) (value_trimmed (c ∷ i) f))
    ])
  where
    whole :
        null (trim_right is_nought f) ≡ true
        → decimal_value 0 (c ∷ i) * 10 ^ length f ≡ decimal_value 0 (c ∷ i ++ f)
    whole e =
        ap (λ n. decimal_value 0 (c ∷ i) * 10 ^ n) (omega arith)
        ∙ ap (λ t. decimal_value 0 t * 10 ^ (length f - 0)) (sym (append-nil (c ∷ i)))
        ∙ (rw (null_eq (trim_right is_nought f) e) at (value_trimmed (c ∷ i) f))

value_nought : (t : Bytes) → decimal_value 0 (b'0' ∷ t) ≡ decimal_value 0 t
unfolding decimal_value
value_nought t = refl

-- The text that FormatUnits makes of the digits of a positive number.
placed : Bytes → ℕ → Bytes
placed str decimals =
    if leb (length str) decimals
    then trim_trailing_zeros (b'0' ∷ b'.' ∷ replicate (decimals - length str) b'0' ++ str)
    else (let int_part = take (length str - decimals) str in
        let frac_part = drop (length str - decimals) str in
        if null frac_part then int_part else trim_trailing_zeros (int_part ++ b'.' ∷ frac_part))

module _ (str : Bytes) (digital : all is_digit str ≡ true) (decimals : ℕ) where
  pad : Bytes
  pad = replicate (decimals - length str) b'0'

  -- All digits stand behind the dot.
  parse_below_one :
      length str ≤ decimals
      → parse_units (trim_trailing_zeros (b'0' ∷ b'.' ∷ (pad ++ str))) decimals
        ≡ ok (pos (decimal_value 0 str))
  unfolding pad
  parse_below_one h =
      subst
        (λ d.
          parse_units (trim_trailing_zeros (b'0' ∷ b'.' ∷ (pad ++ str))) d
          ≡ ok (pos (decimal_value 0 str)))
        (length-append pad str
          ∙ omega (arith, length-replicate {A = ℕ} (decimals - length str) b'0'))
        (parse_trimmed b'0' [] (pad ++ str) refl (
            all-append is_digit pad str (all-replicate is_digit (decimals - length str) b'0' refl)
              digital)
          ∙ ap (λ n. ok (pos n)) padded_value)
    where
      padded_value : decimal_value 0 (b'0' ∷ (pad ++ str)) ≡ decimal_value 0 str
      padded_value =
          value_nought (pad ++ str)
          ∙ decimal_value-append 0 pad str
          ∙ ap (λ n. decimal_value n str)
              (decimal_value-noughts 0 (decimals - length str) ∙ omega arith)

  -- The first `k + 1` digits stand before the dot.
  parse_split :
      (c : ℕ) (r : Bytes) (k : ℕ)
      → str ≡ c ∷ r
      → length (drop k r) ≡ decimals
      → parse_units (trim_trailing_zeros (c ∷ take k r ++ b'.' ∷ drop k r)) decimals
        ≡ ok (pos (decimal_value 0 str))
  parse_split c r k e len =
      subst
        (λ d.
          parse_units (trim_trailing_zeros (c ∷ take k r ++ b'.' ∷ drop k r)) d
          ≡ ok (pos (decimal_value 0 str)))
        len
        (parse_trimmed c (take k r) (drop k r) (all-take is_digit (suc k) (c ∷ r) (rw e at digital))
            (all-drop is_digit (suc k) (c ∷ r) (rw e at digital))
          ∙ ap (λ t. ok (pos (decimal_value 0 (c ∷ t)))) (take-append-drop k r)
          ∙ ap (λ t. ok (pos (decimal_value 0 t))) (sym e))

-- No digit stands behind the dot.
parse_whole :
    (c : ℕ) (r : Bytes) (k decimals : ℕ)
    → all is_digit (c ∷ r) ≡ true
    → length (drop k r) ≡ decimals
    → null (drop k r) ≡ true
    → parse_units (c ∷ take k r) decimals ≡ ok (pos (decimal_value 0 (c ∷ r)))
parse_whole c r k decimals digital len none_left =
    let kept : take k r ≡ r =
      sym (append-nil (take k r))
      ∙ ap (λ t. take k r ++ t) (sym (null_eq (drop k r) none_left))
      ∙ take-append-drop k r in
    let exact : decimals ≡ 0 = sym len ∙ ap length (null_eq (drop k r) none_left) in
    rw (kept, exact) (parse_units_digits c r 0 digital ∙ ap (λ n. ok (pos n)) (omega arith))

parse_placed :
    (str : Bytes) (decimals : ℕ)
    → all is_digit str ≡ true
    → null str ≡ false
    → parse_units (placed str decimals) decimals ≡ ok (pos (decimal_value 0 str))
unfolding placed pad
parse_placed [] decimals digital shown = cc
parse_placed (c ∷ r) decimals digital shown = elim (Bool-cases (leb (suc (length r)) decimals)) [
  | inl e ↦ rw e (parse_below_one (c ∷ r) digital decimals (leb→le _ _ e))
  | inr e ↦
      let k : ℕ = length r - decimals in
      let le : decimals ≤ length r = ground arith in
      let shift : suc (length r) - decimals ≡ suc k = omega arith in
      let len : length (drop k r) ≡ decimals = omega (arith, length-drop k r) in
      rw e (
        rw shift (elim (Bool-cases (null (drop k r))) [
          | inl n ↦ rw n (parse_whole c r k decimals digital len n)
          | inr n ↦ rw n (parse_split (c ∷ r) digital decimals c r k refl len)
        ]))
]

-- The text that FormatUnits makes of a natural number of raw units parses back to that number, for
-- every number of decimals.
pub parse_units-format_units :
    (n decimals : ℕ) → parse_units (format_units (some (pos n)) decimals) decimals ≡ ok (pos n)
unfolding format_units placed
parse_units-format_units zero decimals =
    parse_units_digits b'0' [] decimals refl
    ∙ (unfold decimal_value in ap (λ k. ok (pos k)) (omega arith))
parse_units-format_units (suc n) decimals =
    parse_placed (digits (suc n)) decimals (all-digits (suc n)) (null-digits (suc n) (omega arith))
    ∙ ap (λ k. ok (pos k)) (decimal_value-digits (suc n))
