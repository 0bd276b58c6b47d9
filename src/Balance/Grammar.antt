-- ===== src/Balance/Grammar.antt =====
-- The texts that ParseUnits accepts, and what they are worth.
use Prim.Native.Nat.{◌≤◌, ◌^◌}
use native.Mathlib.Nat.{pow-suc}
use lazyswap.Prelude.{
  Bool, Bool-cases, [], all, ap, arith, false, if◌then◌else◌, inl, inr, length, refl, subst, sym,
  true, null, ℕ, ◌*◌, ◌+◌, ◌++◌, ◌-◌, ◌==◌, ◌∙◌, ◌∷◌, ◌≡◌, ◌≢◌, ◌↔◌, ◌⊎◌, append-nil,
}
use lazyswap.Prelude.Int.{ℤ, neg, pos}
use lazyswap.Prelude.Result.{ok}
use lazyswap.Prelude.Text.{Bytes, trim_space}
use lazyswap.Balance.{decimal_value, is_digit, or_nought, parse_units, signed, split_dot, take_sign}
use lazyswap.Balance.Parse.{
  IsParsed, frac_of, int_of, sign_of, steps_iff, split_dot-append, split_dot-digits,
}

-- the number of a text of digits, each at the power of ten of its place
pub place_value : Bytes → ℕ
place_value [] = 0
place_value (c ∷ s) = (c - b'0') * 10 ^ length s + place_value s

abbrev pub minus : Bool → Bytes
minus true = b'-' ∷ []
minus false = []

-- A text reads as `v` units of 10 ^ -decimals: between white space it is a minus or none, digits
-- `whole`, and, where there is a point, digits `frac` behind it, at most `decimals` of them. It is not
-- empty, but digits may be missing on both sides of the point: "-" and "." are nought.
pub record IsUnits (s : Bytes) (decimals : ℕ) (v : ℤ) : Type 0 where
  pub negative : Bool
  pub whole : Bytes
  pub frac : Bytes
  pub text :
      ((trim_space s ≡ minus negative ++ whole) × (frac ≡ []))
      ⊎ (trim_space s ≡ minus negative ++ (whole ++ b'.' ∷ frac))
  pub shown : trim_space s ≢ []
  pub whole_digits : all is_digit whole ≡ true
  pub frac_digits : all is_digit frac ≡ true
  pub fits : length frac ≤ decimals
  pub value :
      let n = place_value (whole ++ frac) * 10 ^ (decimals - length frac) in
      v ≡ (if negative then neg n else pos n)

decimal_value-place :
    (acc : ℕ) (s : Bytes) → decimal_value acc s ≡ acc * 10 ^ length s + place_value s
unfolding decimal_value place_value
decimal_value-place acc [] = omega arith
decimal_value-place acc (c ∷ s) =
    decimal_value-place (acc * 10 + (c - b'0')) s
    ∙ rw pow-suc (distribute acc (c - b'0') (10 ^ length s) (place_value s))
  where
    distribute : (a d p v : ℕ) → (a * 10 + d) * p + v ≡ a * (p * 10) + (d * p + v)
    distribute a d p v = grind arith

decimal_value-start : (s : Bytes) → decimal_value 0 s ≡ place_value s
decimal_value-start s = decimal_value-place 0 s ∙ omega arith

signed-if : (b : Bool) (n : ℕ) → signed b n ≡ (if b then neg n else pos n)
signed-if true n = refl
signed-if false n = refl

take_sign-text : (t : Bytes) → t ≡ minus (take_sign t).0 ++ (take_sign t).1
take_sign-text [] = refl
take_sign-text (c ∷ s) = elim (Bool-cases (c == b'-')) [
  | inl e ↦ rw e (ap (λ d. d ∷ s) (ground (arith, e)))
  | inr e ↦ rw e refl
]

split_dot-text :
    (t : Bytes)
    → ((t ≡ (split_dot t).0) × ((split_dot t).1 ≡ []))
      ⊎ (t ≡ (split_dot t).0 ++ b'.' ∷ (split_dot t).1)
unfolding split_dot
split_dot-text [] = inl (refl, refl)
split_dot-text (c ∷ s) = elim (Bool-cases (c == b'.')) [
  | inl e ↦ rw e (inr (ap (λ d. d ∷ s) (ground (arith, e))))
  | inr e ↦ rw e (elim (split_dot-text s) [
    | inl (same, none_left) ↦ inl (ap (λ t. c ∷ t) same, none_left)
    | inr same ↦ inr (ap (λ t. c ∷ t) same)
  ])
]

-- the zero that stands for missing digits changes neither
or_nought-digits : (i : Bytes) → (all is_digit (or_nought i) ≡ true) ↔ (all is_digit i ≡ true)
or_nought-digits [] = ((λ h. refl), (λ h. refl))
or_nought-digits (c ∷ i) = ((λ h. h), (λ h. h))

or_nought-value : (i f : Bytes) → place_value (or_nought i ++ f) ≡ place_value (i ++ f)
unfolding place_value
or_nought-value [] f = omega arith
or_nought-value (c ∷ i) f = refl

not_null : (t : Bytes) → (null t ≡ false) ↔ (t ≢ [])
not_null [] = ((λ h. cc), (λ h. absurd (h refl)))
not_null (c ∷ t) = ((λ h e. cc), (λ h. refl))

take_sign-unsigned :
    (b : Bool) (t : Bytes) → (take_sign t).0 ≡ false → take_sign (minus b ++ t) ≡ (b, t)
take_sign-unsigned true t h = refl
take_sign-unsigned false [] h = refl
take_sign-unsigned false (c ∷ t) h = ground (arith, h)

digits_unsigned :
    (i t : Bytes) → all is_digit i ≡ true → (take_sign t).0 ≡ false → (take_sign (i ++ t)).0 ≡ false
digits_unsigned [] t h k = k
digits_unsigned (c ∷ i) t h k = ground (arith, h)

to_units : (s : Bytes) (decimals : ℕ) (v : ℤ) → IsParsed s decimals v → IsUnits s decimals v
to_units s decimals v u = record {
  negative = sign_of s;
  whole = i;
  frac = frac_of s;
  text = written (split_dot-text rest);
  shown = (not_null (trim_space s)).0 u.shown;
  whole_digits = (or_nought-digits i).0 u.int_digits;
  frac_digits = u.frac_digits;
  fits = u.fits;
  value =
      u.value
      ∙ ap (λ n. signed (sign_of s) (n * 10 ^ (decimals - length (frac_of s))))
          (decimal_value-start (int_of s ++ frac_of s) ∙ or_nought-value i (frac_of s))
      ∙ signed-if (sign_of s) _;
}
  where
    rest : Bytes
    rest = (take_sign (trim_space s)).1

    i : Bytes
    i = (split_dot rest).0

    written :
        ((rest ≡ i) × (frac_of s ≡ [])) ⊎ (rest ≡ i ++ b'.' ∷ frac_of s)
        → ((trim_space s ≡ minus (sign_of s) ++ i) × (frac_of s ≡ []))
          ⊎ (trim_space s ≡ minus (sign_of s) ++ (i ++ b'.' ∷ frac_of s))
    written (inl (same, none_left)) =
        inl (take_sign-text (trim_space s) ∙ ap (λ r. minus (sign_of s) ++ r) same, none_left)
    written (inr same) = inr (take_sign-text (trim_space s) ∙ ap (λ r. minus (sign_of s) ++ r) same)

-- The parts of a text are those that ParseUnits finds.
record Found (s : Bytes) (negative : Bool) (whole frac : Bytes) : Type 0 where
  rest : Bytes
  signed_rest : take_sign (trim_space s) ≡ (negative, rest)
  parts : split_dot rest ≡ (whole, frac)

found :
    (s : Bytes) (b : Bool) (i f : Bytes)
    → ((trim_space s ≡ minus b ++ i) × (f ≡ [])) ⊎ (trim_space s ≡ minus b ++ (i ++ b'.' ∷ f))
    → all is_digit i ≡ true
    → Found s b i f
found s b i f (inl (same, none_left)) h = record {
  rest = i;
  signed_rest =
      ap take_sign same
      ∙ take_sign-unsigned b i
          (subst (λ t. (take_sign t).0 ≡ false) (append-nil i) (digits_unsigned i [] h refl));
  parts = split_dot-digits i h ∙ ap (λ (t : Bytes). (i, t)) (sym none_left);
}
found s b i f (inr same) h = record {
  rest = i ++ b'.' ∷ f;
  signed_rest =
      ap take_sign same
      ∙ take_sign-unsigned b (i ++ b'.' ∷ f) (digits_unsigned i (b'.' ∷ f) h refl);
  parts = split_dot-append i f h;
}

abbrev Parts : Type 0
Parts = Bool × Bytes × Bytes

of_units : (s : Bytes) (decimals : ℕ) (v : ℤ) → IsUnits s decimals v → IsParsed s decimals v
of_units s decimals v u =
    let w = found s u.negative u.whole u.frac u.text u.whole_digits in
    let same : (u.negative, or_nought u.whole, u.frac) ≡ (sign_of s, int_of s, frac_of s) = sym (
      ap (λ (x : Bool × Bytes). (x.0, or_nought (split_dot x.1).0, (split_dot x.1).1)) w.signed_rest
      ∙ ap (λ (y : Bytes × Bytes). (u.negative, or_nought y.0, y.1)) w.parts) in
    record {
      shown = (not_null (trim_space s)).1 u.shown;
      int_digits =
          subst (λ (q : Parts). all is_digit q.1 ≡ true) same
            ((or_nought-digits u.whole).1 u.whole_digits);
      frac_digits = subst (λ (q : Parts). all is_digit q.2 ≡ true) same u.frac_digits;
      fits = subst (λ (q : Parts). length q.2 ≤ decimals) same u.fits;
      value =
          subst
            (λ (q : Parts).
              v ≡ signed q.0 (decimal_value 0 (q.1 ++ q.2) * 10 ^ (decimals - length q.2)))
            same
            (u.value
              ∙ sym (signed-if u.negative _)
              ∙ ap (λ n. signed u.negative (n * 10 ^ (decimals - length u.frac)))
                  (sym (
                    decimal_value-start (or_nought u.whole ++ u.frac)
                    ∙ or_nought-value u.whole u.frac)));
    }

-- ParseUnits returns `v` exactly where the text reads as `v` units: an optional minus, digits, and
-- at most `decimals` digits behind a point, white space around them.
pub parse_units_iff :
    (s : Bytes) (decimals : ℕ) (v : ℤ) → (parse_units s decimals ≡ ok v) ↔ IsUnits s decimals v
parse_units_iff s decimals v = (
  (λ h. to_units s decimals v ((steps_iff s decimals v).0 h)),
  (λ u. (steps_iff s decimals v).1 (of_units s decimals v u)),
)
