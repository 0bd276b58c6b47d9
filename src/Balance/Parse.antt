-- ===== src/Balance/Parse.antt =====
-- What ParseUnits accepts, and the number it returns.
use Prim.Native.Nat.{◌≤◌, ◌^◌}
use lazyswap.Prelude.{
  ℕ, ◌-◌, ◌*◌, ◌≡◌, refl, ◌∙◌, ap, Bool, true, false, ◌||◌, [], ◌∷◌, ◌++◌, arith, ◌==◌,
  if◌then◌else◌, length, null, replicate, all, Bool-cases, inl, inr, le→ltb_false, all-append,
  all-replicate, and_split, append-nil, sym, ap₂, ◌↔◌,
}
use lazyswap.Prelude.Int.{ℤ, pos}
use lazyswap.Prelude.Text.{Bytes, is_graphic, trim_left, trim_space, trim_space-graphic}
use lazyswap.Prelude.Result.{Result, ok, err}
use lazyswap.Balance.{
  is_digit, is_nought, UnitsError, empty_input, split_dot, decimal_value, set_string, signed,
  with_sign, take_sign, or_nought, parse_parts, parse_units,
}
use lazyswap.Balance.Decimal.{
  decimal_value-append, decimal_value-noughts, decimal_value-trim_left, all-trim_left,
}

abbrev is_plain : ℕ → Bool
is_plain c = is_digit c || c == b'.'

graphic_of_plain : (s : Bytes) → all is_plain s ≡ true → all is_graphic s ≡ true
graphic_of_plain [] h = refl
graphic_of_plain (c ∷ s) h = ground (arith, graphic_of_plain s)

trim_space-plain : (s : Bytes) → all is_plain s ≡ true → trim_space s ≡ s
trim_space-plain s h = trim_space-graphic s (graphic_of_plain s h)

plain_of_digits : (s : Bytes) → all is_digit s ≡ true → all is_plain s ≡ true
plain_of_digits [] h = refl
plain_of_digits (c ∷ s) h = ground (arith, plain_of_digits s)

pub split_dot-digits : (s : Bytes) → all is_digit s ≡ true → split_dot s ≡ (s, [])
unfolding split_dot
split_dot-digits [] h = refl
split_dot-digits (c ∷ s) h = ground (arith, split_dot-digits s)

pub split_dot-append : (i f : Bytes) → all is_digit i ≡ true → split_dot (i ++ b'.' ∷ f) ≡ (i, f)
unfolding split_dot
split_dot-append [] f h = refl
split_dot-append (c ∷ i) f h = ground (arith, split_dot-append i f)

-- A text of zeros is trimmed away, and what it writes is zero.
value_of_null : (s : Bytes) → null (trim_left is_nought s) ≡ true → decimal_value 0 s ≡ 0
unfolding trim_left decimal_value
value_of_null [] h = refl
value_of_null (c ∷ s) h = ground (arith, value_of_null s)

neg_zero : (sign : Bool) → signed sign 0 ≡ pos 0
neg_zero true = refl
neg_zero false = refl

-- The digits with the missing zeros appended are the value in units of 10 ^ -decimals.
value_padded :
    (i f : Bytes) (k : ℕ)
    → decimal_value 0 (i ++ f ++ replicate k b'0') ≡ decimal_value 0 (i ++ f) * 10 ^ k
value_padded i f k =
    decimal_value-append 0 (i ++ f) (replicate k b'0')
    ∙ decimal_value-noughts (decimal_value 0 (i ++ f)) k

-- The end of ParseUnits: leading zeros go, and what is left is read as a number.
parse_digits : Bool → Bytes → Result UnitsError ℤ
parse_digits sign s =
    let combined = trim_left is_nought s in
    if null combined then ok (pos 0) else with_sign sign (set_string combined)

parse_digits-value :
    (sign : Bool) (s : Bytes)
    → all is_digit s ≡ true
    → parse_digits sign s ≡ ok (signed sign (decimal_value 0 s))
unfolding parse_digits set_string
parse_digits-value sign s h = elim (Bool-cases (null (trim_left is_nought s))) [
  | inl e ↦ rw (e, value_of_null s e) (ap ok (sym (neg_zero sign)))
  | inr e ↦
      rw (e, all-trim_left is_nought s h) (ap (λ n. ok (signed sign n)) (decimal_value-trim_left s))
]

pub parse_parts-digits :
    (sign : Bool) (i f : Bytes) (decimals : ℕ)
    → all is_digit i ≡ true
    → all is_digit f ≡ true
    → length f ≤ decimals
    → parse_parts sign i f decimals
      ≡ ok (signed sign (decimal_value 0 (i ++ f) * 10 ^ (decimals - length f)))
unfolding parse_parts parse_digits
parse_parts-digits sign i f decimals hi hf hl =
    rw (hi, hf, le→ltb_false _ _ hl)
      (parse_digits-value sign (i ++ f ++ replicate (decimals - length f) b'0') (
          all-append is_digit (i ++ f) (replicate (decimals - length f) b'0')
            (all-append is_digit i f hi hf)
            (all-replicate is_digit (decimals - length f) b'0' refl))
        ∙ ap (λ n. ok (signed sign n)) (value_padded i f (decimals - length f)))

-- The sign, the integer part and the fraction that a text shows, by the rules of ParseUnits.
abbrev pub sign_of : Bytes → Bool
sign_of s = (take_sign (trim_space s)).0

abbrev pub int_of : Bytes → Bytes
int_of s = or_nought (split_dot (take_sign (trim_space s)).1).0

abbrev pub frac_of : Bytes → Bytes
frac_of s = (split_dot (take_sign (trim_space s)).1).1

-- `v` by the steps of ParseUnits
pub record IsParsed (s : Bytes) (decimals : ℕ) (v : ℤ) : Type 0 where
  pub shown : null (trim_space s) ≡ false
  pub int_digits : all is_digit (int_of s) ≡ true
  pub frac_digits : all is_digit (frac_of s) ≡ true
  pub fits : length (frac_of s) ≤ decimals
  pub value :
      v
      ≡ signed
          (sign_of s)
          (decimal_value 0 (int_of s ++ frac_of s) * 10 ^ (decimals - length (frac_of s)))

ok_injective : {v w : ℤ} → ◌≡◌ {A = Result UnitsError ℤ} (ok v) (ok w) → v ≡ w
ok_injective h = cc

parse_parts-ok :
    (sign : Bool) (i f : Bytes) (decimals : ℕ) {v : ℤ}
    → parse_parts sign i f decimals ≡ ok v
    → (all is_digit i ≡ true) × (all is_digit f ≡ true) × (length f ≤ decimals)
unfolding parse_parts
parse_parts-ok sign i f decimals h = ground arith

not_empty :
    (b : Bool) (m : Result UnitsError ℤ) {v : ℤ}
    → (if b then err empty_input else m) ≡ ok v
    → (b ≡ false) × (m ≡ ok v)
not_empty true m h = cc
not_empty false m h = (refl, h)

IsParsed-of_ok :
    (s : Bytes) (decimals : ℕ) (v : ℤ) → parse_units s decimals ≡ ok v → IsParsed s decimals v
unfolding parse_units
IsParsed-of_ok s decimals v h =
    let (shown, e) =
      not_empty (null (trim_space s)) (parse_parts (sign_of s) (int_of s) (frac_of s) decimals) h in
    let (hi, hf, hl) = parse_parts-ok (sign_of s) (int_of s) (frac_of s) decimals e in
    record {
      shown = shown;
      int_digits = hi;
      frac_digits = hf;
      fits = hl;
      value =
          ok_injective
            (sym e ∙ parse_parts-digits (sign_of s) (int_of s) (frac_of s) decimals hi hf hl);
    }

ok_of_IsParsed :
    (s : Bytes) (decimals : ℕ) (v : ℤ) → IsParsed s decimals v → parse_units s decimals ≡ ok v
unfolding parse_units
ok_of_IsParsed s decimals v u = rw (u.shown) (
    parse_parts-digits (sign_of s) (int_of s) (frac_of s) decimals u.int_digits u.frac_digits u.fits
    ∙ ap ok (sym u.value))

pub steps_iff :
    (s : Bytes) (decimals : ℕ) (v : ℤ) → (parse_units s decimals ≡ ok v) ↔ IsParsed s decimals v
steps_iff s decimals v = (IsParsed-of_ok s decimals v, ok_of_IsParsed s decimals v)

parse_units_of_split :
    (s i f : Bytes) (decimals : ℕ)
    → null s ≡ false
    → trim_space s ≡ s
    → take_sign s ≡ (false, s)
    → split_dot s ≡ (i, f)
    → parse_units s decimals ≡ parse_parts false (or_nought i) f decimals
unfolding parse_units
parse_units_of_split s i f decimals shown trimmed unsigned split =
    rw (trimmed, shown, unsigned, split)

take_sign-digit : (c : ℕ) (s : Bytes) → is_digit c ≡ true → take_sign (c ∷ s) ≡ (false, c ∷ s)
take_sign-digit c s h = ground arith

-- A text of digits with no dot.
pub parse_units_digits :
    (c : ℕ) (i : Bytes) (decimals : ℕ)
    → all is_digit (c ∷ i) ≡ true
    → parse_units (c ∷ i) decimals ≡ ok (pos (decimal_value 0 (c ∷ i) * 10 ^ decimals))
parse_units_digits c i decimals h =
    parse_units_of_split (c ∷ i) (c ∷ i) [] decimals refl
      (trim_space-plain (c ∷ i) (plain_of_digits (c ∷ i) h))
      (take_sign-digit c i (and_split _ _ h).0) (split_dot-digits (c ∷ i) h)
    ∙ parse_parts-digits false (c ∷ i) [] decimals h refl (omega arith)
    ∙ ap₂ (λ t n. ok (pos (decimal_value 0 t * 10 ^ n))) (append-nil (c ∷ i)) (omega arith)

-- Digits, a dot, digits.
pub parse_units_dotted :
    (c : ℕ) (i f : Bytes) (decimals : ℕ)
    → all is_digit (c ∷ i) ≡ true
    → all is_digit f ≡ true
    → length f ≤ decimals
    → parse_units (c ∷ i ++ b'.' ∷ f) decimals
      ≡ ok (pos (decimal_value 0 (c ∷ i ++ f) * 10 ^ (decimals - length f)))
parse_units_dotted c i f decimals hi hf hl =
    parse_units_of_split (c ∷ i ++ b'.' ∷ f) (c ∷ i) f decimals refl
      (trim_space-plain (c ∷ i ++ b'.' ∷ f) (
        all-append is_plain (c ∷ i) (b'.' ∷ f) (plain_of_digits (c ∷ i) hi) (plain_of_digits f hf)))
      (take_sign-digit c (i ++ b'.' ∷ f) (and_split _ _ hi).0) (split_dot-append (c ∷ i) f hi)
    ∙ parse_parts-digits false (c ∷ i) f decimals hi hf hl
