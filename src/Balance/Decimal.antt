-- ===== src/Balance/Decimal.antt =====
-- Decimal digits: what `digits` prints and `decimal_value` reads.
use Prim.Native.Nat.{◌^◌}
use native.Mathlib.Nat.{pow-suc}
use lazyswap.Prelude.{
  ℕ, zero, suc, ◌+◌, ◌-◌, ◌*◌, ◌/◌, ◌%◌, ◌<◌, ◌≡◌, refl, ◌∙◌, ap, Bool, true, false, [], ◌∷◌, ◌++◌,
  arith, ◌==◌, inl, inr, null, replicate, all, Bool-cases,
}
use lazyswap.Prelude.Text.{Bytes, trim_left}
use lazyswap.Balance.{is_digit, is_nought, digits_from, digits, decimal_value}

decimal_value-digits_from :
    (f n : ℕ) (out : Bytes) → n < f → decimal_value 0 (digits_from f n out) ≡ decimal_value n out
unfolding digits_from
decimal_value-digits_from zero n out h = elim h [ ]
decimal_value-digits_from (suc f) n out h = elim (Bool-cases (n == 0)) [
  | inl e ↦ rw e (ap (λ k. decimal_value k out) (ground arith))
  | inr e ↦ rw e (
      decimal_value-digits_from f (n / 10) ((b'0' + n % 10) ∷ out) (ground arith)
      ∙ (unfold decimal_value in ap (λ k. decimal_value k out) (omega arith)))
]

digits_from-digits :
    (f n : ℕ) (out : Bytes) → all is_digit out ≡ true → all is_digit (digits_from f n out) ≡ true
unfolding digits_from
digits_from-digits zero n out h = h
digits_from-digits (suc f) n out h =
    ground (arith, digits_from-digits f (n / 10) ((b'0' + n % 10) ∷ out))

pub decimal_value-digits : (n : ℕ) → decimal_value 0 (digits n) ≡ n
unfolding digits decimal_value
decimal_value-digits n = decimal_value-digits_from (suc n) n [] (omega arith)

pub all-digits : (n : ℕ) → all is_digit (digits n) ≡ true
unfolding digits
all-digits n = digits_from-digits (suc n) n [] refl

pub null-digits : (n : ℕ) → 0 < n → null (digits n) ≡ false
null-digits n h = null_of_value (digits n) (rw (decimal_value-digits n) h)
  where
    null_of_value : (s : Bytes) → 0 < decimal_value 0 s → null s ≡ false
    null_of_value [] k = unfold decimal_value in absurd (omega arith)
    null_of_value (c ∷ s) k = refl

pub decimal_value-append :
    (acc : ℕ) (s t : Bytes) → decimal_value acc (s ++ t) ≡ decimal_value (decimal_value acc s) t
unfolding decimal_value
decimal_value-append acc [] t = refl
decimal_value-append acc (c ∷ s) t = decimal_value-append (acc * 10 + (c - b'0')) s t

pub decimal_value-noughts : (acc k : ℕ) → decimal_value acc (replicate k b'0') ≡ acc * 10 ^ k
unfolding decimal_value
decimal_value-noughts acc zero = omega arith
decimal_value-noughts acc (suc k) =
    rw (decimal_value-noughts (acc * 10 + (b'0' - b'0')) k, pow-suc) (omega arith)

pub decimal_value-trim_left :
    (s : Bytes) → decimal_value 0 (trim_left is_nought s) ≡ decimal_value 0 s
unfolding decimal_value trim_left
decimal_value-trim_left [] = refl
decimal_value-trim_left (c ∷ s) = ground (arith, decimal_value-trim_left s)

pub all-trim_left :
    (p : ℕ → Bool) (s : Bytes) → all is_digit s ≡ true → all is_digit (trim_left p s) ≡ true
unfolding trim_left
all-trim_left p [] h = refl
all-trim_left p (c ∷ s) h = ground (arith, all-trim_left p s)
