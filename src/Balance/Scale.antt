-- ===== src/Balance/Scale.antt =====
-- ParseUnits of one text at different numbers of decimals.
use Prim.Native.Nat.{◌^◌}
use native.Mathlib.Nat.{pow-suc}
use lazyswap.Prelude.{
  ℕ, zero, suc, ◌-◌, ◌*◌, ◌<◌, ◌≡◌, subst, sym, Bool, true, false, ◌++◌, arith, length,
}
use lazyswap.Prelude.Int.{ℤ, neg, IsPos}
use lazyswap.Prelude.Text.{Bytes}
use lazyswap.Prelude.Result.{ok}
use lazyswap.Balance.{signed, decimal_value, parse_units}
use lazyswap.Balance.Parse.{steps_iff, sign_of, int_of, frac_of}

pow_pos : (k : ℕ) → 0 < 10 ^ k
pow_pos zero = omega arith
pow_pos (suc k) = rw pow-suc (omega (arith, pow_pos k))

mul_pos : (n k : ℕ) → 0 < n → 0 < n * 10 ^ k
mul_pos n k h = grind (arith, pow_pos k)

pos_of_mul : (n k : ℕ) → 0 < n * k → 0 < n
pos_of_mul zero k h = absurd (omega arith)
pos_of_mul (suc n) k h = omega arith

rescale-IsPos :
    (sign : Bool) (n k j : ℕ) → IsPos (signed sign (n * 10 ^ k)) → IsPos (signed sign (n * 10 ^ j))
rescale-IsPos false n k j h = mul_pos n j (pos_of_mul n (10 ^ k) h)
rescale-IsPos true n k j h = absurd (never (n * 10 ^ k) h)
  where
    never : (m : ℕ) → IsPos (neg m) → ⊥
    never zero p = absurd (omega arith)
    never (suc m) p = absurd (omega arith)

-- A text that one number of decimals reads as a positive amount is positive at every other number
-- of decimals that accepts it.
pub parse_units-IsPos :
    (s : Bytes) (d e : ℕ) (v w : ℤ)
    → parse_units s d ≡ ok v
    → parse_units s e ≡ ok w
    → IsPos v
    → IsPos w
parse_units-IsPos s d e v w hv hw p =
    let at_d = (steps_iff s d v).0 hv in
    let at_e = (steps_iff s e w).0 hw in
    subst IsPos (sym at_e.value) (
      rescale-IsPos (sign_of s) (decimal_value 0 (int_of s ++ frac_of s)) (d - length (frac_of s))
        (e - length (frac_of s)) (subst IsPos at_d.value p))
