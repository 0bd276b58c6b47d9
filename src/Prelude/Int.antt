-- ===== src/Prelude/Int.antt =====
-- Signed integers over the native numbers, under the library's names: the values of math/big.
use Prim.Native.Nat.{ℕ, suc, ◌<◌, ◌≤◌}
use lazyswap.Prelude.Tests.{ltb}
use mathlib.Core.Bool.{Bool, true, false}

-- `negsuc n` is -(n + 1).
pub data ℤ : Type 0 where
  pos : ℕ → ℤ
  negsuc : ℕ → ℤ

-- -n, as `big.Int.Neg` of a non-negative number
abbrev pub neg : ℕ → ℤ
neg ℕ.zero = pos 0
neg (suc n) = negsuc n

-- `v.Sign() > 0`
abbrev pub is_pos : ℤ → Bool
is_pos (pos n) = ltb 0 n
is_pos (negsuc n) = false

-- `v.Sign() == 0`
abbrev pub is_zero : ℤ → Bool
is_zero (pos ℕ.zero) = true
is_zero (pos (suc n)) = false
is_zero (negsuc n) = false

abbrev pub IsPos : ℤ → Type 0
IsPos (pos n) = 0 < n
IsPos (negsuc n) = 1 ≤ 0
