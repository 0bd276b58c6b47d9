-- ===== src/Float.antt =====
-- Go's float64 and the functions of strconv on it, as an interface. The program compares, scales,
-- prints and parses floats; nothing in the development depends on how they round, but where a law
-- of the interface is named as a hypothesis.
use lazyswap.Prelude.{ℕ, ◌+◌, ◌-◌, ◌≤◌, ◌^◌, ◌≡◌, Bool, Option, some, ltb, leb}
use lazyswap.Prelude.Int.{ℤ}
use lazyswap.Prelude.Text.{Bytes}

pub record Float64 : Type 1 where
  pub F : Type 0
  -- an integer constant of the source
  pub of_ℕ : ℕ → F
  -- float64(i), rounded where it is not exact
  pub of_ℤ : ℤ → F
  -- the constant 0.5
  pub half : F
  pub add : F → F → F
  pub sub : F → F → F
  pub mul : F → F → F
  pub div : F → F → F
  -- `a < b` and `a <= b`, both false where an operand is not a number
  pub lt : F → F → Bool
  pub le : F → F → Bool
  -- math.Floor(f)
  pub floor : F → F
  -- int(f), int64(f)
  pub to_int : F → ℤ
  -- strconv.ParseFloat(s, 64); `none` is its error, beside which it returns zero for all texts but
  -- those of numbers above 1.8e308, which no token amount of 256 bits reaches
  pub parse : Bytes → Option F
  -- strconv.FormatFloat(x, 'f', prec, 64) and strconv.FormatFloat(x, 'f', -1, 64)
  pub format_fixed : F → ℕ → Bytes
  pub format_shortest : F → Bytes

-- What strconv documents of the precision -1: the text parses back to the number.
pub record HasShortest (fl : Float64) : Type 0 where
  pub round_trip : (x : fl.F) → fl.parse (fl.format_shortest x) ≡ some x

-- What IEEE 754 says of whole numbers up to 2 ^ 53: they are represented exactly, and so are their
-- sums and differences; comparisons of exact numbers are those of the numbers.
pub record HasWholeNumbers (fl : Float64) : Type 0 where
  pub add_whole : (m n : ℕ) → m + n ≤ 2 ^ 53 → fl.add (fl.of_ℕ m) (fl.of_ℕ n) ≡ fl.of_ℕ (m + n)
  pub sub_whole : (m n : ℕ) → n ≤ m → m ≤ 2 ^ 53 → fl.sub (fl.of_ℕ m) (fl.of_ℕ n) ≡ fl.of_ℕ (m - n)
  pub lt_whole : (m n : ℕ) → m ≤ 2 ^ 53 → n ≤ 2 ^ 53 → fl.lt (fl.of_ℕ m) (fl.of_ℕ n) ≡ ltb m n
  pub le_whole : (m n : ℕ) → m ≤ 2 ^ 53 → n ≤ 2 ^ 53 → fl.le (fl.of_ℕ m) (fl.of_ℕ n) ≡ leb m n
