-- ===== src/Balance/Trim.antt =====
-- Trimming: trailing zeros, the last dot, and white space.
use Prim.Native.Nat.{◌≤◌}
use lazyswap.Prelude.{
  Bool-cases, inl, inr, append_assoc, ℕ, suc, ◌-◌, ◌≡◌, refl, ap, Bool, true, ◌&&◌, [], ◌∷◌, ◌++◌,
  arith, ◌==◌, if◌then◌else◌, length, null, replicate, all,
}
use lazyswap.Prelude.Text.{Bytes, trim_right}
use lazyswap.Balance.{is_digit, is_nought, contains_dot, trim_suffix_dot, trim_trailing_zeros}

pub length-trim_right : (p : ℕ → Bool) (s : Bytes) → length (trim_right p s) ≤ length s
unfolding trim_right
length-trim_right p [] = omega arith
length-trim_right p (c ∷ s) = ground (arith, length-trim_right p s)

pub all-trim_right : (q p : ℕ → Bool) (s : Bytes) → all q s ≡ true → all q (trim_right p s) ≡ true
unfolding trim_right
all-trim_right q p [] h = refl
all-trim_right q p (c ∷ s) h = ground (arith, all-trim_right q p s)

zero_off : (n : ℕ) → n - 0 ≡ n
zero_off n = omega arith

one_off : (n : ℕ) → suc n - 1 ≡ n
one_off n = omega arith

suc_off : (n k : ℕ) → suc n - suc k ≡ n - k
suc_off n k = omega arith

noughts : ℕ → Bytes
noughts k = replicate k b'0'

restore_cons :
    (c : ℕ) (r s : Bytes)
    → length r ≤ length s
    → r ++ noughts (length s - length r) ≡ s
    → (if is_nought c && null r then [] else c ∷ r)
        ++ noughts (suc (length s) - length (if is_nought c && null r then [] else c ∷ r))
      ≡ c ∷ s
unfolding noughts
restore_cons c [] s l h = elim (Bool-cases (is_nought c)) [
  | inl e ↦ rw e (rw (zero_off (suc (length s))) (ground (arith, zero_off (length s), h)))
  | inr e ↦ rw e (rw (one_off (length s)) (ap (λ t. c ∷ t) (rw (zero_off (length s)) at h)))
]
restore_cons c (x ∷ r) s l h = elim (Bool-cases (is_nought c)) [
  | inl e ↦ rw e (rw (suc_off (length s) (suc (length r))) (ap (λ t. c ∷ t) h))
  | inr e ↦ rw e (rw (suc_off (length s) (suc (length r))) (ap (λ t. c ∷ t) h))
]

-- What the trim takes off the right are zeros: with as many put back the text is as before.
pub trim_right-restore :
    (s : Bytes)
    → trim_right is_nought s ++ replicate (length s - length (trim_right is_nought s)) b'0' ≡ s
unfolding trim_right noughts
trim_right-restore [] = refl
trim_right-restore (c ∷ s) =
    restore_cons c (trim_right is_nought s) s (length-trim_right is_nought s) (trim_right-restore s)

pub trim_right-append_dot :
    (i f : Bytes) → trim_right is_nought (i ++ b'.' ∷ f) ≡ i ++ b'.' ∷ trim_right is_nought f
unfolding trim_right
trim_right-append_dot [] f = refl
trim_right-append_dot (c ∷ []) f = ground arith
trim_right-append_dot (c ∷ d ∷ i) f = rw (trim_right-append_dot (d ∷ i) f) (ground arith)

pub contains_dot-append : (i f : Bytes) → contains_dot (i ++ b'.' ∷ f) ≡ true
unfolding contains_dot
contains_dot-append [] f = refl
contains_dot-append (c ∷ i) f = ground (arith, contains_dot-append i f)

trim_suffix_dot-append : (i : Bytes) → trim_suffix_dot (i ++ b'.' ∷ []) ≡ i
unfolding trim_suffix_dot
trim_suffix_dot-append [] = refl
trim_suffix_dot-append (c ∷ []) = refl
trim_suffix_dot-append (c ∷ d ∷ i) = ap (λ s. c ∷ s) (trim_suffix_dot-append (d ∷ i))

trim_suffix_dot-digits :
    (c : ℕ) (i f : Bytes) → all is_digit (c ∷ f) ≡ true → trim_suffix_dot (i ++ c ∷ f) ≡ i ++ c ∷ f
unfolding trim_suffix_dot
trim_suffix_dot-digits c [] [] h = ground arith
trim_suffix_dot-digits c [] (d ∷ f) h =
    ap (λ s. c ∷ s) (trim_suffix_dot-digits d [] f (ground arith))
trim_suffix_dot-digits c (b ∷ []) f h = ap (λ s. b ∷ s) (trim_suffix_dot-digits c [] f h)
trim_suffix_dot-digits c (b ∷ e ∷ i) f h = ap (λ s. b ∷ s) (trim_suffix_dot-digits c (e ∷ i) f h)

dot_kept :
    (d : ℕ) (i f : Bytes)
    → all is_digit (d ∷ f) ≡ true
    → trim_suffix_dot (i ++ b'.' ∷ d ∷ f) ≡ i ++ b'.' ∷ d ∷ f
dot_kept d i f h = rw append_assoc at (trim_suffix_dot-digits d (i ++ b'.' ∷ []) f h)

-- Trimming `i.f` keeps `i`, and of `f` what stands before its trailing zeros; the dot goes where
-- nothing of `f` is left.
pub trim_trailing_zeros-parts :
    (c : ℕ) (i f : Bytes)
    → all is_digit (c ∷ i) ≡ true
    → all is_digit f ≡ true
    → trim_trailing_zeros (c ∷ i ++ b'.' ∷ f)
      ≡ (if null (trim_right is_nought f) then c ∷ i else c ∷ i ++ b'.' ∷ trim_right is_nought f)
unfolding trim_trailing_zeros
trim_trailing_zeros-parts c i f hi hf =
    rw (contains_dot-append (c ∷ i) f, trim_right-append_dot (c ∷ i) f)
      (kept (trim_right is_nought f) (all-trim_right is_digit is_nought f hf))
  where
    kept :
        (r : Bytes)
        → all is_digit r ≡ true
        → (elim (trim_suffix_dot (c ∷ i ++ b'.' ∷ r)) as (λ _. Bytes) [
          | [] ↦ b'0' ∷ []
          | c ∷ r ↦ if c == b'-' && null r then b'0' ∷ [] else c ∷ r
        ])
          ≡ (if null r then c ∷ i else c ∷ i ++ b'.' ∷ r)
    kept [] h = rw (trim_suffix_dot-append (c ∷ i)) (ground arith)
    kept (d ∷ r) h = rw (dot_kept d (c ∷ i) r h) (ground arith)
