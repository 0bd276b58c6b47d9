-- ===== src/Swap/Io/Count.antt =====
-- How many transactions an action may hand to the node, one rule for each way to build an action.
use lazyswap.Prelude.{
  ℕ, ◌+◌, ◌≤◌, ◌≡◌, subst, Bool, true, false, List, [], ◌∷◌, if◌then◌else◌, length, length-append,
  arith,
}
use lazyswap.Prelude.Result.{Result, ok, err}
use lazyswap.Error.{Error, Context}
use lazyswap.Swap.Io.{Tx, Client, World, Io, label, ◌>>=◌, send}
use lazyswap.Swap.Io.Sends.{Sends}

-- The action `m` adds at most `k` transactions, on every path.
pub record SendsAtMost {Node A : Type 0} (k : ℕ) (m : Io Node A) : Type 0 where
  pub at : (w : World Node) → length (m w).1.sent ≤ length w.sent + k

-- The action `m` signs nothing.
abbrev pub IsSilent : {Node A : Type 0} → Io Node A → Type 1
IsSilent m = (P : List Tx → Type 0) → Sends P m

module _ {Node A : Type 0} where
  pub SendsAtMost-silent : (k : ℕ) (m : Io Node A) → IsSilent m → SendsAtMost k m
  SendsAtMost-silent k m s = record {
    at = λ w. (s (λ l. length l ≤ length w.sent + k)).at w (omega arith);
  }

  pub SendsAtMost-more : (k : ℕ) (m : Io Node A) → SendsAtMost k m → SendsAtMost (k + 1) m
  SendsAtMost-more k m s = record { at = λ w. omega (arith, s.at w) }

  pub SendsAtMost-label :
      (k : ℕ) (c : Context) (m : Io Node A) → SendsAtMost k m → SendsAtMost k (label c m)
  unfolding label
  SendsAtMost-label k c m s = record { at = λ w. labelled_sent w (m w) (s.at w) }
    where
      labelled_sent :
          (w : World Node) (r : Result Error A × World Node)
          → length r.1.sent ≤ length w.sent + k
          → length (label c (λ w. r) w).1.sent ≤ length w.sent + k
      labelled_sent w (ok a, v) h = h
      labelled_sent w (err e, v) h = h

  pub SendsAtMost-if :
      (k : ℕ) (b : Bool) (m n : Io Node A)
      → SendsAtMost k m
      → SendsAtMost k n
      → SendsAtMost k (if b then m else n)
  SendsAtMost-if k true m n sm sn = sm
  SendsAtMost-if k false m n sm sn = sn

module _ {Node A B : Type 0} where
  pub SendsAtMost-bind :
      (j k : ℕ) (m : Io Node A) (f : A → Io Node B)
      → SendsAtMost j m
      → ((a : A) → SendsAtMost k (f a))
      → SendsAtMost (j + k) (m >>= f)
  unfolding ◌>>=◌
  SendsAtMost-bind j k m f sm sf = record { at = λ w. continued w (m w) (sm.at w) }
    where
      continued :
          (w : World Node) (r : Result Error A × World Node)
          → length r.1.sent ≤ length w.sent + j
          → length (((λ v. r) >>= f) w).1.sent ≤ length w.sent + (j + k)
      continued w (ok a, v) h = omega (arith, (sf a).at v)
      continued w (err e, v) h = omega arith

  pub SendsAtMost-after :
      (k : ℕ) (m : Io Node A) (f : A → Io Node B)
      → IsSilent m
      → ((a : A) → SendsAtMost k (f a))
      → SendsAtMost k (m >>= f)
  SendsAtMost-after k m f sm sf =
      let same : 0 + k ≡ k = omega arith in
      subst (λ n. SendsAtMost n (m >>= f)) same
        (SendsAtMost-bind 0 k m f (SendsAtMost-silent 0 m sm) sf)

module _ (cl : Client) where
  pub SendsAtMost-send : (c : Context) (tx : Tx) → SendsAtMost 1 (send cl c tx)
  unfolding send
  SendsAtMost-send c tx = record { at = λ w. omega (arith, length-append w.sent (tx ∷ [])) }
