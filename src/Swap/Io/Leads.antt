-- ===== src/Swap/Io/Leads.antt =====
-- Actions that begin with questions to the nodes: what is signed behind them, with what was answered.
use lazyswap.Prelude.{List, [], ap, refl, subst, sym, ◌≡◌}
use lazyswap.Prelude.Result.{Result, err, ok}
use lazyswap.Error.{Error}
use lazyswap.Swap.Io.{Io, Tx, World, ◌>>=◌}
use lazyswap.Swap.Io.Count.{IsSilent}
use lazyswap.Swap.Io.Sends.{AllSent, Sends}

-- Where no transaction was signed before, those that `m` signs satisfy `R`.
pub record Leads {Node A : Type 0} (R : List Tx → Type 0) (m : Io Node A) : Type 0 where
  pub at : (w : World Node) → w.sent ≡ [] → R (m w).1.sent

-- `m` returned `a` in some world.
abbrev pub Answered : {Node A : Type 0} → Io Node A → A → Type 0
Answered {Node} m a = (w : World Node) × ((m w).0 ≡ ok a)

module _ {Node A B : Type 0} {R : List Tx → Type 0} where
  -- A silent action comes first, and what follows knows that it returned its argument.
  pub Leads-bind :
      R []
      → (m : Io Node A) (f : A → Io Node B) → IsSilent m
      → ((a : A) → Answered m a → Leads R (f a))
      → Leads R (m >>= f)
  unfolding ◌>>=◌
  Leads-bind none_sent m f silent lf = record {
    at = λ w e. continued w (m w) refl ((silent (λ l. l ≡ [])).at w e);
  }
    where
      continued :
          (w : World Node) (r : Result Error A × World Node)
          → m w ≡ r
          → r.1.sent ≡ []
          → R (((λ v. r) >>= f) w).1.sent
      continued w (ok a, v) e quiet = (lf a (w, ap (λ p. p.0) e)).at v quiet
      continued w (err x, v) e quiet = subst R (sym quiet) none_sent

module _ {Node A : Type 0} where
  pub Leads-Sends :
      {R : List Tx → Type 0} {Q : Tx → Type 0} (m : Io Node A)
      → Sends (AllSent Q) m
      → ((l : List Tx) → AllSent Q l → R l)
      → Leads R m
  Leads-Sends {Q} m s found = record {
    at = λ w e. found (m w).1.sent (s.at w (subst (AllSent Q) (sym e) tt));
  }
