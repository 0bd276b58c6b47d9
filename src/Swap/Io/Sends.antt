-- ===== src/Swap/Io/Sends.antt =====
-- Properties of the transactions that are handed to the node, one rule for each way to build an
-- action. What an action sent before it failed counts too.
use lazyswap.Prelude.{ℕ, ◌≡◌, refl, Bool, true, false, List, [], ◌∷◌, ◌++◌, if◌then◌else◌}
use lazyswap.Prelude.Result.{Result, ok, err}
use lazyswap.Error.{Error, Context}
use lazyswap.Swap.Io.{
  Call, Tx, Client, World, Io, pure, fail, lift, attempt, label, ◌>>=◌, call_contract, send, wait,
  unix_now, observe,
}

abbrev pub AllSent : (Tx → Type 0) → List Tx → Type 0
AllSent Q [] = Unit
AllSent Q (tx ∷ sent) = Q tx × AllSent Q sent

AllSent-append :
    (Q : Tx → Type 0) (sent : List Tx) (tx : Tx)
    → AllSent Q sent
    → Q tx
    → AllSent Q (sent ++ tx ∷ [])
AllSent-append Q [] tx h q = (q, tt)
AllSent-append Q (t ∷ sent) tx h q = (h.0, AllSent-append Q sent tx h.1 q)

-- The action `m` keeps the property `P` of the list of transactions.
pub record Sends {Node A : Type 0} (P : List Tx → Type 0) (m : Io Node A) : Type 0 where
  pub at : (w : World Node) → P w.sent → P (m w).1.sent

module _ {Node A : Type 0} {P : List Tx → Type 0} where
  pub Sends-pure : (a : A) → Sends P (pure {Node = Node} a)
  unfolding pure
  Sends-pure a = record { at = λ w h. h }

  pub Sends-fail : (e : Error) → Sends P (fail {Node = Node} {A = A} e)
  unfolding fail
  Sends-fail e = record { at = λ w h. h }

  pub Sends-lift : (r : Result Error A) → Sends P (lift {Node = Node} r)
  unfolding lift
  Sends-lift r = record { at = λ w h. h }

  pub Sends-attempt : (m : Io Node A) → Sends P m → Sends P (attempt m)
  unfolding attempt
  Sends-attempt m s = record { at = λ w h. s.at w h }

  pub Sends-label : (c : Context) (m : Io Node A) → Sends P m → Sends P (label c m)
  unfolding label
  Sends-label c m s = record { at = λ w h. labelled_sent (m w) (s.at w h) }
    where
      labelled_sent :
          (r : Result Error A × World Node) → P r.1.sent → P (label c (λ w. r) r.1).1.sent
      labelled_sent (ok a, w) h = h
      labelled_sent (err e, w) h = h

  pub Sends-observe : (f : Node → A × Node) → Sends P (observe f)
  unfolding observe
  Sends-observe f = record { at = λ w h. h }

  pub Sends-if :
      (b : Bool) (m n : Io Node A)
      → (b ≡ true → Sends P m)
      → (b ≡ false → Sends P n)
      → Sends P (if b then m else n)
  Sends-if true m n sm sn = sm refl
  Sends-if false m n sm sn = sn refl

module _ {Node A B : Type 0} {P : List Tx → Type 0} where
  -- the rest of the block may use what a pure step returned
  pub Sends-bind_lift :
      (r : Result Error A) (f : A → Io Node B)
      → ((a : A) → r ≡ ok a → Sends P (f a))
      → Sends P (lift r >>= f)
  unfolding ◌>>=◌ lift
  Sends-bind_lift (ok a) f sf = record { at = (sf a refl).at }
  Sends-bind_lift (err e) f sf = record { at = λ w h. h }

  pub Sends-bind :
      (m : Io Node A) (f : A → Io Node B)
      → Sends P m
      → ((a : A) → Sends P (f a))
      → Sends P (m >>= f)
  unfolding ◌>>=◌ lift
  Sends-bind m f sm sf = record {
    at = λ w h. let (r, w') = m w in (Sends-bind_lift r f (λ a _. sf a)).at w' (sm.at w h);
  }

module _ (cl : Client) {P : List Tx → Type 0} where
  pub Sends-call : (chain_id : ℕ) (c : Context) (q : Call) → Sends P (call_contract cl chain_id c q)
  unfolding call_contract
  Sends-call chain_id c q = record { at = λ w h. h }

  pub Sends-wait : (c : Context) (tx : ℕ) → Sends P (wait cl c tx)
  unfolding wait
  Sends-wait c tx = record { at = λ w h. h }

  pub Sends-now : Sends P (unix_now cl)
  unfolding unix_now
  Sends-now = record { at = λ w h. h }

module _ (cl : Client) {Q : Tx → Type 0} where
  pub Sends-send : (c : Context) (tx : Tx) → Q tx → Sends (AllSent Q) (send cl c tx)
  unfolding send
  Sends-send c tx q = record { at = λ w h. AllSent-append Q w.sent tx h q }

pub ruleset sends_rules = (
  Sends-pure, Sends-fail, Sends-lift, Sends-attempt, Sends-label, Sends-if, Sends-bind_lift,
  Sends-bind, Sends-call, Sends-wait, Sends-now, Sends-send, Sends-observe,
)
