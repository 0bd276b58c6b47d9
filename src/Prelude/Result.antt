-- ===== src/Prelude/Result.antt =====
-- Go's `(value, error)`: a value, or the error that is returned in its place.
use mathlib.Core.Path.{◌≡◌, refl}

pub data Result {ℓ κ} (E : Type κ) (A : Type ℓ) : Type (ℓ ⊔ κ) where
  ok : A → Result E A
  err : E → Result E A

module _ {ℓ κ μ} {E : Type μ} {A : Type ℓ} {B : Type κ} where
  -- the rest of a function behind `if err != nil { return err }`
  infixl 5 ◌>>=◌
  abbrev pub ◌>>=◌ : Result E A → (A → Result E B) → Result E B
  err e >>= rest = err e
  ok a >>= rest = rest a

  -- What a function returned without an error came from its first step and from the rest.
  pub returned :
      (step : Result E A) (rest : A → Result E B) {b : B}
      → (step >>= rest) ≡ ok b
      → (a : A) × (step ≡ ok a) × (rest a ≡ ok b)
  returned (err e) rest h = cc
  returned (ok a) rest h = (a, refl, h)

module _ {ℓ κ μ} {E : Type κ} {F : Type μ} {A : Type ℓ} where
  -- `fmt.Errorf("...: %w", err)`
  abbrev pub map_err : (E → F) → Result E A → Result F A
  map_err f (ok a) = ok a
  map_err f (err e) = err (f e)
