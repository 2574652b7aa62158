-- ===== src/Base/Try.antt =====
-- What a function returns, or the error that it raises.
use mathlib.Core.Path.{◌≡◌, refl}
use mathlib.Core.Logic.{◌⊎◌, inl, inr}
use mathlib.Core.Bool.{Bool, true, false}

pub data Try {ℓ κ} (E : Type κ) (A : Type ℓ) : Type (ℓ ⊔ κ) where
  ok : A → Try E A
  err : E → Try E A

module _ {ε} {E : Type ε} where
  infixl 5 ◌>>=◌ ◌>>◌
  abbrev pub ◌>>=◌ {ℓ κ} : {A : Type ℓ} {B : Type κ} → Try E A → (A → Try E B) → Try E B
  ok a >>= f = f a
  err e >>= f = err e

  abbrev pub ◌>>◌ {ℓ} : {B : Type ℓ} → Try E (Unit {0}) → Try E B → Try E B
  m >> k = m >>= λ _. k

  -- `if not test: raise e`
  abbrev pub require : Bool → E → Try E (Unit {0})
  require true e = ok tt
  require false e = err e

pub Try-cases {ℓ κ} :
    {A : Type ℓ} {E : Type κ} (t : Try E A) → ((a : A) × (t ≡ ok a)) ⊎ ((e : E) × (t ≡ err e))
Try-cases (ok a) = inl (a, refl)
Try-cases (err e) = inr (e, refl)
