-- ===== src/Errors/Returns.antt =====
-- Results that return.
use ronro.Prelude.{Bool, false, ◌≡◌, refl}
use ronro.Errors.{Code, Result, ok, raise_if, ◌>>=◌, ◌>>◌}

pub data Returns {ℓ} {A : Type ℓ} : Result A → Type ℓ where
  returned : (a : A) → Returns (ok a)

module _ {ℓ} {A : Type ℓ} where
  pub Returns-bind {κ} :
      {B : Type κ} (m : Result B) (b : B) (f : B → Result A)
      → m ≡ ok b
      → Returns (f b)
      → Returns (m >>= f)
  unfolding ◌>>=◌
  Returns-bind m b f h r = rw h r

  pub Returns-pass :
      (test : Bool) (c : Code) (k : Result A)
      → test ≡ false
      → Returns k
      → Returns (raise_if test c >> k)
  unfolding ◌>>◌ raise_if
  Returns-pass test c k h r = rw h r

  pub Returns-value : {r : Result A} → Returns r → (a : A) × (r ≡ ok a)
  Returns-value (returned a) = (a, refl)
