-- ===== src/Errors/Safe.antt =====
-- Results that are no KeyError, and what holds of the value where there is one.
use ronro.Prelude.{Bool, true, false, ◌≡◌, ◌≢◌, refl}
use ronro.Errors.{Code, Result, ok, err, key_error, raise_if, ◌>>=◌, ◌>>◌}

pub data Safe {ℓ κ} {A : Type ℓ} (P : A → Type κ) : Result A → Type (ℓ ⊔ κ) where
  returns : (a : A) → P a → Safe P (ok a)
  raises : (c : Code) → c ≢ key_error → Safe P (err c)

module _ {ℓ κ} {A : Type ℓ} {P : A → Type κ} where
  pub Safe-bind {μ ν} :
      {B : Type μ} {Q : B → Type ν} (m : Result B) (f : B → Result A)
      → Safe Q m
      → ((b : B) → m ≡ ok b → Q b → Safe P (f b))
      → Safe P (m >>= f)
  unfolding ◌>>=◌
  Safe-bind m f (Safe.returns b q) k = k b refl q
  Safe-bind m f (Safe.raises c n) k = Safe.raises c n

  pub Safe-then :
      (m : Result (Unit {0})) (k : Result A)
      → Safe (λ _. Unit {0}) m
      → (m ≡ ok tt → Safe P k)
      → Safe P (m >> k)
  unfolding ◌>>◌
  Safe-then m k (Safe.returns u q) h = h refl
  Safe-then m k (Safe.raises c n) h = Safe.raises c n

  -- Past a check, its test was false.
  pub Safe-raise_if :
      (test : Bool) (c : Code) (k : Result A)
      → c ≢ key_error
      → (test ≡ false → Safe P k)
      → Safe P (raise_if test c >> k)
  unfolding ◌>>◌ raise_if
  Safe-raise_if true c k n h = Safe.raises c n
  Safe-raise_if false c k n h = h refl

  pub Safe-value : {r : Result A} (a : A) → Safe P r → r ≡ ok a → P a
  Safe-value a (Safe.raises c n) e = cc
  Safe-value a (Safe.returns b p) e = rw (← ok-injective e) p
    where
      ok-injective : ok b ≡ ok a → b ≡ a
      ok-injective q = cc

  pub Safe-ne-key_error : {r : Result A} → Safe P r → r ≢ err key_error
  Safe-ne-key_error (Safe.returns a p) e = cc
  Safe-ne-key_error (Safe.raises c n) e = n (cc)
