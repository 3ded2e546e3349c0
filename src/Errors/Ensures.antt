-- ===== src/Errors/Ensures.antt =====
-- What holds of a value that is returned, if one is.
use ronro.Prelude.{Bool, true, false, ◌≡◌, refl}
use ronro.Errors.{Code, Result, ok, err, raise_if, ◌>>=◌, ◌>>◌}

pub record Ensures {ℓ κ} {A : Type ℓ} (P : A → Type κ) (r : Result A) : Type (ℓ ⊔ κ) where
  pub at : (a : A) → r ≡ ok a → P a

ok-injective {ℓ} : {A : Type ℓ} (a b : A) → ok a ≡ ok b → a ≡ b
ok-injective a b h = cc

module _ {ℓ κ} {A : Type ℓ} {P : A → Type κ} where
  pub Ensures-ok : (a : A) → P a → Ensures P (ok a)
  Ensures-ok a p = record { at = λ b h. rw (← ok-injective a b h) p }

  pub Ensures-bind {μ} :
      {B : Type μ} (m : Result B) (f : B → Result A)
      → ((b : B) → m ≡ ok b → Ensures P (f b))
      → Ensures P (m >>= f)
  unfolding ◌>>=◌
  Ensures-bind (ok b) f k = k b refl
  Ensures-bind (err c) f k = record { at = λ a h. cc }

  pub Ensures-then :
      (m : Result (Unit {0})) (k : Result A) → (m ≡ ok tt → Ensures P k) → Ensures P (m >> k)
  unfolding ◌>>◌
  Ensures-then (ok u) k h = h refl
  Ensures-then (err c) k h = record { at = λ a e. cc }

  pub Ensures-raise_if :
      (test : Bool) (c : Code) (k : Result A)
      → (test ≡ false → Ensures P k)
      → Ensures P (raise_if test c >> k)
  unfolding ◌>>◌ raise_if
  Ensures-raise_if true c k h = record { at = λ a e. cc }
  Ensures-raise_if false c k h = h refl
