-- ===== src/Prelude/Tests.antt =====
-- Boolean tests on numbers and texts, and the facts that they give.
use Prim.Native.Nat.{ℕ, compare, Ordering}
use Prim.Native.String.{String}
use mathlib.Core.Path.{◌≡◌, refl}
use mathlib.Core.Logic.{◌⊎◌, inl, inr, ◌≢◌}
use mathlib.Core.Bool.{Bool, true, false}
use native.Mathlib.Omega.{arith}
use text.Mathlib.Text.{◌==◌}
use text.Mathlib.TextEquality.{eq_iff}

abbrev pub ltb : ℕ → ℕ → Bool
ltb a b = elim (compare a b) [ Ordering.lt ↦ true | _ ↦ false ]

abbrev pub leb : ℕ → ℕ → Bool
leb a b = elim (compare a b) [ Ordering.gt ↦ false | _ ↦ true ]

abbrev pub nat_eq : ℕ → ℕ → Bool
nat_eq a b = elim (compare a b) [ Ordering.eq ↦ true | _ ↦ false ]

infix 1 if◌then◌else◌
abbrev pub if◌then◌else◌ {ℓ} : {A : Type ℓ} → Bool → A → A → A
if true then x else y = x
if false then x else y = y

pub Bool-cases : (b : Bool) → (b ≡ true) ⊎ (b ≡ false)
Bool-cases true = inl refl
Bool-cases false = inr refl

pub nat_eq→eq : (a b : ℕ) → nat_eq a b ≡ true → a ≡ b
nat_eq→eq a b h = ground arith

pub nat_eq-false : (a b : ℕ) → nat_eq a b ≡ false → a ≢ b
nat_eq-false a b h = ground arith

pub eq→nat_eq : (a b : ℕ) → a ≡ b → nat_eq a b ≡ true
eq→nat_eq a b h = ground arith

pub str_eq→eq : (s t : String) → (s == t) ≡ true → s ≡ t
str_eq→eq s t = (eq_iff s t).0

pub str_eq-false : (s t : String) → (s == t) ≡ false → s ≢ t
str_eq-false s t h e = ground (arith, eq_iff s t)

pub true-or-absurd : {b : Bool} → b ≡ true → b ≡ false → ⊥
true-or-absurd h k = cc
