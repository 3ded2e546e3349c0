-- ===== src/Prelude/Lists.antt =====
-- Lists measured by native numbers, and sets of texts as lists with a Boolean membership test.
use Prim.Native.Nat.{ℕ, suc, ◌+◌, ◌≤◌}
use Prim.Native.String.{String}
use mathlib.Core.Path.{◌≡◌, refl, ap}
use mathlib.Core.Bool.{Bool, true, false, ◌||◌, ◌&&◌, not}
use mathlib.Core.List.{List, [], ◌∷◌, ◌++◌, map}
use native.Mathlib.Omega.{arith}
use ronro.Prelude.Tests.{if◌then◌else◌}
use text.Mathlib.Text.{◌==◌}
use text.Mathlib.TextEquality.{eq_iff}

module _ {ℓ} {A : Type ℓ} where
  abbrev pub length : List A → ℕ
  length [] = 0
  length (x ∷ xs) = suc (length xs)

  pub length-append : (xs ys : List A) → length (xs ++ ys) ≡ length xs + length ys
  length-append [] ys = omega arith
  length-append (x ∷ xs) ys = omega (arith, length-append xs ys)

  -- `any(test(x) for x in xs)`
  abbrev pub any : (A → Bool) → List A → Bool
  any test [] = false
  any test (x ∷ xs) = test x || any test xs

  -- A predicate that holds at every element.
  abbrev pub All {κ} : (A → Type κ) → List A → Type κ
  All P [] = Unit
  All P (x ∷ xs) = P x × All P xs

module _ {ℓ κ} {A : Type ℓ} (P : A → Type κ) where
  pub All-append : (xs ys : List A) → All P xs → All P ys → All P (xs ++ ys)
  All-append [] ys all more = more
  All-append (x ∷ xs) ys all more = (all.0, All-append xs ys all.1 more)

  pub All-map {μ} : (Q : A → Type μ) (xs : List A) → ((x : A) → P x → Q x) → All P xs → All Q xs
  All-map Q [] f all = tt
  All-map Q (x ∷ xs) f all = (f x all.0, All-map Q xs f all.1)

pub All-zip {ℓ κ μ} :
    {A : Type ℓ} (P : A → Type κ) (Q : A → Type μ) (xs : List A)
    → All P xs
    → All Q xs
    → All (λ x. P x × Q x) xs
All-zip P Q [] p q = tt
All-zip P Q (x ∷ xs) p q = ((p.0, q.0), All-zip P Q xs p.1 q.1)

pub map-append {ℓ κ} :
    {A : Type ℓ} {B : Type κ} (f : A → B) (xs ys : List A) → map f (xs ++ ys) ≡ map f xs ++ map f ys
map-append f [] ys = refl
map-append f (x ∷ xs) ys = ap (λ zs. f x ∷ zs) (map-append f xs ys)

-- `value in items`
abbrev pub contains : String → List String → Bool
contains value [] = false
contains value (x ∷ xs) = (x == value) || contains value xs

pub contains-append :
    (s : String) (xs ys : List String) → contains s (xs ++ ys) ≡ (contains s xs || contains s ys)
contains-append s [] ys = refl
contains-append s (x ∷ xs) ys = ground (arith, contains-append s xs ys)

pub contains_self : (s : String) (xs : List String) → contains s (s ∷ xs) ≡ true
contains_self s xs = ground (arith, eq_iff s s)

-- Distinct texts among those of another list are no more than that list has.
abbrev pub distinct : List String → Bool
distinct [] = true
distinct (x ∷ xs) = not (contains x xs) && distinct xs

pub distinct-append :
    (xs : List String) (x : String)
    → distinct xs ≡ true
    → contains x xs ≡ false
    → distinct (xs ++ x ∷ []) ≡ true
distinct-append [] x d h = refl
distinct-append (y ∷ ys) x d h =
    ground (arith, distinct-append ys x, contains-append y ys (x ∷ []), eq_iff x y, eq_iff y x)

without : String → List String → List String
without s [] = []
without s (x ∷ xs) = if x == s then xs else x ∷ without s xs

length-without :
    (s : String) (xs : List String) → contains s xs ≡ true → suc (length (without s xs)) ≡ length xs
unfolding without
length-without s [] h = absurd (cc h)
length-without s (x ∷ xs) h = ground (arith, length-without s xs)

contains-without :
    (s t : String) (xs : List String)
    → contains t xs ≡ true
    → (s == t) ≡ false
    → contains t (without s xs) ≡ true
unfolding without
contains-without s t [] h other = h
contains-without s t (x ∷ xs) h other =
    ground (arith, contains-without s t xs, eq_iff x s, eq_iff x t, eq_iff s t)

pub length-le_of_distinct :
    (xs ys : List String)
    → distinct xs ≡ true
    → ((s : String) → contains s xs ≡ true → contains s ys ≡ true)
    → length xs ≤ length ys
length-le_of_distinct [] ys d sub = omega arith
length-le_of_distinct (x ∷ xs) ys d sub =
    let fewer =
      length-le_of_distinct xs (without x ys) (ground arith)
        λ s m. contains-without x s ys (sub s (ground arith)) (ground (arith, eq_iff x s)) in
    omega (arith, fewer, length-without x ys (sub x (ground (arith, eq_iff x x))))
