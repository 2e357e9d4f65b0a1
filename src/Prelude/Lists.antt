-- ===== src/Prelude/Lists.antt =====
-- Lists measured by native numbers, with Boolean tests in place of decisions.
use Prim.Native.Nat.{ℕ, suc, ◌+◌, ◌≤◌}
use mathlib.Core.Path.{◌≡◌, refl}
use mathlib.Core.Bool.{Bool, true, false, not, ◌&&◌, ◌||◌}
use mathlib.Core.List.{List, [], ◌∷◌, ◌++◌}
use mathlib.Core.Option.{Option, none, some}
use native.Mathlib.Omega.{arith}
use ruflo_rust.Prelude.Tests.{Eq, ◌==◌, if◌then◌else◌}

module _ {ℓ} {A : Type ℓ} where
  abbrev pub length : List A → ℕ
  length [] = 0
  length (x ∷ xs) = suc (length xs)

  pub length-append : (xs ys : List A) → length (xs ++ ys) ≡ length xs + length ys
  length-append [] ys = omega arith
  length-append (x ∷ xs) ys = omega (arith, length-append xs ys)

  -- `iter().find(test)`
  abbrev pub find : (A → Bool) → List A → Option A
  find p [] = none
  find p (x ∷ xs) = if p x then some x else find p xs

  -- `iter().all(test)` and `iter().any(test)`
  abbrev pub all : (A → Bool) → List A → Bool
  all p [] = true
  all p (x ∷ xs) = p x && all p xs

  abbrev pub any : (A → Bool) → List A → Bool
  any p [] = false
  any p (x ∷ xs) = p x || any p xs

  -- `retain(test)` and `iter().filter(test)`
  abbrev pub retain : (A → Bool) → List A → List A
  retain p [] = []
  retain p (x ∷ xs) = let rest = retain p xs in if p x then x ∷ rest else rest

  -- `iter().filter(test).count()`
  abbrev pub count : (A → Bool) → List A → ℕ
  count p [] = 0
  count p (x ∷ xs) = let rest = count p xs in if p x then suc rest else rest

  pub count-le-length : (p : A → Bool) (xs : List A) → count p xs ≤ length xs
  count-le-length p [] = omega arith
  count-le-length p (x ∷ xs) = ground (arith, count-le-length p xs)

  pub count-append : (p : A → Bool) (xs ys : List A) → count p (xs ++ ys) ≡ count p xs + count p ys
  count-append p [] ys = omega arith
  count-append p (x ∷ xs) ys = ground (arith, count-append p xs ys)

  -- A write to the first entry that passes: `iter_mut().find(test)`.
  abbrev pub replace_first : (A → Bool) → A → List A → List A
  replace_first p y [] = []
  replace_first p y (x ∷ xs) = if p x then y ∷ xs else x ∷ replace_first p y xs

  pub find-replace_first :
      (p : A → Bool) (x y : A) (xs : List A)
      → find p xs ≡ some x
      → p y ≡ true
      → find p (replace_first p y xs) ≡ some y
  find-replace_first p x y [] h e = cc
  find-replace_first p x y (z ∷ xs) h e = ground (arith, find-replace_first p x y xs)

  -- Another test sees no difference, if it passes on neither the old entry nor the new one.
  pub find-replace_first_ne :
      (p q : A → Bool) (y : A) (xs : List A)
      → ((z : A) → p z ≡ true → q z ≡ false)
      → q y ≡ false
      → find q (replace_first p y xs) ≡ find q xs
  find-replace_first_ne p q y [] h e = refl
  find-replace_first_ne p q y (z ∷ xs) h e = ground (arith, h z, find-replace_first_ne p q y xs h e)

  pub find-some : (p : A → Bool) (x : A) (xs : List A) → find p xs ≡ some x → p x ≡ true
  find-some p x [] h = cc
  find-some p x (z ∷ xs) h = ground (arith, find-some p x xs)

  pub find-append :
      (p : A → Bool) (xs ys : List A)
      → find p (xs ++ ys) ≡ elim (find p xs) [ none ↦ find p ys | some x ↦ some x ]
  find-append p [] ys = refl
  find-append p (x ∷ xs) ys = ground (arith, find-append p xs ys)

  pub find-retain-not : (p : A → Bool) (xs : List A) → find p (retain (λ x. not (p x)) xs) ≡ none
  find-retain-not p [] = refl
  find-retain-not p (x ∷ xs) = ground (arith, find-retain-not p xs)

  pub find-retain_ne :
      (p q : A → Bool) (xs : List A)
      → ((z : A) → p z ≡ true → q z ≡ false)
      → find q (retain (λ x. not (p x)) xs) ≡ find q xs
  find-retain_ne p q [] h = refl
  find-retain_ne p q (x ∷ xs) h = ground (arith, h x, find-retain_ne p q xs h)

  -- A predicate on each entry, as nested pairs.
  abbrev pub All {κ} : (A → Type κ) → List A → Type κ
  All P [] = Unit
  All P (x ∷ xs) = P x × All P xs

module _ {ℓ} {A : Type ℓ} ⦃e : Eq A⦄ where
  -- `contains(&a)`
  abbrev pub contains : A → List A → Bool
  contains a [] = false
  contains a (x ∷ xs) = x == a || contains a xs
