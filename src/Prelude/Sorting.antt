-- ===== src/Prelude/Sorting.antt =====
-- Lists that are sorted, cut and filtered, and what is kept by it.
use Prim.Native.Nat.{ℕ, zero, suc, ◌≤◌}
use mathlib.Core.Path.{◌≡◌, refl}
use mathlib.Core.Bool.{Bool, true, false}
use mathlib.Core.List.{List, [], ◌∷◌}
use native.Mathlib.Omega.{arith}
use ruflo_rust.Prelude.Tests.{if◌then◌else◌}
use ruflo_rust.Prelude.Lists.{length, count, retain, All}
use Prim.Native.String.{String, compare}
use Prim.Native.Nat.{Ordering}

-- The order of strings by their bytes.
abbrev pub str_less : String → String → Bool
str_less s t = elim (compare s t) [ Ordering.lt ↦ true | _ ↦ false ]

module _ {ℓ} {A : Type ℓ} where
  -- `sort_by`, where `before` is the strict order: an element stays in front of its equals.
  abbrev pub insert_by : (A → A → Bool) → A → List A → List A
  insert_by before x [] = x ∷ []
  insert_by before x (y ∷ ys) = if before y x then y ∷ insert_by before x ys else x ∷ y ∷ ys

  abbrev pub sort_by : (A → A → Bool) → List A → List A
  sort_by before [] = []
  sort_by before (x ∷ xs) = insert_by before x (sort_by before xs)

  -- `iter().take(n)`
  abbrev pub take : ℕ → List A → List A
  take zero xs = []
  take (suc n) [] = []
  take (suc n) (x ∷ xs) = x ∷ take n xs

  count-insert_by :
      (before : A → A → Bool) (p : A → Bool) (x : A) (xs : List A)
      → count p (insert_by before x xs) ≡ count p (x ∷ xs)
  count-insert_by before p x [] = refl
  count-insert_by before p x (y ∷ ys) = ground (arith, count-insert_by before p x ys)

  length-insert_by :
      (before : A → A → Bool) (x : A) (xs : List A)
      → length (insert_by before x xs) ≡ suc (length xs)
  length-insert_by before x [] = refl
  length-insert_by before x (y ∷ ys) = ground (arith, length-insert_by before x ys)

  pub count-sort_by :
      (before : A → A → Bool) (p : A → Bool) (xs : List A)
      → count p (sort_by before xs) ≡ count p xs
  count-sort_by before p [] = refl
  count-sort_by before p (x ∷ xs) =
      ground (arith, count-insert_by before p x (sort_by before xs), count-sort_by before p xs)

  pub length-sort_by :
      (before : A → A → Bool) (xs : List A) → length (sort_by before xs) ≡ length xs
  length-sort_by before [] = refl
  length-sort_by before (x ∷ xs) =
      omega (arith, length-insert_by before x (sort_by before xs), length-sort_by before xs)

  pub count-take : (p : A → Bool) (n : ℕ) (xs : List A) → count p (take n xs) ≤ count p xs
  count-take p zero xs = omega arith
  count-take p (suc n) [] = omega arith
  count-take p (suc n) (x ∷ xs) = ground (arith, count-take p n xs)

  pub length-take : (n : ℕ) (xs : List A) → n ≤ length xs → length (take n xs) ≡ n
  length-take zero xs h = refl
  length-take (suc n) [] h = absurd (omega arith)
  length-take (suc n) (x ∷ xs) h = omega (arith, length-take n xs)

  pub count-retain : (p q : A → Bool) (xs : List A) → count p (retain q xs) ≤ count p xs
  count-retain p q [] = omega arith
  count-retain p q (x ∷ xs) = ground (arith, count-retain p q xs)

  pub length-retain : (p : A → Bool) (xs : List A) → length (retain p xs) ≡ count p xs
  length-retain p [] = refl
  length-retain p (x ∷ xs) = ground (arith, length-retain p xs)

  -- What holds of each entry holds of each entry of a list made from them.
  All-insert_by {κ} :
      (P : A → Type κ) (before : A → A → Bool) (x : A) (xs : List A)
      → P x
      → All P xs
      → All P (insert_by before x xs)
  All-insert_by P before x [] h a = (h, tt)
  All-insert_by P before x (y ∷ ys) h a =
      elim (before y x) as (λ b. All P (if b then y ∷ insert_by before x ys else x ∷ y ∷ ys)) [
        | true ↦ (a.0, All-insert_by P before x ys h a.1)
        | false ↦ (h, a)
      ]

  pub All-sort_by {κ} :
      (P : A → Type κ) (before : A → A → Bool) (xs : List A) → All P xs → All P (sort_by before xs)
  All-sort_by P before [] a = tt
  All-sort_by P before (x ∷ xs) a =
      All-insert_by P before x (sort_by before xs) a.0 (All-sort_by P before xs a.1)

  pub All-retain {κ} :
      (P : A → Type κ) (p : A → Bool) (xs : List A)
      → All P xs
      → All (λ x. P x × (p x ≡ true)) (retain p xs)
  All-retain P p [] a = tt
  All-retain P p (x ∷ xs) a =
      elim (p x)
          as (λ b.
            p x ≡ b → All (λ x. P x × (p x ≡ true)) (if b then x ∷ retain p xs else retain p xs)) [
              | true ↦ λ e. ((a.0, e), All-retain P p xs a.1)
              | false ↦ λ e. All-retain P p xs a.1
            ]
        refl

  pub All-take {κ} : (P : A → Type κ) (n : ℕ) (xs : List A) → All P xs → All P (take n xs)
  All-take P zero xs a = tt
  All-take P (suc n) [] a = tt
  All-take P (suc n) (x ∷ xs) a = (a.0, All-take P n xs a.1)
