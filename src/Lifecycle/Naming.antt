-- ===== src/Lifecycle/Naming.antt =====
-- The last record of a name in a list, which is the one that stands after the list is written
-- record by record.
use ruflo_rust.Prelude.{
  String, ◌≡◌, refl, ◌⊎◌, inl, inr, false, not, Option, none, some, List, [], ◌∷◌, ◌++◌, All, arith,
  count, retain, string_eq, eq_iff, ◌==◌, if◌then◌else◌, Bool-cases,
}

module _ {A : Type 0} (key : A → String) where
  abbrev pub last_named : String → List A → Option A
  last_named id [] = none
  last_named id (a ∷ rest) = elim (last_named id rest) [
    | some b ↦ some b
    | none ↦ if key a == id then some a else none
  ]

  pub last_named-cases :
      (P : A → Type 0) (id : String) (xs : List A)
      → All P xs
      → ((last_named id xs ≡ none) × (count (λ a. key a == id) xs ≡ 0))
        ⊎ ((a : A) × (last_named id xs ≡ some a) × (key a ≡ id) × P a)
  last_named-cases P id [] h = inl (refl, refl)
  last_named-cases P id (x ∷ xs) h = elim (last_named-cases P id xs h.1) [
    | inr (a, e, k, p) ↦ inr (a, rw e refl, k, p)
    | inl (e, n) ↦ elim (Bool-cases (key x == id)) [
      | inl same ↦ inr (x, rw (e, same) refl, (eq_iff (key x) id).0 same, h.0)
      | inr other ↦ inl (rw (e, other) refl, rw other n)
    ]
  ]

  last_named-append :
      (id : String) (a : A) (xs : List A)
      → last_named id (xs ++ a ∷ []) ≡ (if key a == id then some a else last_named id xs)
  last_named-append id a [] = refl
  last_named-append id a (x ∷ xs) = ground (arith, last_named-append id a xs)

  last_named-retain :
      (id other : String) (xs : List A)
      → (other == id) ≡ false
      → last_named id (retain (λ b. not (key b == other)) xs) ≡ last_named id xs
  last_named-retain id other [] h = refl
  last_named-retain id other (x ∷ xs) h = ground (
    arith,
    h,
    eq_iff (key x) other,
    eq_iff (key x) id,
    eq_iff other id,
    last_named-retain id other xs h,
  )

  -- A record written over those of its name.
  pub last_named-write :
      (id : String) (a : A) (xs : List A)
      → last_named id (retain (λ b. not (key b == key a)) xs ++ a ∷ [])
        ≡ (if key a == id then some a else last_named id xs)
  last_named-write id a xs = ground (
    arith,
    last_named-append id a (retain (λ b. not (key b == key a)) xs),
    last_named-retain id (key a) xs,
  )
