-- ===== src/Dual/Naming.antt =====
-- The identifiers of the workers differ, and the search for them ends.
use text.Mathlib.TextLemmas.{append_cancel_left, append_cancel_right, append-eq-nil_iff, append-nil}
use Prim.Native.String.{◌++◌}
use ruflo_rust.Prelude.Text.Digits.{decimal-injective}
use ruflo_rust.Prelude.{
  ℕ, zero, suc, ◌+◌, ◌^◌, ◌-◌, ◌<◌, String, ◌≡◌, refl, sym, ◌∙◌, ◌⊎◌, inl, inr, true, false, some,
  ltb, List, contains, length, arith, format, ◌∷◌, ◌==◌, decimal, string_eq, eq_iff, Bool-cases,
}
use ruflo_rust.Pigeonhole.{hits, hits-le-length}
use ruflo_rust.Dual.Workers.{with_suffix, free_id}

-- The names that the loop tries, in their order.
abbrev candidate : String → ℕ → String
candidate base zero = base
candidate base (suc i) = with_suffix base (suc (suc i))

with_suffix-injective :
    (base : String) (m n : ℕ)
    → m < 10 ^ 20
    → n < 10 ^ 20
    → with_suffix base m ≡ with_suffix base n
    → m ≡ n
with_suffix-injective base m n hm hn e = decimal-injective m n hm hn (
    append_cancel_right (decimal m) (decimal n) "" (
      append_cancel_left "-" (decimal m ++ "") (decimal n ++ "")
        (append_cancel_left base ("-" ++ (decimal m ++ "")) ("-" ++ (decimal n ++ "")) e)))

with_suffix_ne : (base : String) (n : ℕ) → with_suffix base n ≡ base → ⊥
with_suffix_ne base n e =
    let tail : "-" ++ (decimal n ++ "") ≡ "" =
      append_cancel_left base ("-" ++ (decimal n ++ "")) "" (e ∙ sym (append-nil base)) in
    let dash : ◌≡◌ {A = String} "-" "" =
      ((append-eq-nil_iff {p = "-"} {q = decimal n ++ ""}).0 tail).0 in
    let wrong : false ≡ true = (eq_iff "-" "").1 dash in ground (arith, wrong)

-- The name of a branch is not empty.
pub branch_ne : (rest : List String) → (format ("ruflo/" ∷ rest) == "") ≡ false
branch_ne rest = elim (Bool-cases (format ("ruflo/" ∷ rest) == "")) [
  | inr other ↦ other
  | inl empty ↦
      let none_ : "ruflo/" ++ format rest ≡ "" = (eq_iff (format ("ruflo/" ∷ rest)) "").0 empty in
      let start : ◌≡◌ {A = String} "ruflo/" "" =
        ((append-eq-nil_iff {p = "ruflo/"} {q = format rest}).0 none_).0 in
      absurd (let wrong : false ≡ true = (eq_iff "ruflo/" "").1 start in ground (arith, wrong))
]

candidate-injective :
    (base : String) (i j : ℕ)
    → i + 1 < 10 ^ 20
    → j + 1 < 10 ^ 20
    → candidate base i ≡ candidate base j
    → i ≡ j
candidate-injective base zero zero hi hj e = refl
candidate-injective base zero (suc j) hi hj e = absurd (with_suffix_ne base (suc (suc j)) (sym e))
candidate-injective base (suc i) zero hi hj e = absurd (with_suffix_ne base (suc (suc i)) e)
candidate-injective base (suc i) (suc j) hi hj e =
    let same =
      with_suffix-injective base (suc (suc i)) (suc (suc j)) (omega arith) (omega arith) e in
    omega (arith, same)

module _ (base : String) where
  free_id-cases :
      (fuel i : ℕ) (used : List String)
      → i + fuel + 2 < 2 ^ 31
      → ((id : String) × (free_id fuel base (suc (suc i)) (candidate base i) used ≡ some id)
          × (contains id used ≡ false))
        ⊎ (hits (λ j. contains (candidate base j) used) i fuel ≡ fuel)
  unfolding free_id hits
  free_id-cases zero i used h = inr refl
  free_id-cases (suc fuel) i used h = elim (Bool-cases (contains (candidate base i) used)) [
    | inr free ↦ inl (candidate base i, rw free refl, free)
    | inl taken ↦ elim (free_id-cases fuel (suc i) used (omega (arith, h))) [
      | inl (id, e, f) ↦
          let fits : ltb (suc (suc (suc i))) (2 ^ 31) ≡ true = ground (arith, h) in
          inl (id, rw (taken, fits) e, f)
      | inr all ↦ inr (rw (taken, all) refl)
    ]
  ]

  -- One candidate more than there are names in use is enough: the loop ends with a name that is
  -- free.
  pub free_id_lem :
      (used : List String)
      → length used + 3 < 2 ^ 31
      → (id : String) × (free_id (suc (length used)) base 2 base used ≡ some id)
        × (contains id used ≡ false)
  free_id_lem used h = elim (free_id-cases (suc (length used)) 0 used (omega (arith, h))) [
    | inl found ↦ found
    | inr all ↦ absurd (
        let most =
          hits-le-length (candidate base) (10 ^ 20 - 1)
            (λ i j a b e. candidate-injective base i j (omega arith) (omega arith) e) used
            (suc (length used)) (omega arith) in
        omega (arith, most, all))
  ]
