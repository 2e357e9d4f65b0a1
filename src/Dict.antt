-- ===== src/Dict.antt =====
-- `HashMap` and `BTreeMap` as association lists with one entry for a key. Clients have the laws.
pub mod Listing
use ruflo_rust.Prelude.{
  ◌≡◌, refl, Bool, true, false, Option, none, some, List, [], ◌∷◌, arith, Eq, ◌==◌, if◌then◌else◌,
  ◌⊎◌, inl, inr, Bool-cases,
}

pub record Dict {ℓ κ} (K : Type ℓ) (V : Type κ) : Type (ℓ ⊔ κ) where
  entries : List (K × V)

module _ {ℓ κ} {K : Type ℓ} {V : Type κ} ⦃e : Eq K⦄ where
  lookup : K → List (K × V) → Option V
  lookup k [] = none
  lookup k ((j, v) ∷ l) = if j == k then some v else lookup k l

  -- The entry of a key that is there keeps its place, and a new one goes to the end.
  put_entry : K → V → List (K × V) → List (K × V)
  put_entry k v [] = (k, v) ∷ []
  put_entry k v ((j, w) ∷ l) = if j == k then (k, v) ∷ l else (j, w) ∷ put_entry k v l

  without : K → List (K × V) → List (K × V)
  without k [] = []
  without k ((j, v) ∷ l) = let rest = without k l in if j == k then rest else (j, v) ∷ rest

  lookup-put_entry :
      (k j : K) (v : V) (l : List (K × V))
      → lookup j (put_entry k v l) ≡ (if k == j then some v else lookup j l)
  unfolding lookup put_entry
  lookup-put_entry k j v [] = refl
  lookup-put_entry k j v ((i, w) ∷ l) =
      ground (arith, e.beq_iff k j, e.beq_iff i k, e.beq_iff i j, lookup-put_entry k j v l)

  lookup-without :
      (k j : K) (l : List (K × V)) → lookup j (without k l) ≡ (if k == j then none else lookup j l)
  unfolding lookup without
  lookup-without k j [] = ground arith
  lookup-without k j ((i, w) ∷ l) =
      ground (arith, e.beq_iff k j, e.beq_iff i k, e.beq_iff i j, lookup-without k j l)

module _ {ℓ κ} {K : Type ℓ} {V : Type κ} where
  unfoldable pub empty : Dict K V
  empty = record { entries = [] }

module _ {ℓ κ} {K : Type ℓ} {V : Type κ} ⦃e : Eq K⦄ where
  unfoldable pub get : Dict K V → K → Option V
  unfolding lookup
  get d k = lookup k d.entries

  unfoldable pub put : Dict K V → K → V → Dict K V
  unfolding put_entry
  put d k v = record { entries = put_entry k v d.entries }

  unfoldable pub remove : Dict K V → K → Dict K V
  unfolding without
  remove d k = record { entries = without k d.entries }

  abbrev pub has_key : Dict K V → K → Bool
  has_key d k = elim (get d k) [ none ↦ false | some _ ↦ true ]

  pub get-empty : (k : K) → get (empty {V = V}) k ≡ none
  unfolding get empty
  get-empty k = refl

  pub get-put :
      (d : Dict K V) (k j : K) (v : V) → get (put d k v) j ≡ (if k == j then some v else get d j)
  unfolding get put
  get-put d k j v = lookup-put_entry k j v d.entries

  pub get-remove :
      (d : Dict K V) (k j : K) → get (remove d k) j ≡ (if k == j then none else get d j)
  unfolding get remove
  get-remove d k j = lookup-without k j d.entries

  -- What a key has after a write is the value written or what it had.
  pub get-put_cases :
      (d : Dict K V) (k j : K) (v b : V) → get (put d k v) j ≡ some b → (b ≡ v) ⊎ (get d j ≡ some b)
  get-put_cases d k j v b h = elim (Bool-cases (k == j)) [
    | inl hit ↦ inl (ground (arith, get-put d k j v))
    | inr miss ↦ inr (ground (arith, get-put d k j v))
  ]

pub ruleset dict_laws = (get-empty, get-put, get-remove)
