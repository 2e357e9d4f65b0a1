-- ===== src/Dict/Listing.antt =====
-- The entries of a map as lists: its keys and its values.
use ruflo_rust.Prelude.{
  ap, suc, beq_self, Option-cases, ℕ, ◌+◌, ◌≤◌, ◌≡◌, refl, Bool, true, false, Option, none, some,
  List, [], ◌∷◌, All, arith, Eq, ◌==◌, count, contains, length, if◌then◌else◌, inl, inr,
}
use ruflo_rust.Dict.{Dict, lookup, put_entry, get, put}

abbrev pub one : Bool → ℕ
one true = 1
one false = 0

-- How many of the value at a key pass.
abbrev pub at_key {κ} : {V : Type κ} → (V → Bool) → Option V → ℕ
at_key p none = 0
at_key p (some v) = one (p v)

module _ {ℓ κ} {K : Type ℓ} {V : Type κ} where
  abbrev keys_in : List (K × V) → List K
  keys_in [] = []
  keys_in ((k, v) ∷ l) = k ∷ keys_in l

  abbrev values_in : List (K × V) → List V
  values_in [] = []
  values_in ((k, v) ∷ l) = v ∷ values_in l

  unfoldable pub keys : Dict K V → List K
  keys d = keys_in d.entries

  unfoldable pub values : Dict K V → List V
  values d = values_in d.entries

  length-values_in : (l : List (K × V)) → length (values_in l) ≡ length (keys_in l)
  length-values_in [] = refl
  length-values_in ((k, v) ∷ l) = ap suc (length-values_in l)

  pub length-values : (d : Dict K V) → length (values d) ≡ length (keys d)
  unfolding values keys
  length-values d = length-values_in d.entries

module _ {ℓ κ} {K : Type ℓ} {V : Type κ} ⦃e : Eq K⦄ where
  contains-keys_in :
      (l : List (K × V)) (k : K)
      → contains k (keys_in l) ≡ elim (lookup k l) [ none ↦ false | some v ↦ true ]
  unfolding lookup
  contains-keys_in [] k = refl
  contains-keys_in ((j, v) ∷ l) k = ground (arith, contains-keys_in l k)

  pub contains-keys :
      (d : Dict K V) (k : K) → contains k (keys d) ≡ elim (get d k) [ none ↦ false | some v ↦ true ]
  unfolding keys get
  contains-keys d k = contains-keys_in d.entries k

  count-put_entry :
      (p : V → Bool) (k : K) (v : V) (l : List (K × V))
      → count p (values_in (put_entry k v l)) + at_key p (lookup k l)
        ≡ count p (values_in l) + one (p v)
  unfolding lookup put_entry
  count-put_entry p k v [] = ground arith
  count-put_entry p k v ((j, w) ∷ l) = ground (arith, count-put_entry p k v l)

  -- A write takes away the value that was at the key, if one was, and adds the new one.
  pub count-put :
      (d : Dict K V) (p : V → Bool) (k : K) (v : V)
      → count p (values (put d k v)) + at_key p (get d k) ≡ count p (values d) + one (p v)
  unfolding values put get
  count-put d p k v = count-put_entry p k v d.entries

  -- No key has two entries.
  unfoldable pub IsDistinct : Dict K V → Type ℓ
  IsDistinct d = (k : K) → count (λ j. j == k) (keys_in d.entries) ≤ 1

  one_key :
      (l : List (K × V)) (k : K) (v : V) → lookup k l ≡ some v → 1 ≤ count (λ j. j == k) (keys_in l)
  unfolding lookup
  one_key [] k v h = cc
  one_key ((j, w) ∷ l) k v h = ground (arith, one_key l k v)

  count-keys_in-put_entry :
      (k i : K) (v : V) (l : List (K × V))
      → count (λ j. j == i) (keys_in (put_entry k v l))
        ≤ (if k == i then 1 else 0) + count (λ j. j == i) (keys_in l)
  unfolding put_entry
  count-keys_in-put_entry k i v [] = ground arith
  count-keys_in-put_entry k i v ((j, w) ∷ l) =
      ground (arith, e.beq_iff j k, e.beq_iff j i, e.beq_iff k i, count-keys_in-put_entry k i v l)

  count-keys_in-replaced :
      (k i : K) (v w : V) (l : List (K × V))
      → lookup k l ≡ some w
      → count (λ j. j == i) (keys_in (put_entry k v l)) ≡ count (λ j. j == i) (keys_in l)
  unfolding lookup put_entry
  count-keys_in-replaced k i v w [] h = cc
  count-keys_in-replaced k i v w ((j, x) ∷ l) h =
      ground (arith, e.beq_iff j k, e.beq_iff j i, e.beq_iff k i, count-keys_in-replaced k i v w l)

  no_key : (l : List (K × V)) (k : K) → lookup k l ≡ none → count (λ j. j == k) (keys_in l) ≡ 0
  unfolding lookup
  no_key [] k h = refl
  no_key ((j, w) ∷ l) k h = ground (arith, no_key l k)

  pub put-IsDistinct : (d : Dict K V) (k : K) (v : V) → IsDistinct d → IsDistinct (put d k v)
  unfolding IsDistinct put
  put-IsDistinct d k v u i = elim (Option-cases (lookup k d.entries)) [
    | inl new ↦
        ground
          (arith, e.beq_iff k i, u i, no_key d.entries k, count-keys_in-put_entry k i v d.entries)
    | inr (w, old) ↦ ground (arith, u i, count-keys_in-replaced k i v w d.entries old)
  ]

  -- An entry further back is seen by a lookup too, where no key has two.
  lookup_back :
      (j : K) (w : V) (l : List (K × V))
      → ((k : K) → count (λ i. i == k) (keys_in ((j, w) ∷ l)) ≤ 1)
      → (k : K) (v : V) → lookup k l ≡ some v
      → lookup k ((j, w) ∷ l) ≡ some v
  unfolding lookup
  lookup_back j w l u k v h = ground (arith, u k, one_key l k v h)

  All-values_in {ι} :
      (P : V → Type ι) (l : List (K × V))
      → ((k : K) (v : V) → lookup k l ≡ some v → P v)
      → ((k : K) → count (λ i. i == k) (keys_in l) ≤ 1)
      → All P (values_in l)
  unfolding lookup
  All-values_in P [] h u = tt
  All-values_in P ((j, w) ∷ l) h u = (
    h j w (rw (beq_self j) refl),
    All-values_in P l (λ k v f. h k v (lookup_back j w l u k v f)) (λ k. ground (arith, u k)),
  )

  -- What holds of the value at each key holds of each value.
  pub All-values {ι} :
      (P : V → Type ι) (d : Dict K V)
      → IsDistinct d
      → ((k : K) (v : V) → get d k ≡ some v → P v)
      → All P (values d)
  unfolding IsDistinct values get
  All-values P d u h = All-values_in P d.entries h u

  count-values_in :
      (key : V → K) (k : K) (l : List (K × V))
      → ((j : K) (v : V) → lookup j l ≡ some v → key v ≡ j)
      → ((j : K) → count (λ i. i == j) (keys_in l) ≤ 1)
      → count (λ v. key v == k) (values_in l) ≡ count (λ i. i == k) (keys_in l)
  unfolding lookup
  count-values_in key k [] h u = refl
  count-values_in key k ((j, w) ∷ l) h u =
      let same : key w ≡ j = h j w (rw (beq_self j) refl) in
      let rest =
        count-values_in key k l (λ i v f. h i v (lookup_back j w l u i v f))
          (λ i. ground (arith, u i)) in
      rw (same, rest) refl

  -- Values that name their keys have different names.
  pub count-values :
      (key : V → K) (d : Dict K V)
      → IsDistinct d
      → ((j : K) (v : V) → get d j ≡ some v → key v ≡ j)
      → (k : K) → count (λ v. key v == k) (values d) ≤ 1
  unfolding IsDistinct values get
  count-values key d u h k = rw (count-values_in key k d.entries h u) (u k)

  one_value_in :
      (p : V → Bool) (k : K) (v : V) (l : List (K × V))
      → lookup k l ≡ some v
      → p v ≡ true
      → 1 ≤ count p (values_in l)
  unfolding lookup
  one_value_in p k v [] h t = cc
  one_value_in p k v ((j, w) ∷ l) h t = ground (arith, one_value_in p k v l)

  -- The value at a key is among the values.
  pub one_value :
      (p : V → Bool) (d : Dict K V) (k : K) (v : V)
      → get d k ≡ some v
      → p v ≡ true
      → 1 ≤ count p (values d)
  unfolding values get
  one_value p d k v h t = one_value_in p k v d.entries h t
