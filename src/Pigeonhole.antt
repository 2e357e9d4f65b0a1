-- ===== src/Pigeonhole.antt =====
-- How many numbers of a range pass a test, and how many of a row of different names a list can
-- have.
use ruflo_rust.Prelude.{
  if◌then◌else◌, ℕ, zero, suc, ◌+◌, ◌<◌, ◌≤◌, String, ◌≡◌, refl, sym, ◌∙◌, Bool, true, false, ◌||◌,
  List, [], ◌∷◌, contains, length, arith, string_eq, eq_iff, ◌==◌, Bool-cases, inl, inr,
}

-- How many of the `m` numbers from `k` on pass a test.
unfoldable pub hits : (ℕ → Bool) → ℕ → ℕ → ℕ
hits p k zero = 0
hits p k (suc m) = let rest = hits p (suc k) m in if p k then suc rest else rest

hits-none : (k m : ℕ) → hits (λ i. false) k m ≡ 0
unfolding hits
hits-none k zero = refl
hits-none k (suc m) = hits-none (suc k) m

hits-or : (p q : ℕ → Bool) (k m : ℕ) → hits (λ i. p i || q i) k m ≤ hits p k m + hits q k m
unfolding hits
hits-or p q k zero = omega arith
hits-or p q k (suc m) = ground (arith, hits-or p q (suc k) m)

module _ (p : ℕ → Bool) (bound : ℕ)
    (once : (i j : ℕ) → i < bound → j < bound → p i ≡ true → p j ≡ true → i ≡ j) where
  no_hits : (i k m : ℕ) → i < k → k + m ≤ bound → p i ≡ true → hits p k m ≡ 0
  unfolding hits
  no_hits i k zero a b h = refl
  no_hits i k (suc m) a b h = ground (
    arith,
    once i k (omega arith) (omega arith) h,
    no_hits i (suc k) m (omega arith) (omega arith) h,
  )

  hits-le-1 : (k m : ℕ) → k + m ≤ bound → hits p k m ≤ 1
  unfolding hits
  hits-le-1 k zero b = omega arith
  hits-le-1 k (suc m) b = elim (Bool-cases (p k)) [
    | inl h ↦ rw (h, no_hits k (suc k) m (omega arith) (omega arith) h) (omega arith)
    | inr h ↦ rw h (hits-le-1 (suc k) m (omega arith))
  ]

-- Of names that differ, no more are in a list than the list has members.
module _ (name : ℕ → String) (bound : ℕ)
    (injective : (i j : ℕ) → i < bound → j < bound → name i ≡ name j → i ≡ j) where
  pub hits-le-length :
      (used : List String) (m : ℕ)
      → m ≤ bound
      → hits (λ i. contains (name i) used) 0 m ≤ length used
  hits-le-length [] m h = rw (hits-none 0 m) (omega arith)
  hits-le-length (x ∷ used) m h =
      let here =
        hits-le-1 (λ i. x == name i) bound
          (λ i j a b e f.
            injective i j a b (sym ((eq_iff x (name i)).0 e) ∙ (eq_iff x (name j)).0 f))
          0 m (omega arith) in
      let both = hits-or (λ i. x == name i) (λ i. contains (name i) used) 0 m in
      omega (arith, here, both, hits-le-length used m h)
