-- ===== src/Prelude/Results.antt =====
-- `Result<T, E>` and the `?` operator.
use mathlib.Core.Path.{◌≡◌, refl}
use mathlib.Core.Logic.{◌⊎◌, inl, inr}
use native.Mathlib.Omega.{arith}
use mathlib.Core.Option.{Option, none, some}

pub data Result {ℓ κ} (A : Type ℓ) (E : Type κ) : Type (ℓ ⊔ κ) where
  ok : A → Result A E
  err : E → Result A E

module _ {κ} {E : Type κ} where
  infixl 5 ◌>>=◌ ◌>>◌
  abbrev pub ◌>>=◌ {ℓ ι} : {A : Type ℓ} {B : Type ι} → Result A E → (A → Result B E) → Result B E
  ok a >>= f = f a
  err e >>= f = err e

  abbrev pub ◌>>◌ {ℓ} : {B : Type ℓ} → Result (Unit {0}) E → Result B E → Result B E
  m >> k = m >>= λ _. k

  -- `option.ok_or_else(error)`
  abbrev pub ok_or {ℓ} : {A : Type ℓ} → Option A → E → Result A E
  ok_or none e = err e
  ok_or (some a) e = ok a

  pub Result-cases {ℓ} :
      {A : Type ℓ} (r : Result A E) → ((e : E) × (r ≡ err e)) ⊎ ((a : A) × (r ≡ ok a))
  Result-cases (ok a) = inr (a, refl)
  Result-cases (err e) = inl (e, refl)

  -- A chain that returns has returned at its first step.
  pub bind-ok {ℓ ι} :
      {A : Type ℓ} {B : Type ι} (m : Result A E) (f : A → Result B E) {b : B}
      → (m >>= f) ≡ ok b
      → (a : A) × (m ≡ ok a) × (f a ≡ ok b)
  bind-ok (ok a) f h = (a, refl, h)
  bind-ok (err e) f h = cc

  pub ok-injective {ℓ} : {A : Type ℓ} (a b : A) → Path (Result A E) (ok a) (ok b) → a ≡ b
  ok-injective a b h = ground arith
