-- ===== src/Storage/Migration/Ends.antt =====
-- Where an action on the disk ends, and the rules for blocks of such actions.
use ruflo_rust.Prelude.{Result, ok, err, nat_eq}
use ruflo_rust.Storage.Migration.Files.{
  with_err, as_value, Disk, Act, continue, ◌>>=◌, map_err, attempt,
}

abbrev At : {E A : Type 0} → (A → Disk → Type 0) → (E → Disk → Type 0) → Result A E × Disk → Type 0
At Q R (ok a, d) = Q a d
At Q R (err e, d) = R e d

-- Where an action ends: in a state of `Q` if it returns, of `R` if it fails.
pub record Ends {E A : Type 0} (Q : A → Disk → Type 0) (R : E → Disk → Type 0)
    (x : Result A E × Disk) : Type 0 where
  pub at : At Q R x

module _ {E A : Type 0} {Q : A → Disk → Type 0} {R : E → Disk → Type 0} where
  pub Ends-ok : (a : A) (d : Disk) → Q a d → Ends Q R (ok a, d)
  Ends-ok a d h = record { at = h }

  pub Ends-err : (e : E) (d : Disk) → R e d → Ends Q R (err e, d)
  Ends-err e d h = record { at = h }

  pub Ends-weaken :
      {Q' : A → Disk → Type 0} {R' : E → Disk → Type 0} (x : Result A E × Disk)
      → Ends Q R x
      → ((a : A) (d : Disk) → Q a d → Q' a d)
      → ((e : E) (d : Disk) → R e d → R' e d)
      → Ends Q' R' x
  Ends-weaken (ok a, d) h g k = record { at = g a d h.at }
  Ends-weaken (err e, d) h g k = record { at = k e d h.at }

  continue_lem :
      {B : Type 0} {Q' : B → Disk → Type 0} {R' : E → Disk → Type 0} (x : Result A E × Disk)
      (f : A → Act E B)
      → Ends Q R x
      → ((a : A) (d : Disk) → Q a d → Ends Q' R' (f a d))
      → ((e : E) (d : Disk) → R e d → R' e d)
      → Ends Q' R' (continue x f)
  continue_lem (ok a, d) f h g k = g a d h.at
  continue_lem (err e, d) f h g k = record { at = k e d h.at }

  -- A block: what holds after its first action leads to what holds after the rest.
  pub Ends-bind :
      {B : Type 0} {Q' : B → Disk → Type 0} {R' : E → Disk → Type 0} (m : Act E A) (f : A → Act E B)
      (d : Disk)
      → Ends Q R (m d)
      → ((a : A) (d' : Disk) → Q a d' → Ends Q' R' (f a d'))
      → ((e : E) (d' : Disk) → R e d' → R' e d')
      → Ends Q' R' ((m >>= f) d)
  unfolding ◌>>=◌
  Ends-bind m f d h g k = continue_lem (m d) f h g k

  as_value_lem :
      {F : Type 0} {R' : F → Disk → Type 0} {P : Result A E → Disk → Type 0} (x : Result A E × Disk)
      → Ends Q R x
      → ((a : A) (d : Disk) → Q a d → P (ok a) d)
      → ((e : E) (d : Disk) → R e d → P (err e) d)
      → Ends P R' (as_value x)
  as_value_lem (ok a, d) h f g = record { at = f a d h.at }
  as_value_lem (err e, d) h f g = record { at = g e d h.at }

  pub Ends-attempt :
      {F : Type 0} {R' : F → Disk → Type 0} {P : Result A E → Disk → Type 0} (m : Act E A)
      (d : Disk)
      → Ends Q R (m d)
      → ((a : A) (d' : Disk) → Q a d' → P (ok a) d')
      → ((e : E) (d' : Disk) → R e d' → P (err e) d')
      → Ends P R' (attempt m d)
  unfolding attempt
  Ends-attempt m d h f g = as_value_lem (m d) h f g

pub Ends-final :
    {E A : Type 0} {P : Disk → Type 0} (x : Result A E × Disk) → Ends (λ _. P) (λ _. P) x → P x.1
Ends-final (ok a, d) h = h.at
Ends-final (err e, d) h = h.at

module _ {E F A : Type 0} {Q : A → Disk → Type 0} {P : Disk → Type 0} where
  with_err_lem :
      (g : E → F) (x : Result A E × Disk) → Ends Q (λ _. P) x → Ends Q (λ _. P) (with_err g x)
  with_err_lem g (ok a, d) h = record { at = h.at }
  with_err_lem g (err e, d) h = record { at = h.at }

  pub Ends-map_err :
      (g : E → F) (m : Act E A) (d : Disk) → Ends Q (λ _. P) (m d) → Ends Q (λ _. P) (map_err g m d)
  unfolding map_err
  Ends-map_err g m d h = with_err_lem g (m d) h
