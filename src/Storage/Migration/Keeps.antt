-- ===== src/Storage/Migration/Keeps.antt =====
-- Properties of the database and the backup, which the calls on the other files keep.
use ruflo_rust.Prelude.{String, ◌≡◌, refl, Bool, true, false, Option, Result, ok, err}
use ruflo_rust.Types.{RufloError}
use ruflo_rust.Storage.Migration.Files.{
  Place, database, backup, staged, restore, marker, lock, Disk, Act, pure, lift, ◌>>=◌, map_err,
  ignore, fs_write, fs_remove, fs_set_permissions, fs_open, fs_append,
}
use ruflo_rust.Storage.Migration.Calls.{
  Elsewhere, Same, fs_write_lem, fs_remove_lem, fs_set_permissions_lem, fs_open_lem, fs_append_lem,
}
use ruflo_rust.Storage.Migration.Ends.{
  Ends, Ends-ok, Ends-err, Ends-bind, Ends-map_err, Ends-weaken, Ends-final,
}
use ruflo_rust.Storage.Migration.{
  Paths, Session, map_io, set_owner_only_permissions, write_owner_only, append_recovery_reason,
  dropped, dropping, write_marker,
}

-- The places other than the database and the backup.
abbrev pub is_aside : Place → Bool
is_aside database = false
is_aside backup = false
is_aside _ = true

abbrev pub Holds : (Option String → Option String → Type 0) → Disk → Type 0
Holds X d = X (d.files database) (d.files backup)

-- The action keeps the property, whether it returns or fails.
pub record Keeps {E A : Type 0} (X : Option String → Option String → Type 0) (m : Act E A)
    : Type 0 where
  pub at : (d : Disk) → Holds X d → Ends (λ (a : A). Holds X) (λ (e : E). Holds X) (m d)

module _ (X : Option String → Option String → Type 0) where
  pub Elsewhere-Holds :
      (p : Place) (d d' : Disk) → is_aside p ≡ true → Elsewhere p d d' → Holds X d → Holds X d'
  Elsewhere-Holds database d d' a e h = cc
  Elsewhere-Holds backup d d' a e h = cc
  Elsewhere-Holds staged d d' a e h = rw (e database refl, e backup refl) h
  Elsewhere-Holds restore d d' a e h = rw (e database refl, e backup refl) h
  Elsewhere-Holds marker d d' a e h = rw (e database refl, e backup refl) h
  Elsewhere-Holds lock d d' a e h = rw (e database refl, e backup refl) h

  pub Same-Holds : (d d' : Disk) → Same d d' → Holds X d → Holds X d'
  Same-Holds d d' e h = rw (e database, e backup) h

module _ {X : Option String → Option String → Type 0} where
  pub Keeps-bind :
      {E A B : Type 0} (m : Act E A) (f : A → Act E B)
      → Keeps X m
      → ((a : A) → Keeps X (f a))
      → Keeps X (m >>= f)
  Keeps-bind m f km kf = record {
    at = λ d h. Ends-bind m f d (km.at d h) (λ a. (kf a).at) (λ _ d' h'. h');
  }

  pub Keeps-lift : {E A : Type 0} (r : Result A E) → Keeps X (lift r)
  unfolding lift
  Keeps-lift (ok a) = record { at = λ d h. Ends-ok a d h }
  Keeps-lift (err e) = record { at = λ d h. Ends-err e d h }

  pub Keeps-pure : {E A : Type 0} (a : A) → Keeps X (pure {E = E} a)
  unfolding pure
  Keeps-pure a = record { at = λ d h. Ends-ok a d h }

  pub Keeps-map_err : {E F A : Type 0} (g : E → F) (m : Act E A) → Keeps X m → Keeps X (map_err g m)
  Keeps-map_err g m k = record { at = λ d h. Ends-map_err g m d (k.at d h) }

  pub Keeps-ignore : {E F A : Type 0} (m : Act E A) → Keeps X m → Keeps X (ignore {F = F} m)
  unfolding ignore
  Keeps-ignore m k = record { at = λ d h. Ends-ok tt (m d).1 (Ends-final (m d) (k.at d h)) }

  pub Keeps-set_permissions : (p : Place) → Keeps X (fs_set_permissions p)
  Keeps-set_permissions p = record {
    at = λ d h.
        Ends-weaken (fs_set_permissions p d) (fs_set_permissions_lem p d)
          (λ _ d' e. Same-Holds X d d' e h) (λ _ d' e. Same-Holds X d d' e h);
  }

  pub Keeps-open : (p : Place) → Keeps X (fs_open p)
  Keeps-open p = record {
    at = λ d h.
        Ends-weaken (fs_open p d) (fs_open_lem p d) (λ _ d' e. Same-Holds X d d' e h)
          (λ _ d' e. Same-Holds X d d' e h);
  }

  pub Keeps-write : (p : Place) (c : String) → is_aside p ≡ true → Keeps X (fs_write p c)
  Keeps-write p c a = record {
    at = λ d h.
        Ends-weaken (fs_write p c d) (fs_write_lem p c d)
          (λ _ d' e. Elsewhere-Holds X p d d' a e.0 h) (λ _ d' e. Elsewhere-Holds X p d d' a e h);
  }

  pub Keeps-append : (p : Place) (c : String) → is_aside p ≡ true → Keeps X (fs_append p c)
  Keeps-append p c a = record {
    at = λ d h.
        Ends-weaken (fs_append p c d) (fs_append_lem p c d)
          (λ _ d' e. Elsewhere-Holds X p d d' a e h) (λ _ d' e. Elsewhere-Holds X p d d' a e h);
  }

  pub Keeps-remove : (p : Place) → is_aside p ≡ true → Keeps X (fs_remove p)
  Keeps-remove p a = record {
    at = λ d h.
        Ends-weaken (fs_remove p d) (fs_remove_lem p d) (λ _ d' e. Elsewhere-Holds X p d d' a e.0 h)
          (λ _ d' e. Same-Holds X d d' e h);
  }

  pub ruleset keeps_rules = (
    Keeps-bind, Keeps-lift, Keeps-pure, Keeps-map_err, Keeps-ignore, Keeps-set_permissions,
    Keeps-open, Keeps-write, Keeps-append, Keeps-remove,
  )

  pub Keeps-set_owner_only_permissions : (p : Place) → Keeps X (set_owner_only_permissions p)
  unfolding set_owner_only_permissions map_io
  Keeps-set_owner_only_permissions p = search keeps_rules

  pub Keeps-write_owner_only :
      (p : Place) (c : String) → is_aside p ≡ true → Keeps X (write_owner_only p c)
  unfolding write_owner_only map_io
  Keeps-write_owner_only p c a = search (keeps_rules, Keeps-set_owner_only_permissions)

  pub Keeps-append_recovery_reason :
      (reason : String) → Keeps X (append_recovery_reason marker reason)
  unfolding append_recovery_reason map_io
  Keeps-append_recovery_reason reason = search keeps_rules

  pub Keeps-write_marker :
      (strip_prefix : String → String → Option String) (display : RufloError → String)
      (paths : Paths) (s : Session) (status : String)
      → Keeps X (write_marker strip_prefix display paths s status)
  unfolding write_marker
  Keeps-write_marker strip_prefix display paths s status =
      search (keeps_rules, Keeps-write_owner_only)

module _ (X : Option String → Option String → Type 0) where
  dropped_lem :
      {A : Type 0} {Q : A → Disk → Type 0} (x : Result A RufloError × Disk)
      → Ends Q (λ _. Holds X) x
      → Ends Q (λ _. Holds X) (dropped x)
  dropped_lem (ok a, d) h = Ends-ok a d h.at
  dropped_lem (err e, d) h =
      Ends-err e (fs_remove lock d).1
        (Ends-final (fs_remove lock d) ((Keeps-remove {X = X} lock refl).at d h.at))

  pub Ends-dropping :
      {A : Type 0} {Q : A → Disk → Type 0} (m : Act RufloError A) (d : Disk)
      → Ends Q (λ _. Holds X) (m d)
      → Ends Q (λ _. Holds X) (dropping m d)
  unfolding dropping
  Ends-dropping m d h = dropped_lem (m d) h
