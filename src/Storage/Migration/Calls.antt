-- ===== src/Storage/Migration/Calls.antt =====
-- What each call on the disk does to the files, whether it fails or not.
use ruflo_rust.Prelude.{
  format, beq_self, String, ◌≡◌, refl, false, Option, none, some, List, [], ◌∷◌, nat_eq, ◌==◌,
  Option-cases, inl, inr,
}
use ruflo_rust.Storage.Migration.Files.{
  Place, Fault, Disk, Act, pure, ◌>>=◌, ◌>>◌, calling, content, spoil, missing, fs_read, fs_write,
  fs_copy, fs_rename, fs_remove, fs_set_permissions, fs_open, fs_append, rank, store,
}
use ruflo_rust.Storage.Migration.Ends.{Ends}

module _ {A : Type 0} {Q : A → Disk → Type 0} {R : String → Disk → Type 0} where
  calling_lem :
      (p : Option Place) (act : Act String A) (files : Place → Option String)
      (faults : List (Option Fault))
      → ((fs : List (Option Fault)) → Ends Q R (act (record { files = files; faults = fs })))
      → ((e : String) (left : Option String) (fs : List (Option Fault))
          → R e (spoil p left (record { files = files; faults = fs })))
      → Ends Q R (calling p act (record { files = files; faults = faults }))
  calling_lem p act files [] h k = h []
  calling_lem p act files (none ∷ fs) h k = h fs
  calling_lem p act files (some f ∷ fs) h k = record { at = k f.error f.left fs }

  content_lem :
      (p : Place) (f : String → Act String A) (d : Disk)
      → ((c : String) → d.files p ≡ some c → Ends Q R (f c d))
      → R missing d
      → Ends Q R ((content p >>= f) d)
  unfolding ◌>>=◌
  content_lem p f d h k = elim (Option-cases (d.files p)) [
    | inl e ↦ rw (e, content) (record { at = k })
    | inr (c, e) ↦ rw (e, content) (h c e)
  ]

-- Every file but one is as it was.
abbrev pub Elsewhere : Place → Disk → Disk → Type 0
Elsewhere p d d' = (q : Place) → (rank p == rank q) ≡ false → d'.files q ≡ d.files q

abbrev pub Same : Disk → Disk → Type 0
Same d d' = (q : Place) → d'.files q ≡ d.files q

spoil-Elsewhere :
    (p : Place) (left : Option String) (files : Place → Option String)
    (faults fs : List (Option Fault))
    → Elsewhere p
        (record { files = files; faults = faults })
        (spoil (some p) left (record { files = files; faults = fs }))
spoil-Elsewhere p none files faults fs q ne = refl
spoil-Elsewhere p (some c) files faults fs q ne = rw ne refl

pub fs_write_lem :
    (p : Place) (c : String) (d : Disk)
    → Ends
        (λ _ d'. Elsewhere p d d' × (d'.files p ≡ some c))
        (λ _ d'. Elsewhere p d d')
        (fs_write p c d)
unfolding fs_write
fs_write_lem p c d =
    calling_lem (some p) (store p (some c)) d.files d.faults
      (λ fs. record { at = (λ q ne. rw ne refl, rw (beq_self (rank p)) refl) })
      (λ e left fs. spoil-Elsewhere p left d.files d.faults fs)

pub fs_read_lem :
    (p : Place) (d : Disk)
    → Ends (λ c d'. Same d d' × (d.files p ≡ some c)) (λ _ d'. Same d d') (fs_read p d)
unfolding fs_read
fs_read_lem p d =
    calling_lem none (content p) d.files d.faults
      (λ fs. elim (Option-cases (d.files p)) [
        | inl e ↦ rw (e, content) (record { at = λ r. refl })
        | inr (c, e) ↦ rw (e, content) (record { at = (λ r. refl, refl) })
      ])
      (λ e left fs r. refl)

pub fs_copy_lem :
    (p q : Place) (d : Disk)
    → Ends
        (λ _ d'. Elsewhere q d d' × (d'.files q ≡ d.files p))
        (λ _ d'. Elsewhere q d d')
        (fs_copy p q d)
unfolding fs_copy
fs_copy_lem p q d =
    calling_lem (some q) (content p >>= λ c. store q (some c)) d.files d.faults
      (λ fs.
        content_lem p (λ c. store q (some c)) (record d { faults = fs })
          (λ c e. record { at = (λ r ne. rw ne refl, rw (beq_self (rank q), e) refl) })
          (λ r ne. refl))
      (λ e left fs. spoil-Elsewhere q left d.files d.faults fs)

pub fs_rename_lem :
    (p q : Place) (d : Disk)
    → Ends
        (λ _ d'.
          ((r : Place)
            → (rank p == rank r) ≡ false
            → (rank q == rank r) ≡ false
            → d'.files r ≡ d.files r)
          × (d'.files q ≡ d.files p))
        (λ _ d'. Same d d')
        (fs_rename p q d)
unfolding fs_rename ◌>>=◌
fs_rename_lem p q d =
    calling_lem none (content p >>= λ c. store p none >> store q (some c)) d.files d.faults
      (λ fs.
        content_lem p (λ c. store p none >> store q (some c)) (record d { faults = fs })
          (λ c e. record { at = (λ r ne mo. rw (mo, ne) refl, rw (beq_self (rank q), e) refl) })
          (λ r. refl))
      (λ e left fs r. refl)

pub fs_remove_lem :
    (p : Place) (d : Disk)
    → Ends (λ _ d'. Elsewhere p d d' × (d'.files p ≡ none)) (λ _ d'. Same d d') (fs_remove p d)
unfolding fs_remove
fs_remove_lem p d =
    calling_lem none (content p >>= λ _. store p none) d.files d.faults
      (λ fs.
        content_lem p (λ _. store p none) (record d { faults = fs })
          (λ c e. record { at = (λ r ne. rw ne refl, rw (beq_self (rank p)) refl) }) (λ r. refl))
      (λ e left fs r. refl)

pub fs_set_permissions_lem :
    (p : Place) (d : Disk) → Ends (λ _ d'. Same d d') (λ _ d'. Same d d') (fs_set_permissions p d)
unfolding fs_set_permissions pure
fs_set_permissions_lem p d =
    calling_lem none (content p >>= λ _. pure tt) d.files d.faults
      (λ fs.
        content_lem p (λ _. pure tt) (record d { faults = fs }) (λ c e. record { at = λ r. refl })
          (λ r. refl))
      (λ e left fs r. refl)

pub fs_open_lem :
    (p : Place) (d : Disk) → Ends (λ _ d'. Same d d') (λ _ d'. Same d d') (fs_open p d)
unfolding fs_open pure
fs_open_lem p d =
    calling_lem none (content p >>= λ _. pure tt) d.files d.faults
      (λ fs.
        content_lem p (λ _. pure tt) (record d { faults = fs }) (λ c e. record { at = λ r. refl })
          (λ r. refl))
      (λ e left fs r. refl)

pub fs_append_lem :
    (p : Place) (text : String) (d : Disk)
    → Ends (λ _ d'. Elsewhere p d d') (λ _ d'. Elsewhere p d d') (fs_append p text d)
unfolding fs_append
fs_append_lem p text d =
    let more : String → Act String (Unit {0}) = λ c. store p (some (format (c ∷ text ∷ []))) in
    calling_lem (some p) (content p >>= more) d.files d.faults
      (λ fs.
        content_lem p more (record d { faults = fs }) (λ c e. record { at = λ r ne. rw ne refl })
          (λ r ne. refl))
      (λ e left fs. spoil-Elsewhere p left d.files d.faults fs)
