-- ===== src/Storage/Migration/Steps.antt =====
-- What the steps of `commit` before and around the replacement of the database leave.
use ruflo_rust.Prelude.{String, ◌≡◌, refl, ◌∙◌, sym, inl, Option, some, Result, ok, err}
use mathlib.Core.Option.{some-injective}
use ruflo_rust.Types.{RufloError, migration_failed}
use ruflo_rust.Storage.Migration.Files.{
  database, backup, staged, Disk, pure, lift, ◌>>◌, attempt, fs_read, fs_copy, fs_write,
  fs_set_permissions,
}
use ruflo_rust.Storage.Migration.Calls.{
  fs_read_lem, fs_write_lem, fs_copy_lem, fs_set_permissions_lem,
}
use ruflo_rust.Storage.Migration.Ends.{
  Ends, Ends-ok, Ends-err, Ends-bind, Ends-attempt, Ends-map_err, Ends-weaken,
}
use ruflo_rust.Storage.Migration.Keeps.{
  Holds, Keeps, Elsewhere-Holds, Same-Holds, Keeps-write_marker, Keeps-set_owner_only_permissions,
  keeps_rules,
}
use ruflo_rust.Storage.Migration.Recovery.{Kept, Original, rollback_lem}
use ruflo_rust.Storage.Migration.{
  failure, MigrationPlan, Paths, Session, new_session, map_io, set_owner_only_permissions,
  write_owner_only, write_marker, make_backup, rollback_from_message, or_roll_back, read_back,
  checked,
}

module _ (plan : MigrationPlan) (original : String) where
  abbrev pub Whole : Disk → Type 0
  Whole d = Holds (Kept plan original) d

  abbrev pub Start : Disk → Type 0
  Start d = Holds (Original plan original) d

abbrev Untouched : String → Option String → Option String → Type 0
Untouched original x y = x ≡ some original

module _ (plan : MigrationPlan) (original : String) (strip_prefix : String → String → Option String)
    (display : RufloError → String) (paths : Paths) where
  failure_lem :
      {A B : Type 0} {Q : B → Disk → Type 0} (reason : String) (r : Result A RufloError) (d : Disk)
      → Whole plan original d
      → Ends Q (λ _. Whole plan original) (lift (failure reason r) d)
  unfolding failure lift
  failure_lem reason (ok a) d h = Ends-err (migration_failed reason) d h
  failure_lem reason (err e) d h = Ends-err e d h

  -- An error leaves a whole text, and nothing is returned.
  pub rollback_from_message_lem :
      {A : Type 0} {Q : A → Disk → Type 0} (s : Session) (reason : String) (d : Disk)
      → Whole plan original d
      → Ends Q
          (λ _. Whole plan original)
          (rollback_from_message strip_prefix display paths s reason d)
  unfolding rollback_from_message
  rollback_from_message_lem s reason d h =
      Ends-bind (attempt _) _ d
        (Ends-attempt {P = λ _. Whole plan original} _ d
          (rollback_lem plan original strip_prefix display paths s reason d h)
          (λ _ d h. (inl h.0, h.1)) (λ _ d h. h))
        (failure_lem reason) (λ _ _ h. h)

  backup_tail :
      {X : Option String → Option String → Type 0}
      → Keeps {A = String × Session} X (do
        set_owner_only_permissions backup
        write_marker strip_prefix display paths new_session "backup_created"
        pure (paths.backup_name, record { backup_path = some paths.backup_name }))
  backup_tail = search (keeps_rules, Keeps-set_owner_only_permissions, Keeps-write_marker)

  -- The two steps that may turn back before the database is replaced, and the three after it.
  module _ {P : Disk → Type 0} (whole : (d : Disk) → P d → Whole plan original d) where
    pub or_roll_back_lem :
        {A : Type 0} (s : Session) (r : Result A RufloError) (d : Disk)
        → P d
        → Ends
            (λ a d'. (r ≡ ok a) × P d')
            (λ _. Whole plan original)
            (or_roll_back strip_prefix display paths s r d)
    unfolding or_roll_back pure
    or_roll_back_lem s (ok a) d h = Ends-ok a d (refl, h)
    or_roll_back_lem s (err e) d h = rollback_from_message_lem s _ d (whole d h)

    pub read_back_lem :
        (s : Session) (r : Result String String) (d : Disk)
        → P d
        → Ends (λ _. P) (λ _. Whole plan original) (read_back strip_prefix display paths s r d)
    unfolding read_back pure
    read_back_lem s (ok c) d h = Ends-ok c d h
    read_back_lem s (err e) d h = rollback_from_message_lem s _ d (whole d h)

    pub checked_lem :
        (s : Session) (r : Result (Unit {0}) RufloError) (d : Disk)
        → P d
        → Ends (λ _. P) (λ _. Whole plan original) (checked strip_prefix display paths s r d)
    unfolding checked pure
    checked_lem s (ok c) d h = Ends-ok tt d h
    checked_lem s (err e) d h = rollback_from_message_lem s _ d (whole d h)

  -- The backup: the database is the original all along.
  pub make_backup_lem :
      (d : Disk)
      → Holds (Untouched original) d
      → Ends
          (λ _. Start plan original)
          (λ _. Holds (Untouched original))
          (make_backup strip_prefix display paths new_session d)
  unfolding make_backup map_io pure
  make_backup_lem d h =
      Ends-bind _ _ d
        (Ends-map_err {Q = λ _. Start plan original} _ (fs_copy database backup) d (
          Ends-weaken (fs_copy database backup d) (fs_copy_lem database backup d)
            (λ _ d' e. (e.0 database refl ∙ h, e.1 ∙ h)) (λ _ d' e. e database refl ∙ h)))
        (λ _ d h.
          Ends-weaken _ ((backup_tail {X = Original plan original}).at d h) (λ _ _ h. h)
            (λ _ _ h. h.0))
        (λ _ _ h. h)

  pub stage_lem :
      (migrated : String) (d : Disk)
      → Start plan original d
      → Ends
          (λ _ d'. Start plan original d' × (d'.files staged ≡ some migrated))
          (λ _. Start plan original)
          (write_owner_only staged migrated d)
  unfolding write_owner_only set_owner_only_permissions map_io
  stage_lem migrated d h =
      Ends-bind _ _ d
        (Ends-map_err {Q = λ _ d'. Start plan original d' × (d'.files staged ≡ some migrated)} _
          (fs_write staged migrated) d
          (Ends-weaken (fs_write staged migrated d) (fs_write_lem staged migrated d)
            (λ _ d' e. (Elsewhere-Holds (Original plan original) staged d d' refl e.0 h, e.1))
            (λ _ d' e. Elsewhere-Holds (Original plan original) staged d d' refl e h)))
        (λ _ d h. Ends-map_err _ (fs_set_permissions staged) d (
          Ends-weaken (fs_set_permissions staged d) (fs_set_permissions_lem staged d)
            (λ _ d' e. (Same-Holds (Original plan original) d d' e h.0, e staged ∙ h.1))
            (λ _ d' e. Same-Holds (Original plan original) d d' e h.0)))
        (λ _ _ h. h)

  pub read_original_lem :
      (d : Disk)
      → Start plan original d
      → Ends
          (λ c d'. (c ≡ original) × Start plan original d')
          (λ _. Start plan original)
          (map_io "storage.migration.read" (fs_read database) d)
  unfolding map_io
  read_original_lem d h = Ends-map_err _ (fs_read database) d (
      Ends-weaken (fs_read database d) (fs_read_lem database d)
        (λ c d' e. (
          some-injective c original (sym e.1 ∙ h.0),
          Same-Holds (Original plan original) d d' e.0 h,
        ))
        (λ _ d' e. Same-Holds (Original plan original) d d' e h))
