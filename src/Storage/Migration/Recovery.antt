-- ===== src/Storage/Migration/Recovery.antt =====
-- Whatever fails, the database is the original or the migrated and validated text.
use ruflo_rust.Prelude.{String, ◌≡◌, refl, ◌∙◌, ◌⊎◌, inl, Option, some, ok}
use ruflo_rust.Types.{RufloError}
use ruflo_rust.Storage.Migration.Files.{
  database, backup, restore, marker, lock, Disk, pure, lift, ◌>>◌, ignore, fs_copy, fs_rename,
  fs_remove, fs_set_permissions,
}
use ruflo_rust.Storage.Migration.Calls.{fs_copy_lem, fs_rename_lem, fs_set_permissions_lem}
use ruflo_rust.Storage.Migration.Ends.{Ends, Ends-bind, Ends-map_err, Ends-weaken}
use ruflo_rust.Storage.Migration.Keeps.{
  Keeps-lift, Holds, Keeps, Elsewhere-Holds, Same-Holds, Keeps-append_recovery_reason,
  Keeps-write_marker, Ends-dropping, keeps_rules,
}
use ruflo_rust.Storage.Migration.{
  MigrationPlan, Paths, Session, map_io, set_owner_only_permissions, write_marker,
  rollback_with_reason, RecoveryMetadata, append_recovery_reason,
}

-- The texts of the database and of the backup while a migration of `original` runs.
module _ (plan : MigrationPlan) (original : String) where
  abbrev pub IsMigrated : Option String → Type 0
  IsMigrated x =
      (c : String) × (plan.transform original ≡ ok c) × (plan.validate c ≡ ok tt) × (x ≡ some c)

  abbrev pub IsWhole : Option String → Type 0
  IsWhole x = (x ≡ some original) ⊎ IsMigrated x

  abbrev pub Kept : Option String → Option String → Type 0
  Kept x y = IsWhole x × (y ≡ some original)

  abbrev pub Original : Option String → Option String → Type 0
  Original x y = (x ≡ some original) × (y ≡ some original)

  module _ (strip_prefix : String → String → Option String) (display : RufloError → String)
      (paths : Paths) where
    -- The state between the copy back and the rename.
    abbrev Restoring : Disk → Type 0
    Restoring d = Holds Kept d × (d.files restore ≡ some original)

    restore_copy_lem :
        (d : Disk)
        → Holds Kept d
        → Ends
            (λ _. Restoring)
            (λ _. Holds Kept)
            (map_io "storage.rollback.restore_copy" (fs_copy backup restore) d)
    unfolding map_io
    restore_copy_lem d h = Ends-map_err _ (fs_copy backup restore) d (
        Ends-weaken (fs_copy backup restore d) (fs_copy_lem backup restore d)
          (λ _ d' e. (Elsewhere-Holds Kept restore d d' refl e.0 h, e.1 ∙ h.1))
          (λ _ d' e. Elsewhere-Holds Kept restore d d' refl e h))

    restore_permissions_lem :
        (d : Disk)
        → Restoring d
        → Ends (λ _. Restoring) (λ _. Holds Kept) (set_owner_only_permissions restore d)
    unfolding set_owner_only_permissions map_io
    restore_permissions_lem d h = Ends-map_err _ (fs_set_permissions restore) d (
        Ends-weaken (fs_set_permissions restore d) (fs_set_permissions_lem restore d)
          (λ _ d' e. (Same-Holds Kept d d' e h.0, e restore ∙ h.1))
          (λ _ d' e. Same-Holds Kept d d' e h.0))

    restore_rename_lem :
        (d : Disk)
        → Restoring d
        → Ends
            (λ _. Holds Original)
            (λ _. Holds Kept)
            (map_io "storage.rollback.restore" (fs_rename restore database) d)
    unfolding map_io
    restore_rename_lem d h = Ends-map_err _ (fs_rename restore database) d (
        Ends-weaken (fs_rename restore database d) (fs_rename_lem restore database d)
          (λ _ d' e. (e.1 ∙ h.1, e.0 backup refl refl ∙ h.0.1))
          (λ _ d' e. Same-Holds Kept d d' e h.0))

    Original-Kept : (e : RufloError) (d : Disk) → Holds Original d → Holds Kept d
    Original-Kept e d h = (inl h.0, h.1)

    rollback_tail :
        {X : Option String → Option String → Type 0}
        → (s : Session) (reason path : String)
        → Keeps {A = RecoveryMetadata} X (do
          write_marker strip_prefix display paths s "rolled_back"
          append_recovery_reason marker reason
          ignore (fs_remove lock)
          pure (record {
            database_path = paths.database_path;
            backup_path = path;
            marker_path = paths.marker_path;
            reason = reason;
          }))
    rollback_tail s reason path =
        search (keeps_rules, Keeps-write_marker, Keeps-append_recovery_reason)

    -- A rollback that returns has put the original back; one that fails leaves a whole text.
    pub rollback_lem :
        (s : Session) (reason : String) (d : Disk)
        → Holds Kept d
        → Ends
            (λ _. Holds Original)
            (λ _. Holds Kept)
            (rollback_with_reason strip_prefix display paths s reason d)
    unfolding rollback_with_reason
    rollback_lem s reason d h = Ends-dropping Kept _ d (
        Ends-bind (lift _) _ d ((Keeps-lift {X = Kept} _).at d h)
          (λ path d h.
            Ends-bind _ _ d (restore_copy_lem d h)
              (λ _ d h.
                Ends-bind _ _ d (restore_permissions_lem d h)
                  (λ _ d h.
                    Ends-bind _ _ d (restore_rename_lem d h)
                      (λ _ d h.
                        Ends-weaken _ ((rollback_tail {X = Original} s reason path).at d h)
                          (λ _ _ h. h) Original-Kept)
                      (λ _ _ h. h))
                  (λ _ _ h. h))
              (λ _ _ h. h))
          (λ _ _ h. h))
