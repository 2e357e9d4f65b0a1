-- ===== src/Storage/Migration/Calm.antt =====
-- A migration during which no call on the disk fails.
use ruflo_rust.Prelude.{
  inr, ◌⊎◌, inl, String, ◌≡◌, refl, Option, none, some, [], ◌∷◌, ok, err, format,
}
use ruflo_rust.Types.{RufloError, migration_failed}
use ruflo_rust.Storage.Migration.Files.{
  set_file, Place, database, backup, restore, marker, lock, Disk, pure, lift, ◌>>=◌, map_err,
  attempt, ignore, fs_read, fs_copy, fs_rename, fs_remove, fs_write, fs_set_permissions, fs_open,
  fs_append,
}
use ruflo_rust.Storage.Migration.{
  MigrationPlan, Paths, Session, new_session, map_io, set_owner_only_permissions, write_owner_only,
  write_marker, make_backup, back_up, rollback_with_reason, dropping, rollback_from_message,
  or_roll_back, replaced, read_back, checked, commit, reason_of, relative_backup,
  safe_project_relative, failure, append_recovery_reason,
}

module _ (plan : MigrationPlan) (original lock_text : String)
    (strip_prefix : String → String → Option String) (display : RufloError → String) (paths : Paths)
    (data_rel lock_rel backup_rel : String)
    (data_under : strip_prefix paths.project_root paths.database_path ≡ some data_rel)
    (lock_under : strip_prefix paths.project_root paths.lock_path ≡ some lock_rel)
    (backup_under : strip_prefix paths.project_root paths.backup_name ≡ some backup_rel)
    (files : Place → Option String) (there : files database ≡ some original)
    (locked : files lock ≡ some lock_text) where
  abbrev pub calm : (Place → Option String) → Disk
  calm fs = record { files = fs; faults = [] }

  abbrev pub marker_text : String → String → String
  marker_text status copy = format (
      "status=" ∷ status ∷ "\ndatabase=" ∷ data_rel ∷ "\nlock=" ∷ lock_rel ∷ "\nbackup=" ∷ copy
      ∷ "\n" ∷ [])

  write_marker_lem :
      (s : Session) (status copy : String) (fs : Place → Option String)
      → relative_backup strip_prefix display paths s.backup_path ≡ ok copy
      → write_marker strip_prefix display paths s status (calm fs)
        ≡ (ok tt, set_file marker (some (marker_text status copy)) (calm fs))
  unfolding write_marker write_owner_only set_owner_only_permissions map_io map_err ◌>>=◌ lift
      fs_write fs_set_permissions safe_project_relative pure
  write_marker_lem s status copy fs e = rw e (rw (data_under, lock_under) refl)

  abbrev backed_up : Session
  backed_up = record { backup_path = some paths.backup_name }

  relative_backup-backed_up :
      relative_backup strip_prefix display paths backed_up.backup_path ≡ ok backup_rel
  unfolding relative_backup safe_project_relative
  relative_backup-backed_up = rw backup_under refl

  make_backup_lem : make_backup strip_prefix display paths new_session (calm files) ≡ (
    ok (paths.backup_name, backed_up),
    set_file marker
        (some (marker_text "backup_created" "-"))
        (set_file backup (some original) (calm files)),
  )
  unfolding make_backup set_owner_only_permissions map_io map_err ◌>>=◌ fs_copy fs_set_permissions
      relative_backup pure
  make_backup_lem = rw (there) (
      rw
        (write_marker_lem new_session "backup_created" "-"
          (set_file backup (some original) (calm files)).files refl)
        refl)

  -- The disk when `commit` comes to the plan.
  abbrev prepared : Disk
  prepared = set_file marker (some (marker_text "migrating" backup_rel)) (
      set_file marker (some (marker_text "backup_created" "-"))
        (set_file backup (some original) (calm files)))

  prepared_lem :
      write_marker strip_prefix display paths backed_up "migrating" (
        set_file marker
          (some (marker_text "backup_created" "-"))
          (set_file backup (some original) (calm files)))
      ≡ (ok tt, prepared)
  prepared_lem =
      write_marker_lem backed_up "migrating" backup_rel
        (set_file marker (some (marker_text "backup_created" "-"))
          (set_file backup (some original) (calm files))).files
        relative_backup-backed_up

  -- Where the database, its lock and its backup are under the project root and the lock is there:
  -- if no call on the disk fails, the plan changes the text and accepts the new one, then the
  -- migration returns, with the new text in the database, the original in the backup, and neither
  -- marker nor lock.
  pub commit-ok :
      (migrated : String)
      → plan.transform original ≡ ok migrated
      → plan.validate migrated ≡ ok tt
      → let (r, d) = commit strip_prefix display paths plan new_session (calm files) in
        (r ≡ ok (record { database_path = paths.database_path; backup_path = paths.backup_name }))
        × (d.files database ≡ some migrated)
        × (d.files backup ≡ some original)
        × (d.files marker ≡ none)
        × (d.files lock ≡ none)
  unfolding commit dropping back_up write_owner_only set_owner_only_permissions map_io map_err ◌>>=◌
      pure lift attempt ignore fs_read fs_rename fs_remove fs_write fs_set_permissions or_roll_back
      replaced read_back checked
  commit-ok migrated t v =
      rw (make_backup_lem, prepared_lem)
        (rw (there) (rw (t) (rw (v) (rw (v) (rw (locked) (refl, refl, refl, refl, refl))))))

  abbrev pub recovery_text : String → String
  recovery_text reason =
      format (marker_text "rolled_back" backup_rel ∷ format ("reason=" ∷ reason ∷ "\n" ∷ []) ∷ [])

  abbrev restored : String → (Place → Option String) → Disk
  restored reason fs =
      let copied =
        set_file database (some original)
          (set_file restore none (set_file restore (some original) (calm fs))) in
      set_file lock none (
        set_file marker (some (recovery_text reason))
          (set_file marker (some (marker_text "rolled_back" backup_rel)) copied))

  rollback_lem :
      {A : Type 0} (reason : String) (fs : Place → Option String)
      → fs backup ≡ some original
      → fs lock ≡ some lock_text
      → rollback_from_message strip_prefix display paths {A = A} backed_up reason (calm fs)
        ≡ (err (migration_failed reason), restored reason fs)
  unfolding rollback_from_message rollback_with_reason dropping set_owner_only_permissions
      append_recovery_reason map_io map_err ◌>>=◌ pure lift attempt ignore fs_copy fs_rename
      fs_remove fs_set_permissions fs_open fs_append failure
  rollback_lem reason fs b l =
      let copied =
        set_file database (some original)
          (set_file restore none (set_file restore (some original) (calm fs))) in
      rw (b) (
        rw
          (write_marker_lem backed_up "rolled_back" backup_rel copied.files
            relative_backup-backed_up)
          (rw (l) refl))

  -- A plan that fails, in its change or in its test.
  abbrev pub Refuses : RufloError → Type 0
  Refuses e =
      (plan.transform original ≡ err e)
      ⊎ ((m : String) × (plan.transform original ≡ ok m) × (plan.validate m ≡ err e))

  -- Where the database, its lock and its backup are under the project root and the lock is there:
  -- if no call on the disk fails and the plan fails, in its change or in its test, then the
  -- migration fails with the reason of the plan, and leaves the original in the database and in the
  -- backup, the marker of a rollback with that reason, and no lock.
  pub commit-err :
      (e : RufloError)
      → Refuses e
      → let (r, d) = commit strip_prefix display paths plan new_session (calm files) in
        (r ≡ err (migration_failed (reason_of strip_prefix display paths e)))
        × (d.files database ≡ some original)
        × (d.files backup ≡ some original)
        × (d.files marker ≡ some (recovery_text (reason_of strip_prefix display paths e)))
        × (d.files lock ≡ none)
  unfolding commit dropping back_up map_io map_err ◌>>=◌ pure lift fs_read fs_remove or_roll_back
  commit-err e (inl t) =
      rw (make_backup_lem, prepared_lem)
        (rw (there) (
          rw (t) (
            rw
              (rollback_lem {A = String} (reason_of strip_prefix display paths e) prepared.files
                refl locked)
              (refl, refl, refl, refl, refl))))
  commit-err e (inr (m, t, v)) =
      rw (make_backup_lem, prepared_lem)
        (rw (there) (
          rw (t) (
            rw (v) (
              rw
                (rollback_lem {A = Unit {0}} (reason_of strip_prefix display paths e) prepared.files
                  refl locked)
                (refl, refl, refl, refl, refl)))))
