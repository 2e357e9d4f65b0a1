-- ===== src/Storage/Migration.antt =====
-- crates/ruflo-storage/src/migration.rs: a migration of the database, with a backup, a marker that
-- tells how far it came, and the way back. File contents are texts. The path functions of std and
-- the text of an error are arguments; the permissions themselves are not modelled.
pub mod Calls
pub mod Ends
pub mod Calm
pub mod Files
pub mod Keeps
pub mod Recovery
pub mod Steps
pub mod Outcome
use ruflo_rust.Prelude.{
  if◌then◌else◌, Bool, String, Option, none, some, List, [], ◌∷◌, Result, ok, err, format, ok_or,
}
use ruflo_rust.Types.{RufloError, migration_failed}
use ruflo_rust.Storage.Migration.Files.{
  Disk, Place, database, backup, staged, restore, marker, lock, Act, pure, lift, ◌>>=◌, ◌>>◌,
  attempt, ignore, map_err, fs_read, fs_write, fs_copy, fs_rename, fs_remove, fs_set_permissions,
  fs_open, fs_append,
}

pub record MigrationPlan : Type 0 where
  pub transform : String → Result String RufloError
  pub validate : String → Result (Unit {0}) RufloError

-- `MigrationPlan::append`; `ends_with` is the method of slices.
abbrev pub append_plan : (String → String → Bool) → String → MigrationPlan
append_plan ends_with bytes = record {
  transform = λ input. ok (format (input ∷ bytes ∷ []));
  validate = λ input.
      if ends_with input bytes
      then ok tt
      else err (migration_failed "postcondition validation failed");
}

abbrev pub failing_plan : MigrationPlan
failing_plan = record {
  transform = λ _. err (migration_failed "fixture migration failed");
  validate = λ _. ok tt;
}

pub record MigrationOutcome : Type 0 where
  pub database_path : String
  pub backup_path : String

pub record RecoveryMetadata : Type 0 where
  pub database_path : String
  pub backup_path : String
  pub marker_path : String
  pub reason : String

-- The fields of a session that do not change. `backup_name` is what `sibling_path` makes.
pub record Paths : Type 0 where
  pub project_root : String
  pub database_path : String
  pub lock_path : String
  pub marker_path : String
  pub backup_name : String

-- `backup_path`; it is set while the backup is there.
pub record Session : Type 0 where
  pub backup_path : Option String

abbrev pub new_session : Session
new_session = record { backup_path = none }

pub map_io : {A : Type 0} → String → Act String A → Act RufloError A
map_io code = map_err (λ e. migration_failed (format (code ∷ ": " ∷ e ∷ [])))

pub set_owner_only_permissions : Place → Act RufloError (Unit {0})
set_owner_only_permissions p = map_io "storage.permissions" (fs_set_permissions p)

pub write_owner_only : Place → String → Act RufloError (Unit {0})
write_owner_only p c = do map_io "storage.write" (fs_write p c); set_owner_only_permissions p

pub append_recovery_reason : Place → String → Act RufloError (Unit {0})
append_recovery_reason p reason = do
  map_io "storage.recovery.open" (fs_open p)
  map_io "storage.recovery.write" (fs_append p (format ("reason=" ∷ reason ∷ "\n" ∷ [])))

-- `Drop` of a session: the lock goes where the session did not finish.
abbrev pub dropped : {A : Type 0} → Result A RufloError × Disk → Result A RufloError × Disk
dropped (ok a, d) = (ok a, d)
dropped (err e, d) = (err e, (fs_remove lock d).1)

unfoldable pub dropping : {A : Type 0} → Act RufloError A → Act RufloError A
dropping m d = dropped (m d)

-- The error that a rollback for the given reason ends with.
pub failure : {A B : Type 0} → String → Result A RufloError → Result B RufloError
failure reason (ok _) = err (migration_failed reason)
failure reason (err e) = err e

module _ (strip_prefix : String → String → Option String) (display : RufloError → String)
    (paths : Paths) where
  pub safe_project_relative : String → Result String RufloError
  safe_project_relative path =
      ok_or (strip_prefix paths.project_root path)
        (migration_failed "migration marker escaped the configured project root")

  pub relative_backup : Option String → Result String RufloError
  relative_backup none = ok "-"
  relative_backup (some path) = safe_project_relative path

  pub write_marker : Session → String → Act RufloError (Unit {0})
  write_marker s status = do
    copy ← lift (relative_backup s.backup_path)
    data_path ← lift (safe_project_relative paths.database_path)
    lock_file ← lift (safe_project_relative paths.lock_path)
    write_owner_only marker (
        format (
          "status=" ∷ status ∷ "\ndatabase=" ∷ data_path ∷ "\nlock=" ∷ lock_file ∷ "\nbackup="
          ∷ copy ∷ "\n" ∷ []))

  -- The marker is written before the session has its backup path.
  pub make_backup : Session → Act RufloError (String × Session)
  make_backup s = do
    map_io "storage.backup.copy" (fs_copy database backup)
    set_owner_only_permissions backup
    write_marker s "backup_created"
    pure (paths.backup_name, record { backup_path = some paths.backup_name })

  pub back_up : Session → Act RufloError (String × Session)
  back_up s = elim s.backup_path [ some path ↦ pure (path, s) | none ↦ make_backup s ]

  pub rollback_with_reason : Session → String → Act RufloError RecoveryMetadata
  rollback_with_reason s reason = dropping (do
    path ← lift (ok_or s.backup_path (migration_failed "rollback requested before backup existed"))
    map_io "storage.rollback.restore_copy" (fs_copy backup restore)
    set_owner_only_permissions restore
    map_io "storage.rollback.restore" (fs_rename restore database)
    write_marker s "rolled_back"
    append_recovery_reason marker reason
    ignore (fs_remove lock)
    pure (record {
      database_path = paths.database_path;
      backup_path = path;
      marker_path = paths.marker_path;
      reason = reason;
    }))

  -- Always an error: the given reason, or the error of the rollback.
  pub rollback_from_message : {A : Type 0} → Session → String → Act RufloError A
  rollback_from_message s reason = do
    r ← attempt (rollback_with_reason s reason)
    lift (failure reason r)

  pub reason_of : RufloError → String
  reason_of (migration_failed message) = message
  reason_of e = display e

  pub or_roll_back : {A : Type 0} → Session → Result A RufloError → Act RufloError A
  or_roll_back s (ok a) = pure a
  or_roll_back s (err e) = rollback_from_message s (reason_of e)

  pub replaced : Session → Result (Unit {0}) String → Act RufloError (Unit {0})
  replaced s (ok _) = pure tt
  replaced s (err e) = do
    ignore (fs_remove staged)
    rollback_from_message s (format ("commit failed while replacing persisted state: " ∷ e ∷ []))

  pub read_back : Session → Result String String → Act RufloError String
  read_back s (ok c) = pure c
  read_back s (err e) =
      rollback_from_message s
        (format ("postcondition validation could not read migrated state: " ∷ e ∷ []))

  pub checked : Session → Result (Unit {0}) RufloError → Act RufloError (Unit {0})
  checked s (ok _) = pure tt
  checked s (err e) =
      rollback_from_message s
        (format ("postcondition validation failed after commit: " ∷ display e ∷ []))

  pub commit : MigrationPlan → Session → Act RufloError MigrationOutcome
  commit plan s = dropping (do
    (path, s') ← back_up s
    write_marker s' "migrating"
    original ← map_io "storage.migration.read" (fs_read database)
    migrated ← or_roll_back s' (plan.transform original)
    or_roll_back s' (plan.validate migrated)
    write_owner_only staged migrated
    renamed ← attempt (fs_rename staged database)
    replaced s' renamed
    reread ← attempt (fs_read database)
    committed ← read_back s' reread
    checked s' (plan.validate committed)
    ignore (fs_remove marker)
    ignore (fs_remove lock)
    pure (record { database_path = paths.database_path; backup_path = path }))
