-- ===== src/Examples/Migration.antt =====
-- A migration that appends a line, one that fails, and one on a disk that fails.
use ruflo_rust.Prelude.{
  starts_with, split_once, if◌then◌else◌, String, ◌≡◌, refl, inl, true, Option, none, some, [], ◌∷◌,
  ok, err,
}
use ruflo_rust.Types.{RufloError, migration_failed}
use ruflo_rust.Storage.Migration.Files.{Place, database, backup, marker, lock, Disk}
use ruflo_rust.Storage.Migration.Ends.{Ends}
use ruflo_rust.Storage.Migration.Recovery.{IsMigrated, IsWhole}
use ruflo_rust.Storage.Migration.Outcome.{commit_lem}
use ruflo_rust.Storage.Migration.Calm.{commit-ok, commit-err, recovery_text}
use ruflo_rust.Storage.Migration.{
  MigrationPlan, append_plan, failing_plan, Paths, new_session, commit, reason_of,
}

abbrev paths : Paths
paths = record {
  project_root = "/p";
  database_path = "/p/db";
  lock_path = "/p/lock";
  marker_path = "/p/marker";
  backup_name = "/p/db.backup.1";
}

abbrev strip : String → String → Option String
strip root path =
    if starts_with path root
    then elim (split_once 112 path) [ none ↦ none | some (a, b) ↦ some b ]
    else none

abbrev display : RufloError → String
display e = "error"

abbrev plan : MigrationPlan
plan = append_plan (λ _ _. true) " v2"

abbrev files : Place → Option String
files database = some "data"
files lock = some "locked"
files _ = none

-- The copy of the database fails, and leaves half a backup.
abbrev failing_disk : Disk
failing_disk = record {
  files = files;
  faults = some (record { error = "disk full"; left = some "da" }) ∷ [];
}

commit_lem_example :
    Ends
      (λ _ d. IsMigrated plan "data" (d.files database))
      (λ _ d. IsWhole plan "data" (d.files database))
      (commit strip display paths plan new_session failing_disk)
commit_lem_example = commit_lem plan "data" strip display paths failing_disk refl

commit-ok_example :
    let (r, d) =
      commit strip display paths plan new_session (record { files = files; faults = [] }) in
    (r ≡ ok (record { database_path = "/p/db"; backup_path = "/p/db.backup.1" }))
    × (d.files database ≡ some "data v2")
    × (d.files backup ≡ some "data")
    × (d.files marker ≡ none)
    × (d.files lock ≡ none)
commit-ok_example =
    commit-ok plan "data" "locked" strip display paths "/db" "/lock" "/db.backup.1" refl refl refl
      files refl refl "data v2" refl refl

commit-err_example :
    let (r, d) =
      commit strip display paths failing_plan new_session (record { files = files; faults = [] }) in
    (r
      ≡ err (
          migration_failed
            (reason_of strip display paths (migration_failed "fixture migration failed"))))
    × (d.files database ≡ some "data")
    × (d.files backup ≡ some "data")
    × (d.files marker
        ≡ some (
            recovery_text failing_plan "data" "locked" strip display paths "/db" "/lock"
              "/db.backup.1" refl refl refl files refl refl
              (reason_of strip display paths (migration_failed "fixture migration failed"))))
    × (d.files lock ≡ none)
commit-err_example =
    commit-err failing_plan "data" "locked" strip display paths "/db" "/lock" "/db.backup.1" refl
      refl refl files refl refl (migration_failed "fixture migration failed") (inl refl)
