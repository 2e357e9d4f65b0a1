-- ===== src/Storage/Migration/Outcome.antt =====
-- How a migration ends, step by step along `commit`.
use ruflo_rust.Prelude.{String, ◌≡◌, refl, ◌∙◌, subst, inl, inr, Option, some, Result, ok, err}
use ruflo_rust.Types.{RufloError}
use ruflo_rust.Storage.Migration.Files.{
  database, backup, staged, marker, lock, Disk, pure, ◌>>=◌, ◌>>◌, attempt, ignore, fs_read,
  fs_rename, fs_remove,
}
use ruflo_rust.Storage.Migration.Calls.{fs_read_lem, fs_rename_lem}
use ruflo_rust.Storage.Migration.Ends.{Ends, Ends-ok, Ends-bind, Ends-attempt, Ends-weaken}
use ruflo_rust.Storage.Migration.Keeps.{
  Holds, Keeps, Same-Holds, Keeps-ignore, Keeps-remove, Keeps-write_marker, Ends-dropping,
  keeps_rules,
}
use ruflo_rust.Storage.Migration.Recovery.{IsMigrated, IsWhole, Original}
use ruflo_rust.Storage.Migration.{
  MigrationPlan, MigrationOutcome, Paths, Session, new_session, make_backup, back_up, replaced,
  read_back, checked, commit,
}
use ruflo_rust.Storage.Migration.Steps.{
  Whole, Start, rollback_from_message_lem, make_backup_lem, stage_lem, read_original_lem,
  or_roll_back_lem, read_back_lem, checked_lem,
}

module _ (plan : MigrationPlan) (original : String) (strip_prefix : String → String → Option String)
    (display : RufloError → String) (paths : Paths) where
  module _ (migrated : String) where
    abbrev Swapped : Option String → Option String → Type 0
    Swapped x y = (x ≡ some migrated) × (y ≡ some original)

    -- After the rename, whether it was done.
    abbrev Renamed : Result (Unit {0}) String → Disk → Type 0
    Renamed (ok _) = Holds Swapped
    Renamed (err _) = Start plan original

    rename_lem :
        (d : Disk)
        → Start plan original d
        → d.files staged ≡ some migrated
        → Ends {E = RufloError} Renamed
            (λ _. Start plan original)
            (attempt (fs_rename staged database) d)
    rename_lem d h s =
        Ends-attempt {P = Renamed} (fs_rename staged database) d (fs_rename_lem staged database d)
          (λ _ d' e. (e.1 ∙ s, e.0 backup refl refl ∙ h.1))
          (λ _ d' e. Same-Holds (Original plan original) d d' e h)

    replaced_lem :
        (s : Session) (r : Result (Unit {0}) String) (d : Disk)
        → Renamed r d
        → Ends
            (λ _. Holds Swapped)
            (λ _. Whole plan original)
            (replaced strip_prefix display paths s r d)
    unfolding replaced pure
    replaced_lem s (ok _) d h = Ends-ok tt d h
    replaced_lem s (err e) d h =
        Ends-bind _ _ d
          ((Keeps-ignore (fs_remove staged)
              (Keeps-remove {X = Original plan original} staged refl)).at
            d h)
          (λ _ d h.
            rollback_from_message_lem plan original strip_prefix display paths s _ d (inl h.0, h.1))
          (λ _ d h. (inl h.0, h.1))

    reread_lem :
        (d : Disk)
        → Holds Swapped d
        → Ends {E = RufloError}
            (λ (r : Result String String). Holds Swapped)
            (λ _. Holds Swapped)
            (attempt (fs_read database) d)
    reread_lem d h =
        Ends-attempt {P = λ _. Holds Swapped} (fs_read database) d (fs_read_lem database d)
          (λ _ d' e. Same-Holds Swapped d d' e.0 h) (λ _ d' e. Same-Holds Swapped d d' e h)

  commit_tail :
      {X : Option String → Option String → Type 0}
      → (path : String)
      → Keeps {E = RufloError} {A = MigrationOutcome} X (do
        ignore (fs_remove marker)
        ignore (fs_remove lock)
        pure (record { database_path = paths.database_path; backup_path = path }))
  commit_tail path = search keeps_rules

  abbrev Ending : Option String → Option String → Type 0
  Ending x y = IsWhole plan original x

  abbrev Ended : MigrationOutcome → Disk → Type 0
  Ended _ d = IsMigrated plan original (d.files database)

  finish_lem :
      (migrated path : String) (s : Session) (d : Disk)
      → plan.transform original ≡ ok migrated
      → plan.validate migrated ≡ ok tt
      → Holds (Swapped migrated) d
      → Ends Ended
          (λ _. Holds Ending)
          ((do
            reread ← attempt (fs_read database)
            committed ← read_back strip_prefix display paths s reread
            checked strip_prefix display paths s (plan.validate committed)
            ignore (fs_remove marker)
            ignore (fs_remove lock)
            pure (record { database_path = paths.database_path; backup_path = path }))
            d)
  finish_lem m path s d t v h =
      let whole : (d : Disk) → Holds (Swapped m) d → Whole plan original d =
        λ _ h. (inr (m, t, v, h.0), h.1) in
      let on_error : (e : RufloError) (d : Disk) → Whole plan original d → Holds Ending d =
        λ _ _ h. h.0 in
      let on_swap : (e : RufloError) (d : Disk) → Holds (Swapped m) d → Holds Ending d =
        λ _ _ h. inr (m, t, v, h.0) in
      Ends-bind _ _ d (reread_lem m d h)
        (λ r d h.
          Ends-bind _ _ d (read_back_lem plan original strip_prefix display paths whole s r d h)
            (λ c d h.
              Ends-bind _ _ d
                (checked_lem plan original strip_prefix display paths whole s (plan.validate c) d h)
                (λ _ d h.
                  Ends-weaken _ ((commit_tail {X = Swapped m} path).at d h)
                    (λ _ _ h. (m, t, v, h.0)) on_swap)
                on_error)
            on_error)
        on_swap

  -- Whichever of the calls on the disk fail, and whatever the calls that fail leave in the file
  -- that they were writing: a migration of a database that is there ends with the migrated text in
  -- the database, which the plan validates, if it returns; and with that text or the original one
  -- if it fails.
  pub commit_lem :
      (d : Disk)
      → d.files database ≡ some original
      → Ends Ended
          (λ _ d'. IsWhole plan original (d'.files database))
          (commit strip_prefix display paths plan new_session d)
  unfolding commit back_up
  commit_lem d h =
      let on_error : (e : RufloError) (d : Disk) → Whole plan original d → Holds Ending d =
        λ _ _ h. h.0 in
      let on_start : (e : RufloError) (d : Disk) → Start plan original d → Holds Ending d =
        λ _ _ h. inl h.0 in
      let whole : (d : Disk) → Start plan original d → Whole plan original d =
        λ _ h. (inl h.0, h.1) in
      Ends-dropping Ending _ d (
        Ends-bind (make_backup strip_prefix display paths new_session) _ d
          (make_backup_lem plan original strip_prefix display paths d h)
          (λ b d h.
            Ends-bind _ _ d
              ((Keeps-write_marker {X = Original plan original} strip_prefix display paths b.1
                  "migrating").at
                d h)
              (λ _ d h.
                Ends-bind _ _ d (read_original_lem plan original strip_prefix display paths d h)
                  (λ c d e.
                    Ends-bind _ _ d
                      (or_roll_back_lem plan original strip_prefix display paths whole b.1
                        (plan.transform c) d e.1)
                      (λ m d k.
                        Ends-bind _ _ d
                          (or_roll_back_lem plan original strip_prefix display paths whole b.1
                            (plan.validate m) d k.1)
                          (λ _ d v.
                            Ends-bind _ _ d
                              (stage_lem plan original strip_prefix display paths m d v.1)
                              (λ _ d h'.
                                Ends-bind _ _ d (rename_lem m d h'.0 h'.1)
                                  (λ r d h'.
                                    Ends-bind _ _ d (replaced_lem m b.1 r d h')
                                      (λ _ d h'.
                                        finish_lem m b.0 b.1 d
                                          (subst (λ x. plan.transform x ≡ ok m) e.0 k.0) v.0 h')
                                      on_error)
                                  on_start)
                              on_start)
                          on_error)
                      on_error)
                  on_start)
              on_start)
          (λ _ _ h. inl h))
