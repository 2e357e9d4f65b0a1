-- ===== src/Storage/Spend/Limits.antt =====
-- What the ledger promises: how many permits run, and how many were launched.
use ruflo_rust.Prelude.{
  ◌∙◌, ℕ, ◌-◌, ◌≤◌, ◌<◌, String, ◌≡◌, ◌↔◌, refl, Bool, true, false, not, List, [], ◌∷◌, map, count,
  all, ok, err, arith, nat_eq, string_eq, count-append, leb,
}
use ruflo_rust.Dict.{put, get-put}
use ruflo_rust.Storage.Spend.{
  Permit, Ledger, fresh_ledger, limit_concurrent, limit_hourly, limit_daily, hour_ms, day_ms,
  is_active, count_active, count_since, is_paused, check, Reading, permit_name, taken, new_permit,
  reserve, release_row, release, pause, resume,
}

-- A permit is granted exactly when the ledger is not paused, no permit is running, fewer than two
-- were launched in the last hour and fewer than twelve in the last day, and its name is not taken.
reserve_iff :
    (r : Reading) (kind worker workspace : String) (l : Ledger)
    → ((reserve r kind worker workspace l).0 ≡ ok (permit_name r)) ↔ (
        (is_paused l ≡ false)
        × (count_active l < limit_concurrent)
        × (count_since l (r.check_ms - hour_ms) < limit_hourly)
        × (count_since l (r.check_ms - day_ms) < limit_daily)
        × (taken l (permit_name r) ≡ false))
unfolding reserve check
reserve_iff r kind worker workspace l = ground arith

pub data Op : Type 0 where
  reserving : Reading → String → String → String → Op
  releasing : ℕ → String → Op
  pausing : String → Op
  resuming : Op

abbrev pub apply : Op → Ledger → Ledger
apply (reserving r kind worker workspace) l = (reserve r kind worker workspace l).1
apply (releasing now permit) l = release now permit l
apply (pausing reason) l = pause reason l
apply resuming l = resume l

-- The operations that write the pause.
abbrev pub is_pausing : Op → Bool
is_pausing (pausing _) = true
is_pausing resuming = true
is_pausing _ = false

abbrev pub apply_all : List Op → Ledger → Ledger
apply_all [] l = l
apply_all (o ∷ os) l = apply_all os (apply o l)

count-release_row :
    (now : ℕ) (permit : String) (ps : List Permit)
    → count is_active (map (release_row now permit) ps) ≤ count is_active ps
count-release_row now permit [] = omega arith
count-release_row now permit (p ∷ ps) = ground (arith, count-release_row now permit ps)

apply-active :
    (o : Op) (l : Ledger)
    → count_active l ≤ limit_concurrent
    → count_active (apply o l) ≤ limit_concurrent
unfolding reserve check release pause resume
apply-active (reserving r kind worker workspace) l h =
    ground (arith, count-append is_active l.spend (new_permit r kind worker workspace ∷ []))
apply-active (releasing now permit) l h = ground (arith, count-release_row now permit l.spend)
apply-active (pausing reason) l h = h
apply-active resuming l h = h

-- At most one permit runs at a time, after any history of operations on an empty ledger, each of
-- which runs from start to end before the next.
pub apply_all-active : (os : List Op) → count_active (apply_all os fresh_ledger) ≤ limit_concurrent
apply_all-active os = go os fresh_ledger (omega arith)
  where
    go :
        (os : List Op) (l : Ledger)
        → count_active l ≤ limit_concurrent
        → count_active (apply_all os l) ≤ limit_concurrent
    go [] l h = h
    go (o ∷ os) l h = go os (apply o l) (apply-active o l h)

-- A grant keeps the launch limits: counted from the hour and from the day before the check, at
-- most two and at most twelve permits are on the ledger with the new one.
pub reserve-launches :
    (r : Reading) (kind worker workspace permit : String) (l : Ledger)
    → (reserve r kind worker workspace l).0 ≡ ok permit
    → let l' = (reserve r kind worker workspace l).1 in
      (count_since l' (r.check_ms - hour_ms) ≤ limit_hourly)
      × (count_since l' (r.check_ms - day_ms) ≤ limit_daily)
unfolding reserve check
reserve-launches r kind worker workspace permit l h =
    let new = new_permit r kind worker workspace ∷ [] in
    (
      ground (arith, count-append (λ p. leb (r.check_ms - hour_ms) p.at_ms) l.spend new),
      ground (arith, count-append (λ p. leb (r.check_ms - day_ms) p.at_ms) l.spend new),
    )

apply-meta : (o : Op) (l : Ledger) → not (is_pausing o) ≡ true → (apply o l).meta ≡ l.meta
unfolding reserve release
apply-meta (reserving r kind worker workspace) l h = ground arith
apply-meta (releasing now permit) l h = refl
apply-meta (pausing reason) l h = cc
apply-meta resuming l h = cc

apply_all-meta :
    (os : List Op) (l : Ledger)
    → all (λ o. not (is_pausing o)) os ≡ true
    → (apply_all os l).meta ≡ l.meta
apply_all-meta [] l h = refl
apply_all-meta (o ∷ os) l h =
    apply_all-meta os (apply o l) (ground arith) ∙ apply-meta o l (ground arith)

-- A pause stops every reservation, with the pause's reason and no change, whatever is released in
-- between, until the ledger is resumed.
paused-reserve :
    (reason : String) (os : List Op) (l : Ledger) (r : Reading) (kind worker workspace : String)
    → all (λ o. not (is_pausing o)) os ≡ true
    → let l' = apply_all os (pause reason l) in
      reserve r kind worker workspace l' ≡ (err reason, l')
unfolding pause reserve check
paused-reserve reason os l r kind worker workspace h =
    let kept = apply_all-meta os (pause reason l) h in
    ground (
      arith,
      kept,
      get-put (put l.meta "paused" "1") "pause_reason" "paused" reason,
      get-put (put l.meta "paused" "1") "pause_reason" "pause_reason" reason,
      get-put l.meta "paused" "paused" "1",
    )
