-- ===== src/Storage/Spend.antt =====
-- `SpendLedger`: permits to run, with a limit on those that run at once, in an hour and in a day.
pub mod Limits
use ruflo_rust.Prelude.{
  ℕ, ◌-◌, String, ◌≡◌, Bool, true, false, not, ◌&&◌, ◌||◌, Option, none, some, List, [], ◌∷◌, ◌++◌,
  map, count, any, Result, ok, err, ◌>>◌, format, decimal, leb, string_eq, ◌==◌, if◌then◌else◌,
}
use ruflo_rust.Dict.{Dict, get, put, empty}

pub record Permit : Type 0 where
  pub permit_id : String
  pub kind : String
  pub at_ms : ℕ
  pub released_ms : Option ℕ
  pub pid : ℕ
  pub worker_type : String
  pub workspace : String

pub record Ledger : Type 0 where
  pub spend : List Permit
  pub meta : Dict String String

abbrev pub fresh_ledger : Ledger
fresh_ledger = record { spend = []; meta = empty }

abbrev pub limit_concurrent : ℕ
limit_concurrent = 1

abbrev pub limit_hourly : ℕ
limit_hourly = 2

abbrev pub limit_daily : ℕ
limit_daily = 12

abbrev pub hour_ms : ℕ
hour_ms = 3600000

abbrev pub day_ms : ℕ
day_ms = 86400000

-- `released_ms IS NULL`
abbrev pub is_active : Permit → Bool
is_active p = elim p.released_ms [ none ↦ true | some _ ↦ false ]

abbrev pub count_active : Ledger → ℕ
count_active l = count is_active l.spend

abbrev pub count_since : Ledger → ℕ → ℕ
count_since l since = count (λ p. leb since p.at_ms) l.spend

abbrev pub is_paused : Ledger → Bool
is_paused l = elim (get l.meta "paused") [ none ↦ false | some v ↦ v == "1" ]

abbrev pub limit_error : String → ℕ → ℕ → String
limit_error what n limit =
    format (what ∷ " limit reached (" ∷ decimal n ∷ "/" ∷ decimal limit ∷ ")" ∷ [])

unfoldable pub check : Ledger → ℕ → Result (Unit {0}) String
check l now =
    if is_paused l
    then err (elim (get l.meta "pause_reason") [ none ↦ "paused" | some reason ↦ reason ])
    else if leb limit_concurrent (count_active l)
    then err (limit_error "concurrent" (count_active l) limit_concurrent)
    else if leb limit_hourly (count_since l (now - hour_ms))
    then err (limit_error "hourly launch" (count_since l (now - hour_ms)) limit_hourly)
    else if leb limit_daily (count_since l (now - day_ms))
    then err (limit_error "daily launch" (count_since l (now - day_ms)) limit_daily)
    else ok tt

-- What a reservation reads from the system: the clock three times, and the process.
pub record Reading : Type 0 where
  pub check_ms : ℕ
  pub name_ms : ℕ
  pub insert_ms : ℕ
  pub process : ℕ

abbrev pub permit_name : Reading → String
permit_name r = format ("p-" ∷ decimal r.name_ms ∷ "-" ∷ decimal r.process ∷ [])

abbrev pub new_permit : Reading → String → String → String → Permit
new_permit r kind worker_type workspace = record {
  permit_id = permit_name r;
  kind = kind;
  at_ms = r.insert_ms;
  released_ms = none;
  pid = r.process;
  worker_type = worker_type;
  workspace = workspace;
}

abbrev pub taken : Ledger → String → Bool
taken l permit = any (λ p. p.permit_id == permit) l.spend

unfoldable pub reserve : Reading → String → String → String → Ledger → Result String String × Ledger
unfolding check
reserve r kind worker_type workspace l = elim (check l r.check_ms) [
  | err e ↦ (err e, l)
  | ok _ ↦
      if taken l (permit_name r)
      then (err "UNIQUE constraint failed: appliance_spend.permit_id", l)
      else (
        ok (permit_name r),
        record l { spend = l.spend ++ new_permit r kind worker_type workspace ∷ [] },
      )
]

abbrev release_row : ℕ → String → Permit → Permit
release_row now permit p = if p.permit_id == permit then record p { released_ms = some now } else p

-- An update of no row is a success too.
unfoldable pub release : ℕ → String → Ledger → Ledger
release now permit l = record l { spend = map (release_row now permit) l.spend }

unfoldable pub pause : String → Ledger → Ledger
pause reason l = record l { meta = put (put l.meta "paused" "1") "pause_reason" reason }

unfoldable pub resume : Ledger → Ledger
resume l = record l { meta = put (put l.meta "paused" "0") "pause_reason" "" }
