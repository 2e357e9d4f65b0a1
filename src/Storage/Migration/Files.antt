-- ===== src/Storage/Migration/Files.antt =====
-- The files that one migration touches, and the calls of std::fs on them. Their paths differ: the
-- names of the copies end in a number that is used once. A call may fail, as the list of faults
-- says; a write or a copy that fails may leave any text in the file that it was writing, and a
-- rename is done wholly or not at all.
use ruflo_rust.Prelude.{
  ℕ, String, Option, none, some, List, [], ◌∷◌, Result, ok, err, format, if◌then◌else◌, nat_eq,
  ◌==◌,
}

pub data Place : Type 0 where
  database : Place
  backup : Place
  staged : Place
  restore : Place
  marker : Place
  lock : Place

abbrev pub rank : Place → ℕ
rank database = 0
rank backup = 1
rank staged = 2
rank restore = 3
rank marker = 4
rank lock = 5

pub record Fault : Type 0 where
  pub error : String
  pub left : Option String  -- what the file that was being written holds then

-- One fault, or none, for each call that is still to come; then there are no more.
pub record Disk : Type 0 where
  pub files : Place → Option String
  pub faults : List (Option Fault)

abbrev pub set_file : Place → Option String → Disk → Disk
set_file p c d = record d { files = λ q. if rank p == rank q then c else d.files q }

-- A fallible action on the disk.
abbrev pub Act : Type 0 → Type 0 → Type 0
Act E A = Disk → Result A E × Disk

module _ {E : Type 0} where
  unfoldable pub pure : {A : Type 0} → A → Act E A
  pure a d = (ok a, d)

  unfoldable pub lift : {A : Type 0} → Result A E → Act E A
  lift r d = (r, d)

  abbrev pub continue : {A B : Type 0} → Result A E × Disk → (A → Act E B) → Result B E × Disk
  continue (ok a, d) f = f a d
  continue (err e, d) f = (err e, d)

  infixl 5 ◌>>=◌ ◌>>◌
  unfoldable pub ◌>>=◌ : {A B : Type 0} → Act E A → (A → Act E B) → Act E B
  ◌>>=◌ m f d = continue (m d) f

  abbrev pub ◌>>◌ : {A B : Type 0} → Act E A → Act E B → Act E B
  m >> n = m >>= λ _. n

abbrev pub as_value : {E F A : Type 0} → Result A E × Disk → Result (Result A E) F × Disk
as_value (r, d) = (ok r, d)

-- The outcome of an action as a value, for a `match` on it.
unfoldable pub attempt : {E F A : Type 0} → Act E A → Act F (Result A E)
attempt m d = as_value (m d)

-- `let _ = action;`
unfoldable pub ignore : {E F A : Type 0} → Act E A → Act F (Unit {0})
ignore m d = (ok tt, (m d).1)

abbrev pub with_err : {E F A : Type 0} → (E → F) → Result A E × Disk → Result A F × Disk
with_err g (ok a, d) = (ok a, d)
with_err g (err e, d) = (err (g e), d)

unfoldable pub map_err : {E F A : Type 0} → (E → F) → Act E A → Act F A
map_err g m d = with_err g (m d)

abbrev pub spoil : Option Place → Option String → Disk → Disk
spoil none left d = d
spoil (some p) none d = d
spoil (some p) (some c) d = set_file p (some c) d

-- A call that writes to the given place, if any.
abbrev pub calling : {A : Type 0} → Option Place → Act String A → Act String A
calling p act d = elim d.faults [
  | [] ↦ act d
  | none ∷ fs ↦ act (record d { faults = fs })
  | some f ∷ fs ↦ (err f.error, spoil p f.left (record d { faults = fs }))
]

abbrev pub missing : String
missing = "No such file or directory (os error 2)"

abbrev pub content : Place → Act String String
content p d = elim (d.files p) [ none ↦ (err missing, d) | some c ↦ (ok c, d) ]

abbrev pub store : Place → Option String → Act String (Unit {0})
store p c d = (ok tt, set_file p c d)

unfoldable pub fs_read : Place → Act String String
fs_read p = calling none (content p)

unfoldable pub fs_write : Place → String → Act String (Unit {0})
fs_write p c = calling (some p) (store p (some c))

unfoldable pub fs_copy : Place → Place → Act String (Unit {0})
fs_copy p q = calling (some q) (content p >>= λ c. store q (some c))

unfoldable pub fs_rename : Place → Place → Act String (Unit {0})
fs_rename p q = calling none (content p >>= λ c. store p none >> store q (some c))

unfoldable pub fs_remove : Place → Act String (Unit {0})
fs_remove p = calling none (content p >>= λ _. store p none)

unfoldable pub fs_set_permissions : Place → Act String (Unit {0})
fs_set_permissions p = calling none (content p >>= λ _. pure tt)

unfoldable pub fs_open : Place → Act String (Unit {0})
fs_open p = calling none (content p >>= λ _. pure tt)

unfoldable pub fs_append : Place → String → Act String (Unit {0})
fs_append p text = calling (some p) (content p >>= λ c. store p (some (format (c ∷ text ∷ []))))
