-- ===== src/Settings.antt =====
-- crates/ruflo-cli/src/config_file.rs: the settings of a project, a JSON value that `get` and `set`
-- address by keys with dots. `Place` says which of the three files is meant.
pub mod Nested
pub mod Keys
pub mod Providers
use Prim.Native.Char.{code}
use ruflo_rust.Prelude.{
  length, format, zero, suc, ◌+◌, ◌-◌, ◌*◌, ◌^◌, not, true, false, some, none, [], ◌∷◌, ok, err,
  any, map, ◌≡◌, ◌>>=◌, refl, leb, ltb, split, nat_eq, string_eq, ◌==◌, if◌then◌else◌, ◌&&◌, ◌||◌,
  ℕ, String, Option, Bool, List, Result,
}
use ruflo_rust.Json.{Value, null, obj, arr, end, field, array, field_of, put_field, to_list}

abbrev pub not_an_index : String
not_an_index = "array key must be an index"

-- `text.parse::<usize>()` after the sign: `n` is the value of the digits so far.
abbrev digits : ℕ → String → Option ℕ
digits n String.[] = if ltb n (2 ^ 64) then some n else none
digits n (String.◌∷◌ c s) =
    let rest = digits (n * 10 + (code c - 48)) s in
    if leb 48 (code c) && leb (code c) 57 then rest else none

abbrev unsigned : String → Option ℕ
unsigned String.[] = none
unsigned (String.◌∷◌ c s) = digits 0 (String.◌∷◌ c s)

unfoldable pub parse_usize : String → Option ℕ
parse_usize String.[] = none
parse_usize (String.◌∷◌ c s) = if code c == 43 then unsigned s else unsigned (String.◌∷◌ c s)

-- `array.get(index)`
abbrev pub nth : ℕ → List Value → Option Value
nth i [] = none
nth zero (v ∷ vs) = some v
nth (suc i) (v ∷ vs) = nth i vs

-- `array.resize(index + 1, Value::Null)` where the array is shorter, and then `array[index] =
-- value`, for an index that `fits`.
abbrev pub put_at : ℕ → Value → List Value → List Value
put_at zero w [] = w ∷ []
put_at zero w (v ∷ vs) = w ∷ vs
put_at (suc i) w [] = null ∷ put_at i w []
put_at (suc i) w (v ∷ vs) = v ∷ put_at i w vs

unfoldable pub child_of : Value → String → Option Value
child_of (obj fs) part = field_of part fs
child_of (arr vs) part = elim (parse_usize part) [ none ↦ none | some i ↦ nth i (to_list vs) ]
child_of _ part = none

unfoldable pub get_parts : List String → Value → Option Value
get_parts [] v = some v
get_parts (part ∷ rest) v = elim (child_of v part) [ none ↦ none | some w ↦ get_parts rest w ]

unfoldable pub get : Value → String → Option Value
get config key = get_parts (split 46 key) config

-- How a call fails: with an error, or with a panic.
pub data Failure : Type 0 where
  refused : String → Failure
  panicked : Failure

-- An array that is too short is resized to `index + 1`, a panic where that overflows or where it is
-- more than `capacity`, the most elements that a vector can have.
abbrev pub fits : ℕ → ℕ → List Value → Bool
fits capacity i vs = ltb i (length vs) || (ltb (i + 1) (2 ^ 64) && leb (i + 1) capacity)

-- The write of one part; a value that has no parts becomes an object.
unfoldable pub put_child : ℕ → Value → String → Value → Result Value Failure
put_child capacity (obj fs) part w = ok (obj (put_field part w fs))
put_child capacity (arr vs) part w = elim (parse_usize part) [
  | none ↦ err (refused not_an_index)
  | some i ↦
      if fits capacity i (to_list vs) then ok (array (put_at i w (to_list vs))) else err panicked
]
put_child capacity _ part w = ok (obj (field part w end))

-- The child that the loop goes on with: one that is missing, or has no parts, becomes an object.
abbrev pub container : Option Value → Value
container (some (obj fs)) = obj fs
container (some (arr vs)) = arr vs
container _ = obj end

-- The array of a part is resized before the parts below it are looked at: whether the write of the
-- part fails does not depend on what is written, so that the first `put_child` tells.
unfoldable pub set_nested : ℕ → List String → Value → Value → Result Value Failure
set_nested capacity [] value current = ok current
set_nested capacity (part ∷ []) value current = put_child capacity current part value
set_nested capacity (part ∷ next ∷ rest) value current =
    put_child capacity current part null >>= (λ _.
      set_nested capacity (next ∷ rest) value (container (child_of current part))
      >>= (λ child. put_child capacity current part child))

-- The parsed contents of a file; `none` is one that cannot be read or is not JSON.
abbrev pub Contents : Type 0
Contents = Option Value

pub data Place : Type 0 where
  primary : Place
  secondary : Place
  outside : Place  -- the path in CLAUDE_FLOW_CONFIG

-- The files that exist.
pub record Files : Type 0 where
  pub primary_file : Option Contents
  pub secondary_file : Option Contents
  pub outside_file : Option Contents

unfoldable pub find : Files → Option (Place × Contents)
find fs = elim fs.primary_file [
  | some c ↦ some (primary, c)
  | none ↦ elim fs.secondary_file [
    | some c ↦ some (secondary, c)
    | none ↦ elim fs.outside_file [ some c ↦ some (outside, c) | none ↦ none ]
  ]
]

abbrev pub write_to : Place → Contents → Files → Files
write_to primary c fs = record fs { primary_file = some c }
write_to secondary c fs = record fs { secondary_file = some c }
write_to outside c fs = record fs { outside_file = some c }

-- What the system and serde_json supply to a call.
pub record Env : Type 0 where
  pub fault : Option String  -- the error of the write
  pub capacity : ℕ  -- the most elements of a vector
  pub reread : Value → Contents  -- what `from_str` makes of the text that is written for a value

-- A write that fails leaves the file as it was: `write_atomic` renames a temporary one.
unfoldable pub write_atomic : Env → Place → Value → Files → Result Place Failure × Files
write_atomic env place v fs = elim env.fault [
  | some e ↦ (err (refused e), fs)
  | none ↦ (ok place, write_to place (env.reread v) fs)
]

abbrev is_there : Option Contents → Bool
is_there none = false
is_there (some c) = true

-- The file that `set` writes: the one that is found, else the first.
abbrev pub target_of : Option (Place × Contents) → Place
target_of none = primary
target_of (some (place, c)) = place

-- `defaults` is the document of `defaults()`, and with it the operations on the files.
module _ (defaults : Value) where
  unfoldable pub load : Files → Value
  unfolding find
  load fs = elim (find fs) [ some (place, some v) ↦ v | _ ↦ defaults ]

  unfoldable pub set : Env → String → Value → Files → Result Place Failure × Files
  unfolding find load write_atomic
  set env key value fs =
      if key == "" || any (λ part. part == "") (split 46 key)
      then (err (refused "configuration key is invalid"), fs)
      else elim (set_nested env.capacity (split 46 key) value (load fs)) [
        | err e ↦ (err e, fs)
        | ok config ↦ write_atomic env (target_of (find fs)) config fs
      ]

  -- `path` is the path of the first file as it is shown.
  unfoldable pub create : Env → String → Bool → Files → Result Place Failure × Files
  unfolding write_atomic
  create env path force fs =
      if is_there fs.primary_file && not force
      then (
        err (
            refused (
              format ("Config file already exists: " ∷ path ∷ ". Use --force to overwrite." ∷ []))),
        fs,
      )
      else write_atomic env primary defaults fs

  unfoldable pub reset : Env → Files → Result Place Failure × Files
  unfolding write_atomic
  reset env fs = write_atomic env primary defaults fs

-- The file to import: its path as it is shown, and its contents if there is one.
unfoldable pub import_from : Env → String → Option Contents → Files → Result Place Failure × Files
unfolding write_atomic
import_from env path none fs = (err (refused (format ("Import file not found: " ∷ path ∷ []))), fs)
import_from env path (some none) fs =
    (err (refused (format ("Invalid JSON in import file: " ∷ path ∷ []))), fs)
import_from env path (some (some (obj gs))) fs = write_atomic env primary (obj gs) fs
import_from env path (some (some _)) fs =
    (err (refused "Import file must contain a JSON object"), fs)

parse_usize_test :
    map parse_usize ("12" ∷ "+5" ∷ "" ∷ "+" ∷ "1a" ∷ "18446744073709551616" ∷ [])
    ≡ some 12 ∷ some 5 ∷ none ∷ none ∷ none ∷ none ∷ []
unfolding parse_usize
parse_usize_test = refl
