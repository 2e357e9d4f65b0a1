-- ===== src/Dual/Workers.antt =====
-- `parse_workers`: the workers of the command line, each with an identifier of its own. The search
-- for a free identifier is on fuel, one more than there are identifiers in use; Dual/Naming shows
-- that it is enough.
use Prim.Native.Char.{code}
use ruflo_rust.Prelude.{
  before, after, ℕ, zero, suc, String, Bool, true, not, ◌||◌, ◌^◌, ltb, Option, none, some, List,
  [], ◌∷◌, contains, length, Result, ok, err, format, decimal, is_whitespace, trim, string_eq,
  nat_eq, ◌==◌, if◌then◌else◌,
}
use ruflo_rust.Dual.Options.{is_read_only_role}

pub record Worker : Type 0 where
  pub id : String
  pub role : String
  pub prompt : String
  pub read_only : Bool

abbrev starts_blank : String → Bool
starts_blank String.[] = true
starts_blank (String.◌∷◌ c s) = is_whitespace (code c)

-- `split_whitespace`
abbrev words : String → List String
words String.[] = []
words (String.◌∷◌ c s) =
    let rest = words s in
    if is_whitespace (code c)
    then rest
    else if starts_blank s
    then String.◌∷◌ c "" ∷ rest
    else elim rest [ [] ↦ String.◌∷◌ c "" ∷ [] | w ∷ ws ↦ String.◌∷◌ c w ∷ ws ]

abbrev join : List String → String
join [] = ""
join (w ∷ []) = w
join (w ∷ v ∷ ws) = format (w ∷ "-" ∷ join (v ∷ ws) ∷ [])

abbrev pub with_suffix : String → ℕ → String
with_suffix base n = format (base ∷ "-" ∷ decimal n ∷ [])

-- The loop that looks for an identifier that is not in use. The suffix is an `i32`: `none` is the
-- overflow of `suffix += 1`, a panic where overflow is checked, or the end of the fuel.
unfoldable pub free_id : ℕ → String → ℕ → String → List String → Option String
free_id zero base suffix id used = none
free_id (suc fuel) base suffix id used =
    let next = free_id fuel base (suc suffix) (with_suffix base suffix) used in
    if not (contains id used) then some id else if ltb (suc suffix) (2 ^ 31) then next else none

abbrev pub wrong_platform : String → String
wrong_platform platform = format (
    "native dual-run currently supports only `codex` workers; `" ∷ platform
    ∷ "` requires its own native scheduler" ∷ [])

abbrev pub invalid_spec : String → String
invalid_spec spec = format (
    "Invalid --worker spec \"" ∷ spec
    ∷ "\". Expected \"<platform>:<role>:<prompt>\" (platform = claude|codex)." ∷ [])

module _ (lower : String → String) where
  abbrev pub base_id : String → String
  base_id role = lower (join (words role))

  abbrev pub worker_of : String → String → String → Worker
  worker_of id role prompt = record {
    id = id;
    role = role;
    prompt = prompt;
    read_only = is_read_only_role lower role;
  }

  -- One turn of the loop, on the value of a flag.
  unfoldable pub parse_worker : List String → String → Option (Result Worker String)
  unfolding free_id
  parse_worker used spec =
      let platform = lower (trim (before 58 spec)) in
      let role = trim (before 58 (after 58 spec)) in
      let prompt = trim (after 58 (after 58 spec)) in
      if not (platform == "codex")
      then some (err (wrong_platform platform))
      else if role == "" || prompt == ""
      then some (err (invalid_spec spec))
      else elim (free_id (suc (length used)) (base_id role) 2 (base_id role) used) [
        | none ↦ none
        | some id ↦ some (ok (worker_of id role prompt))
      ]

  abbrev pub is_flag : String → Bool
  is_flag a = a == "--worker" || a == "-w"

  abbrev pub prepend :
      Worker → Option (Result (List Worker) String) → Option (Result (List Worker) String)
  prepend w none = none
  prepend w (some (ok ws)) = some (ok (w ∷ ws))
  prepend w (some (err e)) = some (err e)

  -- The loop over the arguments, with the identifiers in use; `none` is the end of the fuel.
  unfoldable pub parse_from : List String → List String → Option (Result (List Worker) String)
  unfolding parse_worker
  parse_from used [] = some (ok [])
  parse_from used (a ∷ []) =
      if is_flag a then some (err "--worker requires a value") else some (ok [])
  parse_from used (a ∷ spec ∷ rest) =
      if is_flag a
      then elim (parse_worker used spec) [
        | none ↦ none
        | some (err e) ↦ some (err e)
        | some (ok w) ↦ prepend w (parse_from (w.id ∷ used) rest)
      ]
      else parse_from used (spec ∷ rest)

  abbrev pub at_least_one : Result (List Worker) String → Result (List Worker) String
  at_least_one (err e) = err e
  at_least_one (ok []) = err "native dual-run requires at least one --worker"
  at_least_one (ok (w ∷ ws)) = ok (w ∷ ws)

  unfoldable pub parse_workers : List String → Option (Result (List Worker) String)
  unfolding parse_from
  parse_workers args = elim (parse_from [] args) [ none ↦ none | some r ↦ some (at_least_one r) ]
