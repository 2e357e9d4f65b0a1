-- ===== src/Settings/Providers.antt =====
-- `providers` of crates/ruflo-cli/src/config_file.rs: the changes of the list and the save. The
-- listing without an option, which computes with floating-point numbers, is only told apart.
pub mod Names
use ruflo_rust.Prelude.{
  ℕ, zero, suc, ◌+◌, ◌≤◌, String, ◌≡◌, refl, inl, inr, Bool, true, false, not, ◌||◌, Option, none,
  some, List, [], ◌∷◌, ◌++◌, any, find, retain, length, replace_first, count, Result, ok, err,
  ◌>>=◌, arith, format, string_eq, eq_iff, ◌==◌, nat_eq, if◌then◌else◌, Bool-cases, Result-cases,
  Option-cases, count-append,
}
use ruflo_rust.Json.{
  Value, Fields, obj, str, num, bool, pos_int, object, array, as_str, as_array, get_key, is_text,
  put_field, field_of-put_field,
}
use ruflo_rust.Settings.{Place, Files, Env, Failure, refused, panicked, load, set}

pub record ProviderResult : Type 0 where
  pub providers : List Value
  pub messages : List String
  pub failure : Option String

abbrev pub name_of : Value → Option String
name_of provider = elim (get_key provider "name") [ none ↦ none | some v ↦ as_str v ]

abbrev pub is_named : String → Value → Bool
is_named name provider = is_text (name_of provider) name

-- A list of providers with the messages so far; an error has the message of the failure as well.
abbrev pub Change : Type 0
Change = Result (List Value × List String) (List Value × List String × String)

abbrev pub new_provider : String → ℕ → Value
new_provider name priority =
    object (("name", str name) ∷ ("enabled", bool true) ∷ ("priority", num (pos_int priority)) ∷ [])

unfoldable pub add_provider : Option String → List Value × List String → Change
add_provider none (ps, ms) = ok (ps, ms)
add_provider (some name) (ps, ms) =
    if any (is_named name) ps
    then err (ps, ms, format ("Provider '" ∷ name ∷ "' already exists" ∷ []))
    else ok (
      ps ++ new_provider name (length ps + 1) ∷ [],
      ms ++ format ("Added provider: " ∷ name ∷ []) ∷ [],
    )

unfoldable pub remove_provider : Option String → List Value × List String → Change
remove_provider none (ps, ms) = ok (ps, ms)
remove_provider (some name) (ps, ms) =
    let kept = retain (λ p. not (is_named name p)) ps in
    if length kept == length ps
    then err (kept, ms, format ("Provider '" ∷ name ∷ "' not found" ∷ []))
    else ok (kept, ms ++ format ("Removed provider: " ∷ name ∷ []) ∷ [])

-- `provider["enabled"] = flag`, on a provider that has a name and so is an object.
abbrev pub enabled_as : Bool → Value → Value
enabled_as flag (obj fs) = obj (put_field "enabled" (bool flag) fs)
enabled_as flag v = v

abbrev word_of : Bool → String
word_of true = "Enabled"
word_of false = "Disabled"

unfoldable pub switch_provider : Bool → Option String → List Value × List String → Change
switch_provider flag none (ps, ms) = ok (ps, ms)
switch_provider flag (some name) (ps, ms) = elim (find (is_named name) ps) [
  | none ↦ err (ps, ms, format ("Provider '" ∷ name ∷ "' not found" ∷ []))
  | some p ↦ ok (
    replace_first (is_named name) (enabled_as flag p) ps,
    ms ++ format (word_of flag ∷ " provider: " ∷ name ∷ []) ∷ [],
  )
]

abbrev pub list_in : Option Value → List Value
list_in none = []
list_in (some v) = elim (as_array v) [ none ↦ [] | some vs ↦ vs ]

-- The providers of the settings.
abbrev pub configured : Value → List Value
configured config = list_in (get_key config "providers")

abbrev pub failed : List Value × List String × String → ProviderResult
failed (ps, ms, e) = record { providers = ps; messages = ms; failure = some e }

-- The changes, in the order of the options.
unfoldable pub change_all :
    Option String
    → Option String
    → Option String
    → Option String
    → List Value × List String
    → Change
change_all add remove enable disable start =
    add_provider add start
    >>= remove_provider remove
    >>= switch_provider true enable
    >>= switch_provider false disable

-- The answers of `providers`. A listing is left out: it gives the providers with their members in
-- a fixed form, and no file is written.
pub data Answer : Type 0 where
  changed : ProviderResult → Answer
  listing : Answer
  aborted : Answer  -- a panic

-- What is answered after the save.
abbrev pub saved_as : List Value → List String → Result Place Failure × Files → Answer × Files
saved_as ps ms (err (refused e), fs) =
    (changed (failed (ps, ms, format ("Failed to save providers: " ∷ e ∷ []))), fs)
saved_as ps ms (err panicked, fs) = (aborted, fs)
saved_as ps ms (ok place, fs) =
    (changed (record { providers = ps; messages = ms; failure = none }), fs)

abbrev is_some : Option String → Bool
is_some none = false
is_some (some s) = true

-- Some option asks for a change.
abbrev pub is_mutation : Option String → Option String → Option String → Option String → Bool
is_mutation add remove enable disable =
    is_some add || is_some remove || is_some enable || is_some disable

unfoldable pub providers :
    Value
    → Env
    → Option String
    → Option String
    → Option String
    → Option String
    → Files
    → Answer × Files
providers defaults env add remove enable disable fs =
    if not (is_mutation add remove enable disable)
    then (listing, fs)
    else elim (change_all add remove enable disable (configured (load defaults fs), [])) [
      | err failure ↦ (changed (failed failure), fs)
      | ok (ps, ms) ↦ saved_as ps ms (set defaults env "providers" (array ps) fs)
    ]
