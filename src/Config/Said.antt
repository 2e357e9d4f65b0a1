-- ===== src/Config/Said.antt =====
-- The format of a project file: what one line says, and what the lines say together.
use ruflo_rust.Prelude.{
  String, true, false, ◌&&◌, ◌||◌, Option, none, some, List, [], ◌∷◌, trim, starts_with, ends_with,
  between, split_once, string_eq, nat_eq, ◌==◌, if◌then◌else◌, contains, Bool,
}

pub data Line : Type 0 where
  blank : Line
  header : String → Line
  setting : String → String → Line
  malformed : Line

-- Blank lines and lines that start with `#` say nothing; `[name]` starts a section, and `key =
-- value` is a setting.
abbrev pub line_of : String → Line
line_of raw =
    let line = trim raw in
    if line == "" || starts_with line "#"
    then blank
    else if starts_with line "[" && ends_with 93 line
    then header (between line)
    else elim (split_once 61 line) [
      | none ↦ malformed
      | some (key, value) ↦ setting (trim key) (trim value)
    ]

-- The last value of a key in a section; the lines before these ended in the section `current`.
abbrev pub given : String → String → String → List Line → Option String
given section key current [] = none
given section key current (blank ∷ lines) = given section key current lines
given section key current (malformed ∷ lines) = given section key current lines
given section key current (header name ∷ lines) = given section key name lines
given section key current (setting k value ∷ lines) = elim (given section key current lines) [
  | some later ↦ some later
  | none ↦ if current == section && k == key then some value else none
]

abbrev pub is_malformed : Line → Bool
is_malformed malformed = true
is_malformed _ = false

-- Some line sets one of the keys in a section.
abbrev pub sets : String → List String → String → List Line → Bool
sets section keys current [] = false
sets section keys current (blank ∷ lines) = sets section keys current lines
sets section keys current (malformed ∷ lines) = sets section keys current lines
sets section keys current (header name ∷ lines) = sets section keys name lines
sets section keys current (setting k value ∷ lines) =
    (current == section && contains k keys) || sets section keys current lines

abbrev pub is_some : {X : Type 0} → Option X → Bool
is_some none = false
is_some (some x) = true

abbrev pub list_keys : List String
list_keys = "allow" ∷ "deny" ∷ []

abbrev pub limit_keys : List String
limit_keys = "max_request_bytes" ∷ "max_concurrent_executions" ∷ "max_duration_ms" ∷ []
