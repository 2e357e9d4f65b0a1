-- ===== src/Config/File.antt =====
-- `ProjectConfigFile::parse`, on the lines of the file, and `load_with` from those lines.
use ruflo_rust.Prelude.{
  ℕ, String, Bool, not, ◌&&◌, ◌||◌, Option, none, some, List, [], ◌∷◌, split, trim, starts_with,
  ends_with, between, split_once, is_blank, Result, ok, err, ◌>>=◌, format, string_eq, nat_eq, ◌==◌,
  if◌then◌else◌,
}
use ruflo_rust.Types.{RufloError, invalid_input}
use ruflo_rust.Config.{PolicyConfig, Limits, default_limits, Overlay, parse_number}

-- A quoted text of an array.
abbrev parse_item : String → Result String RufloError
parse_item item =
    if starts_with item "\"" && ends_with 34 item && not (item == "\"")
    then ok (between item)
    else err (
        invalid_input "config.invalid"
          (format ("expected string element, got `" ∷ item ∷ "`" ∷ [])))

abbrev parse_items : List String → Result (List String) RufloError
parse_items [] = ok []
parse_items (s ∷ ss) = parse_item (trim s) >>= (λ t. parse_items ss >>= (λ ts. ok (t ∷ ts)))

pub parse_array : String → Result (List String) RufloError
parse_array value =
    let trimmed = trim value in
    if not (starts_with trimmed "[") || not (ends_with 93 trimmed)
    then err (
        invalid_input "config.invalid"
          (format ("expected array literal, got `" ∷ value ∷ "`" ∷ [])))
    else if is_blank (between trimmed)
    then ok []
    else parse_items (split 44 (between trimmed))

abbrev pub policy_of : Overlay → PolicyConfig
policy_of o = elim o.policy [ none ↦ record { allow = []; deny = [] } | some p ↦ p ]

abbrev pub limits_of : Overlay → Limits
limits_of o = elim o.limits [ none ↦ default_limits | some l ↦ l ]

module _ (parse : String → Result ℕ String) where
  -- A setting of the section: the other settings of its group stay.
  unfoldable pub read_setting : String → String → String → Overlay → Result Overlay RufloError
  unfolding parse_array
  read_setting section key value file =
      if section == "policy" && key == "allow"
      then parse_array value
        >>= (λ v. ok (record file { policy = some (record (policy_of file) { allow = v }) }))
      else if section == "policy" && key == "deny"
      then parse_array value
        >>= (λ v. ok (record file { policy = some (record (policy_of file) { deny = v }) }))
      else if section == "limits" && key == "max_request_bytes"
      then parse_number parse "max_request_bytes" value >>= (λ n.
        ok (record file { limits = some (record (limits_of file) { max_request_bytes = n }) }))
      else if section == "limits" && key == "max_concurrent_executions"
      then parse_number parse "max_concurrent_executions" value >>= (λ n.
        ok (record file {
          limits = some (record (limits_of file) { max_concurrent_executions = n });
        }))
      else if section == "limits" && key == "max_duration_ms"
      then parse_number parse "max_duration_ms" value >>= (λ n.
        ok (record file { limits = some (record (limits_of file) { max_duration_ms = n }) }))
      else ok file

  -- Blank lines and comments.
  abbrev pub is_skipped : String → Bool
  is_skipped raw = trim raw == "" || starts_with (trim raw) "#"

  abbrev pub is_header : String → Bool
  is_header line = starts_with line "[" && ends_with 93 line

  -- A line that is neither skipped nor a header.
  abbrev pub read_line : String → String → Overlay → Result Overlay RufloError
  read_line section line file = elim (split_once 61 line) [
    | none ↦
        err (invalid_input "config.invalid" (format ("invalid config line `" ∷ line ∷ "`" ∷ [])))
    | some (key, value) ↦ read_setting section (trim key) (trim value) file
  ]

  -- The loop, with its section and the file so far.
  unfoldable pub parse_lines : String → Overlay → List String → Result Overlay RufloError
  unfolding read_setting
  parse_lines section file [] = ok file
  parse_lines section file (raw ∷ lines) =
      if is_skipped raw
      then parse_lines section file lines
      else if is_header (trim raw)
      then parse_lines (between (trim raw)) file lines
      else read_line section (trim raw) file >>= (λ f. parse_lines section f lines)

  unfoldable pub parse_file : List String → Result Overlay RufloError
  unfolding parse_lines
  parse_file lines = parse_lines "" (record { policy = none; limits = none }) lines

  abbrev empty_file : Overlay
  empty_file = record { policy = none; limits = none }

  -- What the project file gives to `load_with`: its text may be missing or not readable.
  pub read_project : Option (Result (List String) RufloError) → Result Overlay RufloError
  unfolding parse_file
  read_project none = ok empty_file
  read_project (some content) = content >>= (λ lines. parse_file lines)
