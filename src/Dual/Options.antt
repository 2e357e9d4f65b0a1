-- ===== src/Dual/Options.antt =====
-- The options of the runner. `lower`, `upper` and `parse_u64` are functions of the standard library
-- on texts: `to_ascii_lowercase`, `to_ascii_uppercase` and `parse::<u64>`.
use Prim.Native.Char.{code}
use ruflo_rust.Prelude.{
  starts_with, ends_with, between, split_once, before, ◌*◌, ℕ, ◌+◌, String, Bool, true, false, not,
  ◌&&◌, ◌||◌, Option, none, some, List, [], ◌∷◌, any, contains, Result, ok, err, ok_or, ◌>>=◌,
  format, leb, ltb, split, trim, string_eq, nat_eq, ◌==◌, if◌then◌else◌,
}

pub record AutomationConfig : Type 0 where
  pub enabled : Bool
  pub max_concurrent : ℕ
  pub max_writers : ℕ
  pub timeout_ms : ℕ
  pub max_output_bytes : ℕ
  pub worktree_isolation : Bool

abbrev pub default_config : AutomationConfig
default_config = record {
  enabled = false;
  max_concurrent = 4;
  max_writers = 2;
  timeout_ms = 1800000;
  max_output_bytes = 1048576;
  worktree_isolation = true;
}

abbrev pub has_worker_invocation : List String → Bool
has_worker_invocation = any (λ a. a == "--worker" || a == "-w")

-- The argument after the first one that has the name.
abbrev pub option_value : List String → String → Option String
option_value [] name = none
option_value (a ∷ []) name = none
option_value (a ∷ b ∷ rest) name = if a == name then some b else option_value (b ∷ rest) name

abbrev pub parse_bool : String → String → Result Bool String
parse_bool value name =
    if value == "true"
    then ok true
    else if value == "false"
    then ok false
    else err (format (name ∷ " must be true or false" ∷ []))

abbrev pub is_read_only_role : (String → String) → String → Bool
is_read_only_role lower role = contains (lower role) (
    "reviewer" ∷ "architect" ∷ "analyzer" ∷ "planner" ∷ "scanner" ∷ "auditor" ∷ "security-scanner"
    ∷ "security-analyst" ∷ "code-analyzer" ∷ "refactor-planner" ∷ [])

-- The bytes of a text that is ASCII; any other text fails the test of its characters.
abbrev chars : String → ℕ
chars String.[] = 0
chars (String.◌∷◌ c s) = chars s + 1

abbrev is_id_char : ℕ → Bool
is_id_char c = (leb 97 c && leb c 122) || (leb 48 c && leb c 57) || c == 46 || c == 95 || c == 45

abbrev all_id_chars : String → Bool
all_id_chars String.[] = true
all_id_chars (String.◌∷◌ c s) = is_id_char (code c) && all_id_chars s

abbrev pub is_safe_id : String → Bool
is_safe_id value = not (value == "") && leb (chars value) 64 && all_id_chars value

-- Variables that a worker must not inherit.
pub is_sensitive_environment : (String → String) → String → Bool
is_sensitive_environment upper name =
    starts_with (upper name) "RUFLO_"
    || starts_with (upper name) "CLAUDE_FLOW_POLICY_"
    || any
        (λ part.
          contains part
            ("KEY" ∷ "SECRET" ∷ "TOKEN" ∷ "PASSWORD" ∷ "CREDENTIAL" ∷ "CREDENTIALS" ∷ []))
        (split 95 (upper name))

module _ (parse_u64 : String → Option ℕ) where
  abbrev positive : Option ℕ → Option ℕ
  positive none = none
  positive (some n) = if ltb 0 n then some n else none

  abbrev pub parse_positive : String → String → Result ℕ String
  parse_positive value name =
      ok_or (positive (parse_u64 value)) (format (name ∷ " must be a positive integer" ∷ []))

  -- A `usize` has 64 bits as well.
  abbrev pub parse_usize : String → String → Result ℕ String
  parse_usize = parse_positive

  -- A setting of the section, by its key.
  abbrev pub set_option : String → String → AutomationConfig → Result AutomationConfig String
  set_option key value config =
      if key == "enabled"
      then parse_bool value "enabled" >>= (λ b. ok (record config { enabled = b }))
      else if key == "worktree_isolation"
      then parse_bool value "worktree_isolation"
        >>= (λ b. ok (record config { worktree_isolation = b }))
      else if key == "max_concurrent"
      then parse_usize value "max_concurrent" >>= (λ n. ok (record config { max_concurrent = n }))
      else if key == "max_writers"
      then parse_usize value "max_writers" >>= (λ n. ok (record config { max_writers = n }))
      else if key == "agent_timeout_seconds"
      then parse_positive value "agent_timeout_seconds"
        >>= (λ n. ok (record config { timeout_ms = n * 1000 }))
      else if key == "max_output_bytes"
      then parse_usize value "max_output_bytes"
        >>= (λ n. ok (record config { max_output_bytes = n }))
      else ok config

  -- The lines of the file that was found, from a section on.
  pub load_lines : String → AutomationConfig → List String → Result AutomationConfig String
  load_lines section config [] = ok config
  load_lines section config (raw ∷ lines) =
      let line = trim (before 35 raw) in
      if line == ""
      then load_lines section config lines
      else if starts_with line "[" && ends_with 93 line
      then load_lines (between line) config lines
      else if not (section == "swarm.automation")
      then load_lines section config lines
      else elim (split_once 61 line) [
        | none ↦ err (format ("invalid automation config line `" ∷ line ∷ "`" ∷ []))
        | some (key, value) ↦
            set_option (trim key) (trim value) config >>= (λ c. load_lines section c lines)
      ]

  -- `none` where neither file is there; an error where it cannot be read.
  abbrev pub load : Option (Result (List String) String) → Result AutomationConfig String
  load none = ok default_config
  load (some content) = content >>= (λ lines. load_lines "" default_config lines)
