-- ===== src/Actions.antt =====
-- crates/ruflo-actions/src/executor.rs: the executor that runs an action of a manifest. The file
-- system is an argument; a canonical path is the list of its components. `active` is the counter of
-- the executor, as one call sees it from start to end.
pub mod Manifest
pub mod Guards
use ruflo_rust.Prelude.{
  ℕ, ◌+◌, ◌-◌, String, Bool, true, false, not, ◌&&◌, ◌||◌, Option, none, some, List, [], ◌∷◌, find,
  any, all, contains, Result, ok, err, ◌>>=◌, ◌>>◌, format, decimal, is_blank, ltb, leb, nat_eq,
  string_eq, ◌==◌, if◌then◌else◌,
}
use Prim.Native.Char.{code}
use ruflo_rust.Types.{
  Capability, RufloError, invalid_input, unsupported_in_wave, rate_limited, timeout,
  new_unsupported,
}
use ruflo_rust.Actions.Manifest.{
  NativeAction, NativeActionKey, key_of, key_text, same_key, DeclaredAction, ActionManifest,
  ActionManifestEnvelope, check_ids, validate, validate_envelope, echo, print_working_directory,
  sleep, echo_key, print_key, sleep_key,
}

pub record ActionRequest : Type 0 where
  pub manifest : ActionManifest
  pub project_root : String
  pub working_directory : String
  pub environment_keys : List String
  pub action_id : String
  pub invocation : NativeAction

pub record ActionOutput : Type 0 where
  pub stdout : String
  pub stderr : String
  pub exit_code : ℕ
  pub directory : List String

-- The inherited environment has no effect on an action. The keys of a request's environment stand
-- in the order of the map.
pub record Executor : Type 0 where
  pub allowlist : List NativeActionKey
  pub default_timeout_ms : ℕ
  pub max_concurrent_executions : ℕ

abbrev allows : List NativeActionKey → NativeActionKey → Bool
allows keys k = any (same_key k) keys

-- `Path::starts_with`, component by component.
abbrev pub starts_with : List String → List String → Bool
starts_with path [] = true
starts_with [] (_ ∷ _) = false
starts_with (p ∷ path) (q ∷ root) = p == q && starts_with path root

-- A byte of the key is `=`.
has_equals : String → Bool
has_equals String.[] = false
has_equals (String.◌∷◌ c s) = code c == 61 || has_equals s

abbrev valid_key : String → Bool
valid_key key = not (key == "" || has_equals key)

unfoldable pub validate_environment : List String → Result (Unit {0}) RufloError
unfolding has_equals
validate_environment keys = elim (find (λ k. not (valid_key k)) keys) [
  | none ↦ ok tt
  | some key ↦ err (
      invalid_input "actions.environment.key"
        (format ("invalid environment key `" ∷ key ∷ "`" ∷ [])))
]

join : List String → String
join [] = ""
join (a ∷ []) = a
join (a ∷ rest) = format (a ∷ " " ∷ join rest ∷ [])

-- `canonicalize`, `metadata` and `display` of the file system.
module _ (canonicalize : String → Result (List String) String)
    (is_directory : List String → Result Bool String) (display : List String → String) where
  unfoldable pub canonicalize_directory : String → String → String → Result (List String) RufloError
  canonicalize_directory path code message = elim (canonicalize path) [
    | err e ↦ err (invalid_input code (format (message ∷ ": " ∷ e ∷ [])))
    | ok canonical ↦ elim (is_directory canonical) [
      | err e ↦ err (invalid_input code (format (message ∷ ": " ∷ e ∷ [])))
      | ok directory ↦ if directory then ok canonical else err (invalid_input code message)
    ]
  ]

  unfoldable pub execute_inner : NativeAction → List String → ℕ → Result ActionOutput RufloError
  unfolding join
  execute_inner (sleep ms) directory limit =
      if ltb limit ms
      then err timeout
      else ok (record { stdout = ""; stderr = ""; exit_code = 0; directory = directory })
  execute_inner (echo arguments) directory limit = ok (record {
    stdout = format (join arguments ∷ "\n" ∷ []);
    stderr = "";
    exit_code = 0;
    directory = directory;
  })
  execute_inner print_working_directory directory limit = ok (record {
    stdout = format (display directory ∷ "\n" ∷ []);
    stderr = "";
    exit_code = 0;
    directory = directory;
  })

  -- What `execute` looks at before it counts itself in: the directory to run in.
  unfoldable pub guards : Executor → ActionRequest → Result (List String) RufloError
  unfolding canonicalize_directory validate_environment
  guards x r = elim (find (λ a. a.id == r.action_id) r.manifest.actions) [
    | none ↦ err (
        invalid_input "actions.action.unknown"
          (format ("manifest does not declare action `" ∷ r.action_id ∷ "`" ∷ [])))
    | some declared ↦
        if not (same_key (key_of declared.action) (key_of r.invocation))
        then err (
            invalid_input "actions.action.mismatch" (
              format (
                "action `"
                ∷ r.action_id
                ∷ "` must invoke `"
                ∷ key_text (key_of declared.action)
                ∷ "`"
                ∷ [])))
        else do
          root ←
              canonicalize_directory r.project_root "actions.project_root.invalid"
                "project root must be an existing directory"
          directory ←
              canonicalize_directory r.working_directory "actions.working_directory.invalid"
                "working directory must be an existing directory"
          if not (starts_with directory root)
              then err (
                  invalid_input "actions.working_directory.escape"
                    "working directory must stay inside the configured project root")
              else if not (allows x.allowlist (key_of r.invocation))
              then err (
                  invalid_input "actions.action.disallowed" (
                    format (
                      "native action `"
                      ∷ key_text (key_of r.invocation)
                      ∷ "` is not in the executor allowlist"
                      ∷ [])))
              else (validate_environment r.environment_keys >> ok directory)
  ]

  unfoldable pub execute : Executor → ActionRequest → ℕ → Result ActionOutput RufloError × ℕ
  unfolding guards execute_inner
  execute x r active = elim (guards x r) [
    | err e ↦ (err e, active)
    | ok directory ↦
        let counted = active + 1 in
        if leb x.max_concurrent_executions active
        then (err (rate_limited 0), counted - 1)
        else (execute_inner r.invocation directory x.default_timeout_ms, counted - 1)
  ]
