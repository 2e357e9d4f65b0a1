-- ===== src/Actions/Manifest.antt =====
-- crates/ruflo-actions/src/manifest.rs: declarative manifests of native actions.
use ruflo_rust.Prelude.{
  ℕ, String, Bool, true, false, not, List, [], ◌∷◌, contains, Result, ok, err, ◌>>◌, format,
  decimal, is_blank, nat_eq, string_eq, ◌==◌, if◌then◌else◌,
}
use ruflo_rust.Types.{RufloError, invalid_input, unsupported_in_wave, new_unsupported}

pub data NativeAction : Type 0 where
  echo : List String → NativeAction
  print_working_directory : NativeAction
  sleep : ℕ → NativeAction

pub data NativeActionKey : Type 0 where
  echo_key print_key sleep_key : NativeActionKey

abbrev pub key_of : NativeAction → NativeActionKey
key_of (echo _) = echo_key
key_of print_working_directory = print_key
key_of (sleep _) = sleep_key

abbrev pub key_text : NativeActionKey → String
key_text echo_key = "echo"
key_text print_key = "print_working_directory"
key_text sleep_key = "sleep"

abbrev pub same_key : NativeActionKey → NativeActionKey → Bool
same_key echo_key echo_key = true
same_key print_key print_key = true
same_key sleep_key sleep_key = true
same_key _ _ = false

pub record DeclaredAction : Type 0 where
  pub id : String
  pub action : NativeAction

pub record ActionManifest : Type 0 where
  pub version : ℕ
  pub name : String
  pub actions : List DeclaredAction

pub data ActionManifestEnvelope : Type 0 where
  declarative : ActionManifest → ActionManifestEnvelope
  javascript_executable : ℕ → String → String → ActionManifestEnvelope

abbrev pub is_nil : List DeclaredAction → Bool
is_nil [] = true
is_nil _ = false

-- The loop over the actions, with the identifiers seen so far.
unfoldable pub check_ids : List String → List DeclaredAction → Result (Unit {0}) RufloError
check_ids seen [] = ok tt
check_ids seen (a ∷ actions) =
    let rest = check_ids (a.id ∷ seen) actions in
    if is_blank a.id
    then err (invalid_input "actions.manifest.action_id" "action identifier must not be empty")
    else if contains a.id seen
    then err (
        invalid_input "actions.manifest.action_id"
          (format ("duplicate action identifier `" ∷ a.id ∷ "`" ∷ [])))
    else rest

unfoldable pub validate : ActionManifest → Result ActionManifest RufloError
unfolding check_ids
validate m =
    if not (m.version == 1)
    then err (
        invalid_input "actions.manifest.version"
          (format ("unsupported manifest version " ∷ decimal m.version ∷ "; expected 1" ∷ [])))
    else if is_blank m.name
    then err (invalid_input "actions.manifest.name" "manifest name must not be empty")
    else if is_nil m.actions
    then err (invalid_input "actions.manifest.actions" "manifest must declare at least one action")
    else (check_ids [] m.actions >> ok m)

unfoldable pub validate_envelope : ActionManifestEnvelope → Result ActionManifest RufloError
unfolding validate new_unsupported
validate_envelope (declarative m) = validate m
validate_envelope (javascript_executable _ _ _) = err (
    unsupported_in_wave (
      new_unsupported "plugins.javascript_executable" 2
        "migrate plugin hooks to a declarative native manifest"))
