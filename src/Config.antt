-- ===== src/Config.antt =====
-- crates/ruflo-config/src/lib.rs: the settings of a project file, of the environment and of the
-- command line, laid over each other. Config/File reads the project file. The number parser of the
-- standard library is an argument.
pub mod File
pub mod Said
pub mod Lines
pub mod Precedence
use ruflo_rust.Prelude.{
  ℕ, String, Bool, true, false, ◌||◌, Option, none, some, List, [], ◌∷◌, map, retain, not, Result,
  ok, err, ◌>>=◌, trim, split, to_set, is_blank, format, string_eq, ◌==◌, if◌then◌else◌,
}
use ruflo_rust.Types.{RufloError, invalid_input}

pub record PolicyConfig : Type 0 where
  pub allow : List String
  pub deny : List String

pub record Limits : Type 0 where
  pub max_request_bytes : ℕ
  pub max_concurrent_executions : ℕ
  pub max_duration_ms : ℕ

-- `RawConfig` and `EffectiveConfig` have the same fields.
pub record EffectiveConfig : Type 0 where
  pub policy : PolicyConfig
  pub limits : Limits

abbrev pub default_limits : Limits
default_limits = record {
  max_request_bytes = 65536;
  max_concurrent_executions = 4;
  max_duration_ms = 30000;
}

abbrev pub default_config : EffectiveConfig
default_config = record { policy = record { allow = []; deny = [] }; limits = default_limits }

-- `ProjectConfigFile`, `EnvOverlay` and `CliOverlay` have the same fields.
pub record Overlay : Type 0 where
  pub policy : Option PolicyConfig
  pub limits : Option Limits

-- The settings that the environment and the command line share, each of which may be absent.
pub record Overrides : Type 0 where
  pub allow : Option (List String)
  pub deny : Option (List String)
  pub max_request_bytes : Option ℕ
  pub max_concurrent_executions : Option ℕ
  pub max_duration_ms : Option ℕ

abbrev is_some {ℓ} : {A : Type ℓ} → Option A → Bool
is_some none = false
is_some (some _) = true

abbrev unwrap_or {ℓ} : {A : Type ℓ} → Option A → A → A
unwrap_or none d = d
unwrap_or (some a) d = a

-- `CliOverlay::from`, and the end of `EnvOverlay::from_pairs`.
unfoldable pub overlay : Overrides → Overlay
overlay o = record {
  policy =
      if is_some o.allow || is_some o.deny
      then some (record { allow = unwrap_or o.allow []; deny = unwrap_or o.deny [] })
      else none;
  limits =
      if is_some o.max_request_bytes
        || is_some o.max_concurrent_executions
        || is_some o.max_duration_ms
      then some (record {
        max_request_bytes = unwrap_or o.max_request_bytes 65536;
        max_concurrent_executions = unwrap_or o.max_concurrent_executions 4;
        max_duration_ms = unwrap_or o.max_duration_ms 30000;
      })
      else none;
}

-- `merge_project`, `merge_env` and `merge_cli`.
unfoldable pub merge : EffectiveConfig → Overlay → EffectiveConfig
merge raw o = record {
  policy = elim o.policy [ none ↦ raw.policy | some p ↦ p ];
  limits = elim o.limits [ none ↦ raw.limits | some l ↦ l ];
}

unfoldable pub normalize_tokens : List String → List String
normalize_tokens values = to_set (retain (λ t. not (t == "")) (map trim values))

pub parse_csv : String → List String
parse_csv value = retain (λ t. not (t == "")) (map trim (split 44 value))

module _ (parse : String → Result ℕ String) where
  unfoldable pub parse_number : String → String → Result ℕ RufloError
  parse_number key value = elim (parse value) [
    | ok n ↦ ok n
    | err e ↦ err (invalid_input key (format ("invalid numeric value `" ∷ value ∷ "`: " ∷ e ∷ [])))
  ]

  -- One turn of the loop over the environment.
  read_pair : Overrides → String → String → Result Overrides RufloError
  unfolding parse_csv parse_number
  read_pair o key value =
      if key == "RUFLO_MCP_ALLOW"
      then ok (record o { allow = some (parse_csv value) })
      else if key == "RUFLO_MCP_DENY"
      then ok (record o { deny = some (parse_csv value) })
      else if key == "RUFLO_MCP_MAX_REQUEST_BYTES"
      then (parse_number key value >>= λ n. ok (record o { max_request_bytes = some n }))
      else if key == "RUFLO_MCP_MAX_CONCURRENT_EXECUTIONS"
      then (parse_number key value >>= λ n. ok (record o { max_concurrent_executions = some n }))
      else if key == "RUFLO_MCP_MAX_DURATION_MS"
      then (parse_number key value >>= λ n. ok (record o { max_duration_ms = some n }))
      else ok o

  read_pairs : Overrides → List (String × String) → Result Overrides RufloError
  unfolding read_pair
  read_pairs o [] = ok o
  read_pairs o ((key, value) ∷ pairs) = read_pair o key value >>= λ o'. read_pairs o' pairs

  abbrev pub no_overrides : Overrides
  no_overrides = record {
    allow = none;
    deny = none;
    max_request_bytes = none;
    max_concurrent_executions = none;
    max_duration_ms = none;
  }

  -- `EnvOverlay::from_pairs`
  unfoldable pub from_pairs : List (String × String) → Result Overlay RufloError
  unfolding read_pairs overlay
  from_pairs pairs = read_pairs no_overrides pairs >>= λ o. ok (overlay o)

  -- `load_with`, from what the project file gave: an error, or an overlay (empty without a file).
  unfoldable pub load_with :
      Overrides
      → List (String × String)
      → Result Overlay RufloError
      → Result EffectiveConfig RufloError
  unfolding from_pairs overlay merge normalize_tokens
  load_with cli env_vars project = do
    file ← project
    env ← from_pairs env_vars
    let raw = merge (merge (merge default_config file) env) (overlay cli)
    ok (record {
      policy = record {
        allow = normalize_tokens raw.policy.allow;
        deny = normalize_tokens raw.policy.deny;
      };
      limits = raw.limits;
    })
