-- ===== src/Policy.antt =====
-- crates/ruflo-config/src/policy.rs: which tools a caller may see and call, and the limits of a
-- request. A `BTreeMap` is a `Dict` and a `BTreeSet` a list of its members.
pub mod Decisions
pub mod Discovery
use ruflo_rust.Prelude.{
  ℕ, String, Bool, true, false, not, ◌&&◌, ◌||◌, Option, none, some, List, [], ◌∷◌, find, contains,
  retain, to_set, ◌>>=◌, Result, ok, err, ◌>>◌, format, decimal, ltb, leb, string_eq, ◌==◌,
  if◌then◌else◌,
}
use ruflo_rust.Dict.{Dict, get, put, has_key, empty}
use ruflo_rust.Dict.Listing.{keys}
use ruflo_rust.Types.{Capability, RufloError, invalid_input, unauthorized, rate_limited, timeout}
use ruflo_rust.Config.{EffectiveConfig, Limits, Overlay, load_with, no_overrides}

pub data Caller : Type 0 where
  local : Caller
  named : String → Caller

pub record DispatchRequest : Type 0 where
  pub request_bytes : ℕ
  pub active_executions : ℕ
  pub duration_ms : ℕ

pub data PolicyDecision : Type 0 where
  allowed : PolicyDecision
  denied : String → PolicyDecision

pub record RegisteredCapability : Type 0 where
  pub tool : String
  pub capability : Capability

pub record ToolPolicy : Type 0 where
  pub registry : Dict String String
  pub allow : List String
  pub deny : List String
  pub limits : Limits

-- The registry as a map from tools to capability names; a later entry of a tool wins.
unfoldable pub registry_from : Dict String String → List RegisteredCapability → Dict String String
registry_from d [] = d
registry_from d (e ∷ es) = registry_from (put d e.tool e.capability.name) es

unfoldable pub validate_tokens : List String → Dict String String → Result (Unit {0}) RufloError
validate_tokens tokens registry = elim (find (λ t. not (has_key registry t)) tokens) [
  | none ↦ ok tt
  | some t ↦ err (
      invalid_input "policy.unknown_tool"
        (format ("unregistered capability token `" ∷ t ∷ "`" ∷ [])))
]

unfoldable pub from_config :
    EffectiveConfig → List RegisteredCapability → Result ToolPolicy RufloError
unfolding registry_from validate_tokens
from_config config registry =
    let registry_map = registry_from empty registry in
    validate_tokens config.policy.allow registry_map
    >> (validate_tokens config.policy.deny registry_map
        >> ok (record {
          registry = registry_map;
          allow = config.policy.allow;
          deny = config.policy.deny;
          limits = config.limits;
        }))

abbrev pub is_nil : List String → Bool
is_nil [] = true
is_nil (_ ∷ _) = false

-- The name of the capability that a denial reports.
abbrev pub capability_of : ToolPolicy → String → String
capability_of p tool = elim (get p.registry tool) [ none ↦ tool | some name ↦ name ]

unfoldable pub call_decision : ToolPolicy → Caller → String → PolicyDecision
call_decision p caller tool =
    if not (has_key p.registry tool) || contains tool p.deny
    then denied (capability_of p tool)
    else if not (is_nil p.allow) && not (contains tool p.allow)
    then denied (capability_of p tool)
    else allowed

unfoldable pub discovery_decision : ToolPolicy → Caller → String → PolicyDecision
unfolding call_decision
discovery_decision p caller tool = call_decision p caller tool

unfoldable pub authorize : ToolPolicy → Caller → String → Result (Unit {0}) RufloError
unfolding call_decision
authorize p caller tool = elim (call_decision p caller tool) [
  | allowed ↦ ok tt
  | denied capability ↦ err (unauthorized capability)
]

unfoldable pub enforce_limits : ToolPolicy → DispatchRequest → Result (Unit {0}) RufloError
enforce_limits p r =
    if ltb p.limits.max_request_bytes r.request_bytes
    then err (
        invalid_input "request_too_large" (
          format (
            "request size "
            ∷ decimal r.request_bytes
            ∷ " exceeds limit "
            ∷ decimal p.limits.max_request_bytes
            ∷ [])))
    else if leb p.limits.max_concurrent_executions r.active_executions
    then err (rate_limited 0)
    else if ltb p.limits.max_duration_ms r.duration_ms
    then err timeout
    else ok tt

unfoldable pub authorize_request :
    ToolPolicy → Caller → String → DispatchRequest → Result (Unit {0}) RufloError
unfolding authorize enforce_limits
authorize_request p caller tool r = authorize p caller tool >> enforce_limits p r

unfoldable pub is_discoverable : ToolPolicy → Caller → String → Bool
unfolding discovery_decision
is_discoverable p caller tool = elim (discovery_decision p caller tool) [
  | allowed ↦ true
  | denied _ ↦ false
]

unfoldable pub is_callable : ToolPolicy → Caller → String → Bool
unfolding call_decision
is_callable p caller tool = elim (call_decision p caller tool) [ allowed ↦ true | denied _ ↦ false ]

-- The keys of a `BTreeMap` come in their order.
unfoldable pub discoverable_tools : ToolPolicy → Caller → List String
discoverable_tools p caller = retain (is_discoverable p caller) (to_set (keys p.registry))

-- `parse` and the project file are arguments, as they are of `load_with`.
unfoldable pub from_env :
    (String → Result ℕ String)
    → List (String × String)
    → List RegisteredCapability
    → Result Overlay RufloError
    → Result ToolPolicy RufloError
from_env parse env_vars registry project =
    load_with parse (no_overrides parse) env_vars project >>= λ config. from_config config registry
