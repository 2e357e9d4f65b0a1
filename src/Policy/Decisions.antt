-- ===== src/Policy/Decisions.antt =====
-- What the policy decides, in terms of the configuration and the registered tools.
use ruflo_rust.Prelude.{
  ◌∙◌, ◌≤◌, ◌<◌, String, ◌≡◌, ◌↔◌, refl, Bool, true, not, ◌&&◌, ◌||◌, none, List, [], ◌∷◌, find,
  all, any, contains, arith, string_eq, ◌==◌, ok,
}
use ruflo_rust.Dict.{Dict, put, has_key, empty, get-put, get-empty}
use ruflo_rust.Config.{EffectiveConfig}
use ruflo_rust.Policy.{
  Caller, DispatchRequest, RegisteredCapability, ToolPolicy, registry_from, validate_tokens,
  from_config, is_nil, call_decision, discovery_decision, authorize, enforce_limits,
  authorize_request, is_discoverable, is_callable,
}

has_key-registry_from :
    (d : Dict String String) (es : List RegisteredCapability) (tool : String)
    → has_key (registry_from d es) tool ≡ (any (λ e. e.tool == tool) es || has_key d tool)
unfolding registry_from
has_key-registry_from d [] tool = refl
has_key-registry_from d (e ∷ es) tool = ground (
  arith,
  has_key-registry_from (put d e.tool e.capability.name) es tool,
  get-put d e.tool tool e.capability.name,
)

-- The policy calls exactly the registered tools that are not denied and, where there is a list of
-- allowed tools, are on it; and a tool is discovered exactly when it can be called.
pub is_callable_lem :
    (p : ToolPolicy) (c : Caller) (tool : String)
    → (is_callable p c tool ≡ (
        has_key p.registry tool
        && not (contains tool p.deny)
        && (is_nil p.allow || contains tool p.allow)))
      × (is_discoverable p c tool ≡ is_callable p c tool)
unfolding is_callable is_discoverable discovery_decision call_decision
is_callable_lem p c tool = (ground arith, refl)

-- A request is authorised exactly when its tool is callable and it is within all three limits.
pub authorize_request_iff :
    (p : ToolPolicy) (c : Caller) (tool : String) (r : DispatchRequest)
    → (authorize_request p c tool r ≡ ok tt) ↔ (
        (is_callable p c tool ≡ true)
        × (r.request_bytes ≤ p.limits.max_request_bytes)
        × (r.active_executions < p.limits.max_concurrent_executions)
        × (r.duration_ms ≤ p.limits.max_duration_ms))
unfolding authorize_request authorize enforce_limits is_callable
authorize_request_iff p c tool r = ground arith

abbrev pub is_registered : List RegisteredCapability → String → Bool
is_registered es tool = any (λ e. e.tool == tool) es

registry_lem :
    (es : List RegisteredCapability) (tool : String)
    → has_key (registry_from empty es) tool ≡ is_registered es tool
registry_lem es tool =
    ground (arith, has_key-registry_from empty es tool, get-empty {V = String} tool)

find_registered :
    (ts : List String) (es : List RegisteredCapability)
    → (find (λ t. not (has_key (registry_from empty es) t)) ts ≡ none)
      ↔ (all (is_registered es) ts ≡ true)
find_registered [] es = ground arith
find_registered (t ∷ ts) es = ground (arith, registry_lem es t, find_registered ts es)

validate_tokens_iff :
    (ts : List String) (es : List RegisteredCapability)
    → (validate_tokens ts (registry_from empty es) ≡ ok tt) ↔ (all (is_registered es) ts ≡ true)
unfolding validate_tokens
validate_tokens_iff ts es = ground (arith, find_registered ts es)

-- A policy is made exactly when every token of the two lists names a registered tool. Then a tool
-- is callable exactly when it is registered, is not in the configured deny list, and is in the
-- configured allow list where that is not empty.
pub from_config_decides :
    (config : EffectiveConfig) (es : List RegisteredCapability)
    → (((p : ToolPolicy) × (from_config config es ≡ ok p)) ↔ (
        (all (is_registered es) config.policy.allow ≡ true)
        × (all (is_registered es) config.policy.deny ≡ true)))
      × ((p : ToolPolicy) (c : Caller) (tool : String)
          → from_config config es ≡ ok p
          → is_callable p c tool ≡ (
              is_registered es tool
              && not (contains tool config.policy.deny)
              && (is_nil config.policy.allow || contains tool config.policy.allow)))
unfolding from_config
from_config_decides config es =
    let allow_iff = validate_tokens_iff config.policy.allow es in
    let deny_iff = validate_tokens_iff config.policy.deny es in
    (
      (
        λ made. ground (arith, made.1, allow_iff, deny_iff),
        λ h. (
          record {
            registry = registry_from empty es;
            allow = config.policy.allow;
            deny = config.policy.deny;
            limits = config.limits;
          },
          rw (allow_iff.1 h.0, deny_iff.1 h.1) refl,
        ),
      ),
      λ p c tool h.
          let r : p.registry ≡ registry_from empty es = ground arith in
          let a : p.allow ≡ config.policy.allow = ground arith in
          let d : p.deny ≡ config.policy.deny = ground arith in
          (is_callable_lem p c tool).0 ∙ rw (r, a, d, registry_lem es tool) refl,
    )
