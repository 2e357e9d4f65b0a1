-- ===== src/Policy/Discovery.antt =====
-- The list of the tools that a caller may discover, and a policy made from the environment.
use ruflo_rust.Prelude.{
  ◌∙◌, ℕ, String, ◌≡◌, Bool, not, ◌&&◌, ◌||◌, List, [], ◌∷◌, retain, contains, to_set,
  contains-to_set, arith, string_eq, eq_iff, Result, ok, bind-ok,
}
use ruflo_rust.Dict.Listing.{keys, contains-keys}
use ruflo_rust.Types.{RufloError}
use ruflo_rust.Config.{EffectiveConfig, Overlay, load_with, no_overrides}
use ruflo_rust.Policy.{
  Caller, RegisteredCapability, ToolPolicy, from_config, from_env, is_nil, is_callable,
  is_discoverable, discoverable_tools,
}
use ruflo_rust.Policy.Decisions.{is_callable_lem, is_registered, from_config_decides}

contains-retain :
    (p : String → Bool) (t : String) (l : List String)
    → contains t (retain p l) ≡ (contains t l && p t)
contains-retain p t [] = ground arith
contains-retain p t (x ∷ l) = ground (arith, eq_iff x t, contains-retain p t l)

-- The list has exactly the tools that the caller can call.
discoverable_tools_lem :
    (p : ToolPolicy) (c : Caller) (tool : String)
    → contains tool (discoverable_tools p c) ≡ is_callable p c tool
unfolding discoverable_tools
discoverable_tools_lem p c tool =
    let (callable, seen) = is_callable_lem p c tool in
    ground (
      arith,
      contains-retain (is_discoverable p c) tool (to_set (keys p.registry)),
      contains-to_set tool (keys p.registry),
      contains-keys p.registry tool,
      callable,
      seen,
    )

-- A policy that the environment gives lists the registered tools that the two lists of the
-- configuration, as it is loaded, leave.
from_env-discoverable_tools :
    (parse : String → Result ℕ String) (env : List (String × String))
    (es : List RegisteredCapability) (project : Result Overlay RufloError) (p : ToolPolicy)
    (c : Caller)
    → from_env parse env es project ≡ ok p
    → (config : EffectiveConfig) × (load_with parse (no_overrides parse) env project ≡ ok config)
      × ((tool : String)
          → contains tool (discoverable_tools p c) ≡ (
              is_registered es tool
              && not (contains tool config.policy.deny)
              && (is_nil config.policy.allow || contains tool config.policy.allow)))
unfolding from_env
from_env-discoverable_tools parse env es project p c h =
    let (config, loaded, made) =
      bind-ok (load_with parse (no_overrides parse) env project) (λ k. from_config k es) h in
    (
      config,
      loaded,
      λ tool. discoverable_tools_lem p c tool ∙ (from_config_decides config es).1 p c tool made,
    )
