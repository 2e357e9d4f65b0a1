-- ===== src/Mcp/Gate.antt =====
-- Discovery is a promise that the tool can be called.
use ruflo_rust.Prelude.{
  format, ◌≤◌, ◌<◌, String, ◌≡◌, refl, ap, ◌∙◌, true, false, not, ◌&&◌, ◌||◌, none, some, List, [],
  ◌∷◌, map, find, retain, any, contains, arith, ok, err, string_eq, eq_iff, if◌then◌else◌,
  Bool-cases, Option-cases, inl, inr, find-some, Result-cases,
}
use ruflo_rust.Types.{RufloError}
use ruflo_rust.Config.{EffectiveConfig}
use ruflo_rust.Policy.{
  Caller, DispatchRequest, ToolPolicy, from_config, is_nil, is_discoverable, is_callable,
  authorize_request,
}
use ruflo_rust.Policy.Decisions.{from_config_decides, is_callable_lem, authorize_request_iff}
use ruflo_rust.Mcp.{
  invalid_input, unauthorized, RequestContext, ToolCall, Handler, RegisteredTool, Dispatcher,
  build_registry, make_dispatcher, listed, call, allows_capability,
}
use ruflo_rust.Mcp.Lookup.{is_named, Distinct, find-retain, retain-Distinct}

abbrev pub request_of : RequestContext → DispatchRequest
request_of ctx = record {
  request_bytes = ctx.request_bytes;
  active_executions = ctx.active_executions;
  duration_ms = ctx.duration_ms;
}

-- The four tools of the registry, from which `from_config` makes the policy.
abbrev pub tool_names : List String
tool_names = "agent_spawn" ∷ "memory_store" ∷ "memory_retrieve" ∷ "memory_search" ∷ []

module _ {W : Type 0} where
  -- The request is within the three limits of the configuration.
  abbrev pub WithinLimits : Dispatcher W → RequestContext → Type 0
  WithinLimits d ctx =
      (ctx.request_bytes ≤ d.policy.limits.max_request_bytes)
      × (ctx.active_executions < d.policy.limits.max_concurrent_executions)
      × (ctx.duration_ms ≤ d.policy.limits.max_duration_ms)

  find-listed :
      (d : Dispatcher W) (ctx : RequestContext) (name : String)
      → Distinct d.registry
      → find (is_named name) (listed d ctx) ≡ elim (find (is_named name) d.registry) [
        | none ↦ none
        | some t ↦
            if is_discoverable d.policy ctx.caller t.definition.name
              && allows_capability ctx t.definition.capability.name
            then some t
            else none
      ]
  unfolding listed
  find-listed d ctx name v =
      let seen = λ (t : RegisteredTool W). is_discoverable d.policy ctx.caller t.definition.name in
      ground (
        arith,
        find-retain (λ t. allows_capability ctx t.definition.capability.name) name
            (retain seen d.registry) (retain-Distinct seen d.registry v),
        find-retain seen name d.registry v,
      )

  refused :
      (d : Dispatcher W) (ctx : RequestContext) (name : String)
      → is_callable d.policy ctx.caller name ≡ false
      → (e : RufloError) × (authorize_request d.policy ctx.caller name (request_of ctx) ≡ err e)
  refused d ctx name h =
      elim (Result-cases (authorize_request d.policy ctx.caller name (request_of ctx))) [
        | inl e ↦ e
        | inr (u, e) ↦
            absurd (
              ground (arith, (authorize_request_iff d.policy ctx.caller name (request_of ctx)).0 e))
      ]

  -- Discovery tells the truth about calls: for a caller whose request is within the limits, a call
  -- of a tool that `list_tools` lists runs the tool's handler on the arguments, and a call of any
  -- other name is refused with an error and changes nothing.
  pub call-listed :
      (d : Dispatcher W) (ctx : RequestContext) (c : ToolCall) (w : W)
      → Distinct d.registry
      → WithinLimits d ctx
      → ((t : RegisteredTool W)
          → find (is_named c.name) (listed d ctx) ≡ some t
          → call d ctx c w ≡ t.handler c.arguments w)
        × (find (is_named c.name) (listed d ctx) ≡ none
            → (e : RufloError) × (call d ctx c w ≡ (err e, w)))
  unfolding call
  call-listed d ctx c w v fits =
      let k = find-listed d ctx c.name v in
      elim (Option-cases (find (is_named c.name) d.registry)) [
        | inl e ↦ (
          λ t h. absurd (ground (arith, k)),
          λ h. (
            invalid_input "tool.unsupported"
                (format ("MCP tool `" ∷ c.name ∷ "` is not implemented by this native build" ∷ [])),
            rw (e, call) refl,
          ),
        )
        | inr (t, e) ↦
            let same =
              (eq_iff t.definition.name c.name).0 (find-some (is_named c.name) t d.registry e) in
            let seen : is_discoverable d.policy ctx.caller t.definition.name
                ≡ is_callable d.policy ctx.caller c.name =
              (is_callable_lem d.policy ctx.caller t.definition.name).1
              ∙ ap (is_callable d.policy ctx.caller) same in
            elim (Bool-cases (is_callable d.policy ctx.caller c.name)) [
              | inl g ↦
                  let passed =
                    (authorize_request_iff d.policy ctx.caller c.name (request_of ctx)).1
                      (g, fits.0, fits.1, fits.2) in
                  (
                    λ u h. ground (arith, k, seen, passed),
                    λ h. (
                      unauthorized t.definition.capability.name,
                      ground (arith, k, seen, passed),
                    ),
                  )
              | inr g ↦
                  let (x, shut) = refused d ctx c.name g in
                  (λ u h. absurd (ground (arith, k, seen)), λ h. (x, rw (e, shut, call) refl))
            ]
      ]

  made :
      (ts : List (RegisteredTool W)) (config : EffectiveConfig) (d : Dispatcher W)
      → make_dispatcher ts config ≡ ok d
      → (d.registry ≡ ts)
        × (from_config config (
              map
                (λ t. record { tool = t.definition.name; capability = t.definition.capability })
                ts)
            ≡ ok d.policy)
  unfolding make_dispatcher
  made ts config d h = (ground arith, ground arith)

  any-seen :
      (p : ToolPolicy) (caller : Caller) (name : String) (ts : List (RegisteredTool W))
      → any (is_named name) (retain (λ t. is_discoverable p caller t.definition.name) ts)
        ≡ (any (is_named name) ts && is_callable p caller name)
  any-seen p caller name [] = refl
  any-seen p caller name (t ∷ ts) = elim (Bool-cases (is_named name t)) [
    | inl e ↦
        let same = (eq_iff t.definition.name name).0 e in
        let seen : is_discoverable p caller t.definition.name ≡ is_callable p caller name =
          (is_callable_lem p caller t.definition.name).1 ∙ ap (is_callable p caller) same in
        ground (arith, any-seen p caller name ts, seen)
    | inr e ↦ ground (arith, any-seen p caller name ts)
  ]

  any-all :
      (name : String) (ts : List (RegisteredTool W))
      → any (is_named name) (retain (λ t. true) ts) ≡ any (is_named name) ts
  any-all name [] = refl
  any-all name (t ∷ ts) = rw (any-all name ts)

  any-listed :
      (d : Dispatcher W) (ctx : RequestContext) (name : String)
      → ctx.identity ≡ none
      → any (is_named name) (listed d ctx)
        ≡ (any (is_named name) d.registry && is_callable d.policy ctx.caller name)
  unfolding listed allows_capability
  any-listed d ctx name anyone =
      rw anyone (any-all name _ ∙ any-seen d.policy ctx.caller name d.registry)

  -- The dispatcher of a configuration that is accepted has tools of different names; and without
  -- an identity it lists, of its four tools, exactly those that the deny list does not name and
  -- that the allow list, where it is not empty, does.
  pub make_dispatcher-listed :
      (spawn store retrieve look : Handler W) (config : EffectiveConfig) (d : Dispatcher W)
      → make_dispatcher (build_registry spawn store retrieve look) config ≡ ok d
      → Distinct d.registry
        × ((ctx : RequestContext) (name : String)
            → ctx.identity ≡ none
            → any (is_named name) (listed d ctx) ≡ (
                contains name tool_names
                && not (contains name config.policy.deny)
                && (is_nil config.policy.allow || contains name config.policy.allow)))
  unfolding build_registry
  make_dispatcher-listed spawn store retrieve look config d h =
      let (r, p) = made (build_registry spawn store retrieve look) config d h in
      (
        rw r (refl, (refl, (refl, (refl, tt)))),
        λ ctx name anyone.
            any-listed d ctx name anyone
            ∙ rw (r, (from_config_decides config _).1 d.policy ctx.caller name p) (ground arith),
      )
