-- ===== src/Mcp.antt =====
-- crates/ruflo-mcp/src/dispatcher.rs: the tools that the MCP server offers, and the gate that each
-- call passes. The registry is here, reading the arguments is in Mcp/Arguments, the handler of
-- `agent_spawn` in Mcp/Spawn, the replies for errors in Mcp/Errors and the schemas of the arguments
-- in Mcp/Schemas.
pub mod Schemas
pub mod Arguments
pub mod Spawn
pub mod Errors
pub mod Lookup
pub mod Gate
use ruflo_rust.Prelude.{
  ℕ, String, Bool, true, false, not, ◌&&◌, Option, none, some, List, [], ◌∷◌, map, find, retain,
  contains, Result, ok, err, ◌>>=◌, format, string_eq, ◌==◌, if◌then◌else◌,
}
use ruflo_rust.Json.{Value, str, bool, num, pos_int, object, array}
use ruflo_rust.Types.{Capability, RufloError, invalid_input, unauthorized, new_supported}
use ruflo_rust.Config.{EffectiveConfig}
use ruflo_rust.Policy.{
  Caller, local, named, DispatchRequest, RegisteredCapability, ToolPolicy, from_config,
  is_discoverable, authorize_request,
}
use ruflo_rust.Mcp.Schemas.{input_schema_for}

pub record RequestIdentity : Type 0 where
  pub subject : String
  pub issuer : String
  pub audience : String
  pub expires_at_epoch_s : ℕ
  pub capabilities : List String

pub record RequestContext : Type 0 where
  pub caller : Caller
  pub identity : Option RequestIdentity
  pub request_bytes : ℕ
  pub active_executions : ℕ
  pub duration_ms : ℕ

unfoldable pub local_context : ℕ → RequestContext
local_context bytes = record {
  caller = local;
  identity = none;
  request_bytes = bytes;
  active_executions = 0;
  duration_ms = 0;
}

unfoldable pub remote_context : RequestIdentity → ℕ → ℕ → ℕ → RequestContext
remote_context identity bytes active duration = record {
  caller = named identity.subject;
  identity = some identity;
  request_bytes = bytes;
  active_executions = active;
  duration_ms = duration;
}

unfoldable pub allows_capability : RequestContext → String → Bool
allows_capability ctx capability = elim ctx.identity [
  | none ↦ true
  | some identity ↦ contains capability identity.capabilities
]

pub record ToolCall : Type 0 where
  pub name : String
  pub arguments : Value

pub record ToolDefinition : Type 0 where
  pub name : String
  pub description : String
  pub capability : Capability

unfoldable pub json_schema : ToolDefinition → Value
unfolding input_schema_for
json_schema t = object (
    ("name", str t.name)
    ∷ ("description", str t.description)
    ∷ ("inputSchema", input_schema_for t.name)
    ∷ [])

-- `content` is a list of texts.
pub record ToolResult : Type 0 where
  pub content : List String
  pub structured_content : Option Value

abbrev pub text_result : String → Value → ToolResult
text_result text structured = record { content = text ∷ []; structured_content = some structured }

-- The dispatcher, over the state `W` that the handlers read and write.
module _ (W : Type 0) where
  abbrev pub Handler : Type 0
  Handler = Value → W → Result ToolResult RufloError × W

  pub record RegisteredTool : Type 0 where
    pub definition : ToolDefinition
    pub handler : Handler

  pub record Dispatcher : Type 0 where
    pub config : EffectiveConfig
    pub policy : ToolPolicy
    pub registry : List RegisteredTool

module _ {W : Type 0} where
  abbrev tool : String → String → String → Handler W → RegisteredTool W
  tool name description capability handler = record {
    definition = record {
      name = name;
      description = description;
      capability = new_supported capability 1;
    };
    handler = handler;
  }

  unfoldable pub build_registry :
      Handler W → Handler W → Handler W → Handler W → List (RegisteredTool W)
  unfolding new_supported
  build_registry agent_spawn memory_store memory_retrieve memory_search =
      tool "agent_spawn" "Spawn a Ruflo-tracked agent." "agent.spawn" agent_spawn
      ∷ tool "memory_store" "Store a persistent memory entry." "memory.store" memory_store
      ∷ tool "memory_retrieve" "Retrieve a persistent memory entry by key." "memory.retrieve"
          memory_retrieve
      ∷ tool "memory_search" "Find persistent memories with keyword fallback." "memory.search"
          memory_search
      ∷ []

  -- `Dispatcher::from_config`, over the registry.
  unfoldable pub make_dispatcher :
      List (RegisteredTool W) → EffectiveConfig → Result (Dispatcher W) RufloError
  unfolding from_config
  make_dispatcher registry config =
      from_config config (
        map (λ t. record { tool = t.definition.name; capability = t.definition.capability })
          registry)
      >>= λ policy. ok (record { config = config; policy = policy; registry = registry })

  -- The two filters of `list_tools`.
  unfoldable pub listed : Dispatcher W → RequestContext → List (RegisteredTool W)
  unfolding is_discoverable allows_capability
  listed d ctx =
      retain (λ t. allows_capability ctx t.definition.capability.name)
        (retain (λ t. is_discoverable d.policy ctx.caller t.definition.name) d.registry)

  unfoldable pub list_tools : Dispatcher W → RequestContext → Value
  unfolding listed json_schema
  list_tools d ctx =
      object (("tools", array (map (λ t. json_schema t.definition) (listed d ctx))) ∷ [])

  unfoldable pub call :
      Dispatcher W → RequestContext → ToolCall → W → Result ToolResult RufloError × W
  unfolding authorize_request allows_capability
  call d ctx c w = elim (find (λ t. t.definition.name == c.name) d.registry) [
    | none ↦ (
      err (
          invalid_input "tool.unsupported"
            (format ("MCP tool `" ∷ c.name ∷ "` is not implemented by this native build" ∷ []))),
      w,
    )
    | some t ↦
        elim (authorize_request d.policy ctx.caller c.name (record {
          request_bytes = ctx.request_bytes;
          active_executions = ctx.active_executions;
          duration_ms = ctx.duration_ms;
        })) [
          | err e ↦ (err e, w)
          | ok _ ↦
              if allows_capability ctx t.definition.capability.name
              then t.handler c.arguments w
              else (err (unauthorized t.definition.capability.name), w)
        ]
  ]
