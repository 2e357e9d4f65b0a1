-- ===== src/Examples/Tools.antt =====
-- Calls of tools, native actions and votes: ruflo-mcp, ruflo-actions, hive_mind.rs.
use ruflo_rust.Prelude.{
  ℕ, ◌+◌, ◌<◌, String, ◌≡◌, refl, Bool, true, false, not, ◌&&◌, ◌||◌, Option, none, some, List, [],
  ◌∷◌, find, any, count, retain, contains, Result, ok, err, arith, format, string_eq, nat_eq, ◌==◌,
  if◌then◌else◌, ◌++◌,
}
use ruflo_rust.Dict.{get, put, empty}
use ruflo_rust.Json.{Value, null, str, object, array, holds}
use ruflo_rust.Types.{RufloError, new_supported, invalid_input}
use ruflo_rust.Config.{EffectiveConfig, default_limits}
use ruflo_rust.Policy.{local, registry_from, validate_tokens, from_config, is_nil}
use ruflo_rust.Mcp.{
  RequestContext, ToolCall, ToolResult, text_result, Handler, RegisteredTool, Dispatcher,
  build_registry, make_dispatcher, listed, call,
}
use ruflo_rust.Mcp.Gate.{call-listed, tool_names, make_dispatcher-listed}
use ruflo_rust.Mcp.Lookup.{is_named, Distinct}
use ruflo_rust.Mcp.Arguments.{optional_string, maybe_sleep}
use ruflo_rust.Mcp.Spawn.{safe_role, agent_id_of, role_of, agent_spawn, agent_spawn-agent_spawn}
use ruflo_rust.Storage.Jobs.{AgentRow, fresh_store, get_agent}
use ruflo_rust.Actions.{ActionRequest, ActionOutput, Executor, execute}
use ruflo_rust.Actions.Manifest.{echo, echo_key, ActionManifest}
use ruflo_rust.Actions.Guards.{Passed, execute_lem}
use ruflo_rust.Hive.{votes_with, entries_of}
use ruflo_rust.Hive.Votes.{votes_with_lem}

abbrev plain : EffectiveConfig
plain = record {
  policy = record { allow = []; deny = "memory_store" ∷ [] };
  limits = default_limits;
}

-- A handler that counts its calls.
abbrev counting : Handler ℕ
counting arguments n = (ok (text_result "done" null), n + 1)

abbrev tools : List (RegisteredTool ℕ)
tools = build_registry counting counting counting counting

abbrev dispatcher : Dispatcher ℕ
dispatcher = record {
  config = plain;
  policy = record {
    registry =
        put
          (put (put (put empty "agent_spawn" "agent.spawn") "memory_store" "memory.store")
            "memory_retrieve" "memory.retrieve")
          "memory_search" "memory.search";
    allow = [];
    deny = "memory_store" ∷ [];
    limits = default_limits;
  };
  registry = tools;
}

makes : make_dispatcher tools plain ≡ ok dispatcher
unfolding make_dispatcher build_registry from_config registry_from validate_tokens get put empty
    new_supported
makes = refl

make_dispatcher-listed_example :
    Distinct dispatcher.registry
    × ((ctx : RequestContext) (name : String)
        → ctx.identity ≡ none
        → any (is_named name) (listed dispatcher ctx) ≡ (
            contains name tool_names
            && not (contains name plain.policy.deny)
            && (is_nil plain.policy.allow || contains name plain.policy.allow)))
make_dispatcher-listed_example =
    make_dispatcher-listed counting counting counting counting plain dispatcher makes

abbrev here : RequestContext
here = record {
  caller = local;
  identity = none;
  request_bytes = 100;
  active_executions = 0;
  duration_ms = 0;
}

abbrev ask : ToolCall
ask = record { name = "agent_spawn"; arguments = object [] }

distinct : Distinct dispatcher.registry
unfolding build_registry
distinct = (refl, (refl, (refl, (refl, tt))))

call-listed_example :
    ((t : RegisteredTool ℕ)
      → find (is_named "agent_spawn") (listed dispatcher here) ≡ some t
      → call dispatcher here ask 0 ≡ t.handler (object []) 0)
    × (find (is_named "agent_spawn") (listed dispatcher here) ≡ none
        → (e : RufloError) × (call dispatcher here ask 0 ≡ (err e, 0)))
call-listed_example =
    call-listed dispatcher here ask 0 distinct (omega arith, omega arith, omega arith)

abbrev coder : Value
coder = object (("role", str "a b") ∷ [])

abbrev spawned : ToolResult
spawned = text_result "recorded idle agent `agent-a-b`" (
    object (
      ("agentId", str "agent-a-b")
      ∷ ("role", str "a b")
      ∷ ("status", str "idle")
      ∷ ("persisted", Value.bool true)
      ∷ ("store", str "sqlite")
      ∷ ("running", Value.bool false)
      ∷ []))

spawns_coder : (agent_spawn (ok tt) coder fresh_store).0 ≡ ok spawned
unfolding agent_spawn maybe_sleep optional_string get_agent get empty safe_role
spawns_coder = refl

agent_spawn-agent_spawn_example :
    (o : Option String) × (optional_string coder "role" ≡ ok o)
    × (let id = agent_id_of (role_of o) in
        let s' = (agent_spawn (ok tt) coder fresh_store).1 in
        (get_agent id fresh_store ≡ none)
        × ((row : AgentRow) × (get_agent id s' ≡ some row)
            × (row.id ≡ id)
            × (row.status ≡ "idle")
            × (row.role ≡ role_of o))
        × ((other : String)
            → (id == other) ≡ false
            → get_agent other s' ≡ get_agent other fresh_store)
        × (agent_spawn (ok tt) coder s' ≡ (
          err (invalid_input "agent.exists" (format ("agent `" ∷ id ∷ "` already exists" ∷ []))),
          s',
        )))
agent_spawn-agent_spawn_example = agent_spawn-agent_spawn coder fresh_store spawned spawns_coder

abbrev manifest : ActionManifest
manifest = record {
  version = 1;
  name = "build";
  actions = record { id = "hello"; action = echo [] } ∷ [];
}

abbrev directories : String → Result (List String) String
directories path = if path == "/p" then ok ("p" ∷ []) else ok ("p" ∷ "src" ∷ [])

abbrev exists_there : List String → Result Bool String
exists_there _ = ok true

abbrev shown : List String → String
shown _ = "/p/src"

abbrev executor : Executor
executor = record {
  allowlist = echo_key ∷ [];
  default_timeout_ms = 1000;
  max_concurrent_executions = 4;
}

abbrev request : ActionRequest
request = record {
  manifest = manifest;
  project_root = "/p";
  working_directory = "/p/src";
  environment_keys = [];
  action_id = "hello";
  invocation = echo ("hi" ∷ []);
}

execute_lem_example :
    ((execute directories exists_there shown executor request 0).1 ≡ 0)
    × ((out : ActionOutput)
        → (execute directories exists_there shown executor request 0).0 ≡ ok out
        → Passed directories exists_there shown executor request out.directory
          × (0 < executor.max_concurrent_executions))
execute_lem_example = execute_lem directories exists_there shown executor request 0

abbrev proposal : Value
proposal = object (
    ("id", str "prop-1")
    ∷ ("votes", array (object (("voter", str "a") ∷ ("vote", str "reject") ∷ []) ∷ []))
    ∷ [])

votes_with_lem_example :
    (count (λ v. holds v "voter" "a") (votes_with "a" "accept" proposal) ≡ 1)
    × ((front : List Value) × (new : Value) × (votes_with "a" "accept" proposal ≡ front ++ new ∷ [])
        × (holds new "voter" "a" ≡ true)
        × (holds new "vote" "accept" ≡ true))
    × ((other : String)
        → ("a" == other) ≡ false
        → retain (λ v. holds v "voter" other) (votes_with "a" "accept" proposal)
          ≡ retain (λ v. holds v "voter" other) (entries_of proposal "votes"))
votes_with_lem_example = votes_with_lem "a" "accept" proposal
