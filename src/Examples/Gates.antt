-- ===== src/Examples/Gates.antt =====
-- The gates of tools, actions and votes: ruflo-config, ruflo-mcp, ruflo-actions, hive_mind.rs.
use ruflo_rust.Prelude.{
  ℕ, String, ◌≡◌, ◌↔◌, refl, true, not, ◌&&◌, ◌||◌, none, some, List, [], ◌∷◌, map, all, contains,
  Result, ok, err, trim, string_eq, nat_eq, ◌==◌, if◌then◌else◌, any, false,
}
use ruflo_rust.Dict.{put, empty}
use ruflo_rust.Types.{supported}
use ruflo_rust.Config.{
  EffectiveConfig, Overlay, Overrides, default_config, default_limits, overlay, merge, from_pairs,
  load_with, normalize_tokens, normalize_tokens, parse_number,
}
use ruflo_rust.Config.File.{parse_file, parse_lines, read_setting, parse_array}
use ruflo_rust.Config.Lines.{Reads, parse_file_lem}
use ruflo_rust.Config.Said.{line_of, given, is_malformed, sets, list_keys, limit_keys}
use ruflo_rust.Config.Precedence.{first, load_with_precedence, lists_set, limits_set}
use ruflo_rust.Policy.{
  Caller, RegisteredCapability, ToolPolicy, DispatchRequest, from_config, is_callable, is_nil,
}
use ruflo_rust.Policy.Decisions.{is_registered, from_config_decides}
use ruflo_rust.Transport.{SlimTransportAdapter}

abbrev parse : String → Result ℕ String
parse s = if s == "9" then ok 9 else err "invalid digit found in string"

abbrev cli : Overrides
cli = record {
  allow = some ("agent_spawn" ∷ []);
  deny = none;
  max_request_bytes = none;
  max_concurrent_executions = none;
  max_duration_ms = some 9;
}

abbrev file : Overlay
file = record {
  policy = some (record { allow = []; deny = "memory_store" ∷ [] });
  limits =
      some
        (record { max_request_bytes = 10; max_concurrent_executions = 1; max_duration_ms = 100 });
}

abbrev environment : List (String × String)
environment = ("RUFLO_MCP_MAX_DURATION_MS", "9") ∷ ("HOME", "/root") ∷ []

abbrev over : Overlay
over = record {
  policy = none;
  limits =
      some
        (record { max_request_bytes = 65536; max_concurrent_executions = 4; max_duration_ms = 9 });
}

reads : from_pairs parse environment ≡ ok over
unfolding from_pairs overlay
reads = refl

abbrev loaded : EffectiveConfig
loaded = record {
  policy = record { allow = "agent_spawn" ∷ []; deny = [] };
  limits = record { max_request_bytes = 65536; max_concurrent_executions = 4; max_duration_ms = 9 };
}

loads : load_with parse cli environment (ok file) ≡ ok loaded
unfolding load_with from_pairs overlay merge normalize_tokens trim
loads = refl

load_with_precedence_example :
    let lists =
      first (lists_set cli.allow cli.deny ∷ over.policy ∷ file.policy ∷ []) default_config.policy in
    (loaded.limits
      ≡ first
          (limits_set cli.max_request_bytes cli.max_concurrent_executions cli.max_duration_ms
            ∷ over.limits
            ∷ file.limits
            ∷ [])
          default_limits)
    × ((t : String)
        → (contains t loaded.policy.allow ≡ (not (t == "") && contains t (map trim lists.allow)))
          × (contains t loaded.policy.deny ≡ (not (t == "") && contains t (map trim lists.deny))))
load_with_precedence_example =
    load_with_precedence parse cli environment file over loaded reads loads

abbrev registered : List RegisteredCapability
registered =
    record {
      tool = "agent_spawn";
      capability = record { name = "agent.spawn"; wave = 1; status = supported; migration = none };
    }
    ∷ []

from_config_decides_example :
    (((p : ToolPolicy) × (from_config loaded registered ≡ ok p)) ↔ (
      (all (is_registered registered) loaded.policy.allow ≡ true)
      × (all (is_registered registered) loaded.policy.deny ≡ true)))
    × ((p : ToolPolicy) (c : Caller) (tool : String)
        → from_config loaded registered ≡ ok p
        → is_callable p c tool ≡ (
            is_registered registered tool
            && not (contains tool loaded.policy.deny)
            && (is_nil loaded.policy.allow || contains tool loaded.policy.allow)))
from_config_decides_example = from_config_decides loaded registered

abbrev policy : ToolPolicy
policy = record {
  registry = put empty "agent_spawn" "agent.spawn";
  allow = "agent_spawn" ∷ [];
  deny = [];
  limits = loaded.limits;
}

abbrev small : DispatchRequest
small = record { request_bytes = 100; active_executions = 0; duration_ms = 3 }

abbrev willing : SlimTransportAdapter
willing = record { is_available = ok true; activate = λ e. ok tt }

abbrev three_lines : List String
three_lines = "# rules" ∷ "[limits]" ∷ "max_duration_ms = 9" ∷ []

abbrev read_file : Overlay
read_file = record {
  policy = none;
  limits =
      some
        (record { max_request_bytes = 65536; max_concurrent_executions = 4; max_duration_ms = 9 });
}

reads_file : parse_file parse three_lines ≡ ok read_file
unfolding parse_file parse_lines read_setting parse_number trim
reads_file = refl

parse_file_lem_example :
    let ls = map line_of three_lines in
    (any is_malformed ls ≡ false)
    × (false ≡ sets "policy" list_keys "" ls)
    × (true ≡ sets "limits" limit_keys "" ls)
    × Reads parse_array [] (given "policy" "allow" "" ls) []
    × Reads parse_array [] (given "policy" "deny" "" ls) []
    × Reads
        (parse_number parse "max_request_bytes")
        65536
        (given "limits" "max_request_bytes" "" ls)
        65536
    × Reads
        (parse_number parse "max_concurrent_executions")
        4
        (given "limits" "max_concurrent_executions" "" ls)
        4
    × Reads (parse_number parse "max_duration_ms") 30000 (given "limits" "max_duration_ms" "" ls) 9
parse_file_lem_example = parse_file_lem parse three_lines read_file reads_file
