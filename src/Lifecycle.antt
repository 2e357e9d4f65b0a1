-- ===== src/Lifecycle.antt =====
-- crates/ruflo-cli/src/lifecycle.rs: the agents, the tasks and the swarm of a project on disk. A
-- call of the file system or of the store that the model makes succeeds, save where a file is
-- missing, is there already or does not parse; the time stamps of the logs are left out.
pub mod Agents
pub mod Tasks
pub mod Swarms
pub mod Sessions
pub mod Naming
use Prim.Native.Char.{code}
use ruflo_rust.Prelude.{
  ℕ, String, Bool, true, false, not, ◌&&◌, ◌||◌, Option, none, some, List, [], ◌∷◌, contains,
  Result, ok, err, all_chars, is_safe, string_eq, ◌==◌, if◌then◌else◌,
}
use ruflo_rust.Dict.{Dict}
use ruflo_rust.Storage.Jobs.{Store}

pub data ErrorKind : Type 0 where
  not_found : ErrorKind
  invalid_input : ErrorKind
  already_exists : ErrorKind
  other : ErrorKind

pub record IoError : Type 0 where
  pub kind : ErrorKind
  pub message : String

abbrev pub refusal : ErrorKind → String → IoError
refusal kind message = record { kind = kind; message = message }

pub record AgentRecord : Type 0 where
  pub id : String
  pub agent_type : String
  pub status : String

pub record TaskRecord : Type 0 where
  pub id : String
  pub task_type : String
  pub description : String
  pub priority : String
  pub status : String
  pub assigned_agent_ids : List String
  pub dependencies : List String
  pub tags : List String
  pub retry_count : ℕ
  pub max_retries : ℕ
  pub timeout_ms : ℕ
  pub cancellation_reason : Option String

pub record SwarmRecord : Type 0 where
  pub id : String
  pub topology : String
  pub max_agents : ℕ
  pub strategy : String
  pub status : String
  pub objective : Option String

pub record SessionRecord : Type 0 where
  pub session_id : String
  pub name : String
  pub description : String
  pub status : String
  pub saved_at_ms : ℕ
  pub agents : List AgentRecord
  pub tasks : List TaskRecord
  pub swarm : Option SwarmRecord

-- The record in a JSON file, or the message of the parser.
abbrev pub File : Type 0 → Type 0
File A = Result A String

-- The files of a project. `initialized` says that `.claude-flow/config.yaml` is a file, `store` is
-- the SQLite file, `json_agents` are the records in `.swarm/agents` that parse, in the order of the
-- directory, and the keys of `tasks` and of `sessions` are the names of the files without `.json`,
-- so that `current.json` is the session under `current`. A line of a log is an agent and a message.
pub record Project : Type 0 where
  pub initialized : Bool
  pub store : Store
  pub json_agents : List AgentRecord
  pub tasks : Dict String (File TaskRecord)
  pub swarm : Option (File SwarmRecord)
  pub sessions : Dict String (File SessionRecord)
  pub logs : List (String × String)

-- `status`, as the other operations use it.
unfoldable pub checked : Project → Result (Unit {0}) IoError
checked p =
    if p.initialized
    then ok tt
    else err (refusal ErrorKind.not_found "RuFlo is not initialized in this directory")

unfoldable pub safe_identifier : String → Result String IoError
safe_identifier value =
    if value == "" || not (all_chars is_safe value)
    then err
        (refusal ErrorKind.invalid_input "identifier must contain only letters, digits, '-' or '_'")
    else ok value

unfoldable pub valid_priority : String → Result String IoError
valid_priority value =
    if contains value ("critical" ∷ "high" ∷ "normal" ∷ "low" ∷ [])
    then ok value
    else err (refusal ErrorKind.invalid_input "priority must be critical, high, normal, or low")

unfoldable pub valid_topology : String → Result String IoError
valid_topology value =
    if contains value (
      "hierarchical" ∷ "mesh" ∷ "ring" ∷ "star" ∷ "hybrid" ∷ "hierarchical-mesh"
      ∷ "pheromone-adaptive" ∷ [])
    then ok value
    else err (refusal ErrorKind.invalid_input "unsupported swarm topology")

unfoldable pub valid_strategy : String → Result String IoError
valid_strategy value =
    if contains value (
      "specialized" ∷ "balanced" ∷ "adaptive" ∷ "research" ∷ "development" ∷ "testing"
      ∷ "optimization" ∷ "maintenance" ∷ "analysis" ∷ [])
    then ok value
    else err (refusal ErrorKind.invalid_input "unsupported swarm strategy")
