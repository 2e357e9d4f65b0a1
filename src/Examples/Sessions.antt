-- ===== src/Examples/Sessions.antt =====
-- A session of a project, saved and restored: crates/ruflo-cli/src/lifecycle.rs.
use ruflo_rust.Prelude.{true, none, some, [], ◌∷◌, ok, string_eq}
use ruflo_rust.Dict.{put, empty}
use ruflo_rust.Storage.Jobs.{fresh_store}
use ruflo_rust.Storage.Jobs
use ruflo_rust.Lifecycle.{AgentRecord, TaskRecord, SwarmRecord, SessionRecord, Project}
use ruflo_rust.Lifecycle.Agents.{row_of}
use ruflo_rust.Lifecycle.Agents.Rows.{with_row}
use ruflo_rust.Lifecycle.Sessions.{save_session}

abbrev mesh : SwarmRecord
mesh = record {
  id = "swarm-1";
  topology = "mesh";
  max_agents = 5;
  strategy = "balanced";
  status = "ready";
  objective = none;
}

abbrev start_project : Project
start_project = record {
  initialized = true;
  store = fresh_store;
  json_agents = [];
  tasks = empty;
  swarm = some (ok mesh);
  sessions = empty;
  logs = [];
}

abbrev coder_1 : AgentRecord
coder_1 = record { id = "coder-1"; agent_type = "coder"; status = "busy" }

abbrev waiting : TaskRecord
waiting = record {
  id = "task-17";
  task_type = "coding";
  description = "port the parser";
  priority = "high";
  status = "pending";
  assigned_agent_ids = [];
  dependencies = [];
  tags = [];
  retry_count = 0;
  max_retries = 3;
  timeout_ms = 300000;
  cancellation_reason = none;
}

abbrev staffed : Project
staffed = with_row "coder-1" (row_of "coder" coder_1) "agent spawned" start_project

abbrev busy : Project
busy = record staffed { tasks = put staffed.tasks "task-17" (ok waiting) }

abbrev saved : SessionRecord
saved = record {
  session_id = "session-99";
  name = "before the port";
  description = "";
  status = "saved";
  saved_at_ms = 100;
  agents = coder_1 ∷ [];
  tasks = waiting ∷ [];
  swarm = some mesh;
}

-- The project some time later: the agents and the swarm are gone.
abbrev later : Project
later = record (save_session "99" 100 "before the port" "" busy).1 {
  store = fresh_store;
  swarm = none;
}
