-- ===== src/Examples/Lifecycle.antt =====
-- A project on disk with its tasks, agents and swarm: crates/ruflo-cli/src/lifecycle.rs.
use ruflo_rust.Prelude.{
  String, ◌≡◌, refl, true, false, none, some, List, [], ◌∷◌, Result, ok, err, arith, is_blank,
  string_eq, ◌==◌, if◌then◌else◌,
}
use ruflo_rust.Dict.{get, put, empty, get-empty}
use ruflo_rust.Dict.Listing.{keys}
use ruflo_rust.Storage.Jobs.{fresh_store}
use ruflo_rust.Lifecycle.{
  ErrorKind, IoError, refusal, AgentRecord, TaskRecord, SwarmRecord, File, Project, safe_identifier,
  valid_priority, valid_strategy, checked,
}
use ruflo_rust.Lifecycle.Agents.{get_agent, stop_agent, terminated}
use ruflo_rust.Lifecycle.Agents.Leftover.{stop_agent-get_agent}
use ruflo_rust.Lifecycle.Tasks.{
  create_task, assign_task, cancel_task, retry_task, read_task, write_task, check_agents,
  free_task_id,
}
use ruflo_rust.Lifecycle.Tasks.Rules.{IsOrderly}
use ruflo_rust.Lifecycle.Tasks.History.{
  TaskCall, create, assign, retry, cancel, mark, run, step, mark_task, run-IsOrderly,
}
use ruflo_rust.Lifecycle.Tasks.Assignment.{assign_task-assign_task}
use ruflo_rust.Lifecycle.Tasks.Creation.{create_task_lem}
use ruflo_rust.Lifecycle.Swarms.{start_swarm, finish_swarm}
use ruflo_rust.Lifecycle.Swarms.Stopped
use ruflo_rust.Lifecycle.Swarms.Stopped.{SwarmCall, start, stop, scale, stopped_stays}

abbrev fresh_project : Project
fresh_project = record {
  initialized = true;
  store = fresh_store;
  json_agents = [];
  tasks = empty;
  swarm = none;
  sessions = empty;
  logs = [];
}

fresh-IsOrderly : IsOrderly fresh_project
fresh-IsOrderly name file h = absurd (ground (arith, get-empty {V = File TaskRecord} name))

abbrev day : List TaskCall
day =
    create "coding" "port the parser" "high" "17"
    ∷ assign "task-17" [] false
    ∷ mark "task-17" "failed"
    ∷ retry "task-17" false
    ∷ cancel "task-17" "no time"
    ∷ []

abbrev status_of : Result TaskRecord IoError → String
status_of (ok t) = t.status
status_of (err e) = e.message

ends_cancelled : status_of (read_task "task-17" (run fresh_project day)) ≡ "cancelled"
unfolding run step create_task assign_task mark_task retry_task cancel_task read_task write_task
    check_agents free_task_id get put empty safe_identifier valid_priority checked is_blank
ends_cancelled = refl

abbrev one_task : Project
one_task = run fresh_project (create "coding" "port the parser" "high" "17" ∷ [])

abbrev ported : TaskRecord
ported = record {
  id = "task-17";
  task_type = "coding";
  description = "port the parser";
  priority = "high";
  status = "assigned";
  assigned_agent_ids = [];
  dependencies = [];
  tags = [];
  retry_count = 0;
  max_retries = 3;
  timeout_ms = 300000;
  cancellation_reason = none;
}

assigns : (assign_task "task-17" [] false one_task).0 ≡ ok ported
unfolding run step create_task assign_task read_task write_task check_agents free_task_id get put
    empty safe_identifier valid_priority checked is_blank
assigns = refl

assign_task-assign_task_example :
    let q = (assign_task "task-17" [] false one_task).1 in
    assign_task "task-17" ("a1" ∷ []) true q
    ≡ (err (refusal ErrorKind.invalid_input "can only assign queued or pending tasks"), q)
assign_task-assign_task_example =
    assign_task-assign_task "task-17" [] ("a1" ∷ []) one_task ported
      (run-IsOrderly fresh_project (create "coding" "port the parser" "high" "17" ∷ [])
        fresh-IsOrderly)
      assigns

create_task_lem_example :
    (t : TaskRecord) × (q : Project) × (create_task "coding" "port the parser" "high" "17"
        fresh_project
      ≡ (ok t, q))
    × (get fresh_project.tasks t.id ≡ none)
    × (t.status ≡ "pending")
    × ((name : String)
        → get q.tasks name ≡ (if t.id == name then some (ok t) else get fresh_project.tasks name))
unfolding is_blank valid_priority safe_identifier keys empty
create_task_lem_example =
    create_task_lem "coding" "port the parser" "high" "17" fresh_project refl refl refl refl
      (omega arith)

abbrev team : SwarmRecord
team = record {
  id = "swarm-1";
  topology = "mesh";
  max_agents = 5;
  strategy = "balanced";
  status = "ready";
  objective = none;
}

abbrev with_team : Project
with_team = record fresh_project { swarm = some (ok team) }

abbrev coder : AgentRecord
coder = record { id = "coder-1"; agent_type = "coder"; status = "idle" }

abbrev restored : Project
restored = record fresh_project { json_agents = coder ∷ [] }

stop_agent-get_agent_example :
    ((stop_agent "coder-1" restored).0 ≡ ok (terminated coder))
    × ((get_agent "coder-1" (stop_agent "coder-1" restored).1).0 ≡ ok coder)
unfolding safe_identifier
stop_agent-get_agent_example = stop_agent-get_agent "coder-1" coder restored refl refl refl

abbrev halted_team : SwarmRecord
halted_team = record team { status = "stopped" }

abbrev with_halted : Project
with_halted = record fresh_project { swarm = some (ok halted_team) }

abbrev attempts : List SwarmCall
attempts = start "build" "balanced" ∷ scale 9 "swarm-1" 2 none ∷ []

stopped_stays_example :
    ((Stopped.run with_halted attempts).swarm ≡ some (ok halted_team))
    × ((start_swarm "build" "balanced" (finish_swarm true (Stopped.run with_halted attempts)).1).0
        ≡ ok (record halted_team {
          status = "running";
          strategy = "balanced";
          objective = some "build";
        }))
unfolding is_blank valid_strategy
stopped_stays_example =
    stopped_stays halted_team with_halted attempts true "build" "balanced" refl refl refl refl
