-- ===== src/Runtime/Handles.antt =====
-- crates/ruflo-runtime/src/{agent,task,swarm,workflow}.rs and the handle types of lib.rs.
-- An identifier is a newtype over `u64`: the number itself.
use ruflo_rust.Prelude.{ℕ, String, Bool, true, false, List, []}

abbrev pub AgentId : Type 0
AgentId = ℕ

abbrev pub TaskId : Type 0
TaskId = ℕ

abbrev pub SwarmId : Type 0
SwarmId = ℕ

abbrev pub WorkflowId : Type 0
WorkflowId = ℕ

pub record NewAgent : Type 0 where
  pub name : String

pub data AgentState : Type 0 where
  idle running terminated : AgentState

pub record AgentHandle : Type 0 where
  pub id : AgentId
  pub name : String
  pub state : AgentState

-- `state == AgentState::Terminated`
abbrev pub is_terminated : AgentState → Bool
is_terminated terminated = true
is_terminated _ = false

pub record NewTask : Type 0 where
  pub name : String

pub data TaskState : Type 0 where
  pending cancelled : TaskState

pub data TaskAuditKind : Type 0 where
  created cancelled : TaskAuditKind

pub record TaskAuditEntry : Type 0 where
  pub sequence : ℕ  -- u64
  pub kind : TaskAuditKind
  pub note : String

pub record TaskHandle : Type 0 where
  pub id : TaskId
  pub name : String
  pub state : TaskState
  pub audit_log : List TaskAuditEntry

pub data TaskTransition : Type 0 where
  cancel : TaskTransition

abbrev pub can_transition : TaskState → TaskTransition → Bool
can_transition pending cancel = true
can_transition cancelled cancel = false

abbrev pub created_entry : TaskAuditEntry
created_entry = record { sequence = 1; kind = created; note = "task created" }

abbrev pub cancelled_entry : ℕ → TaskAuditEntry
cancelled_entry sequence = record {
  sequence = sequence;
  kind = TaskAuditKind.cancelled;
  note = "task cancelled";
}

pub record NewSwarm : Type 0 where
  pub name : String
  pub agents : List AgentId
  pub tasks : List TaskId

-- `NewSwarm::named` and the two builder methods.
unfoldable pub named : String → NewSwarm
named name = record { name = name; agents = []; tasks = [] }

unfoldable pub with_agents : NewSwarm → List AgentId → NewSwarm
with_agents swarm agents = record swarm { agents = agents }

unfoldable pub with_tasks : NewSwarm → List TaskId → NewSwarm
with_tasks swarm tasks = record swarm { tasks = tasks }

pub data SwarmState : Type 0 where
  initialized : SwarmState

pub record SwarmHandle : Type 0 where
  pub id : SwarmId
  pub name : String
  pub state : SwarmState
  pub agents : List AgentId
  pub tasks : List TaskId

pub data WorkflowState : Type 0 where
  defined : WorkflowState

pub record WorkflowHandle : Type 0 where
  pub id : WorkflowId
  pub name : String
  pub state : WorkflowState

pub data RuntimeHandle : Type 0 where
  agent_handle : AgentHandle → RuntimeHandle
  task_handle : TaskHandle → RuntimeHandle
  swarm_handle : SwarmHandle → RuntimeHandle
  workflow_handle : WorkflowHandle → RuntimeHandle

pub data HandleRef : Type 0 where
  agent : AgentId → HandleRef
  task : TaskId → HandleRef
  swarm : SwarmId → HandleRef
  workflow : WorkflowId → HandleRef

-- The pair that `unknown_handle_error` takes from a reference.
abbrev pub kind_of : HandleRef → String
kind_of (agent id) = "agent"
kind_of (task id) = "task"
kind_of (swarm id) = "swarm"
kind_of (workflow id) = "workflow"

abbrev pub id_of : HandleRef → ℕ
id_of (agent id) = id
id_of (task id) = id
id_of (swarm id) = id
id_of (workflow id) = id
