-- ===== src/Runtime.antt =====
-- crates/ruflo-runtime/src/lib.rs: the in-process runtime of agents, tasks and swarms.
-- The mutex is held for the whole of each method, so a method is one function from the state to
-- its result and the next state. A `u64` counter wraps, as in a release build.
mod Handles
unfoldable pub use Handles.*
pub mod Steps
pub mod Updates
pub mod Invariant
pub mod Agents
pub mod Tasks
use ruflo_rust.Prelude.{
  ℕ, ◌+◌, ◌%◌, ◌^◌, String, Bool, true, false, not, Option, none, some, List, [], ◌∷◌, ◌++◌, length,
  find, Result, ok, err, ok_or, ◌>>◌, ◌>>=◌, is_blank, decimal, format, nat_eq, if◌then◌else◌,
}
use ruflo_rust.Dict
use ruflo_rust.Dict.{Dict, get, put, has_key}
use ruflo_rust.Types.{RufloError, invalid_input}

pub record RuntimeState : Type 0 where
  pub next_agent_id : ℕ
  pub next_task_id : ℕ
  pub next_swarm_id : ℕ
  pub agents : Dict AgentId AgentHandle
  pub tasks : Dict TaskId TaskHandle
  pub swarms : Dict SwarmId SwarmHandle
  pub workflows : Dict WorkflowId WorkflowHandle

unfoldable pub ephemeral : RuntimeState
ephemeral = record {
  next_agent_id = 1;
  next_task_id = 1;
  next_swarm_id = 1;
  agents = Dict.empty;
  tasks = Dict.empty;
  swarms = Dict.empty;
  workflows = Dict.empty;
}

-- What a method gives back, and the state behind it.
abbrev pub Outcome : Type 0 → Type 0
Outcome A = Result A RufloError × RuntimeState

-- `n += 1` on a `u64`.
abbrev pub next_id : ℕ → ℕ
next_id n = (n + 1) % 2 ^ 64

unfoldable pub validate_name : String → String → Result (Unit {0}) RufloError
validate_name code value =
    if is_blank value then err (invalid_input code "name must not be empty") else ok tt

unfoldable pub unknown_handle_error : HandleRef → RufloError
unknown_handle_error handle =
    let kind = kind_of handle in
    invalid_input "runtime.handle.unknown"
      (format ("unknown " ∷ kind ∷ " handle `" ∷ kind ∷ "-" ∷ decimal (id_of handle) ∷ "`" ∷ []))

unfoldable pub spawn_agent : NewAgent → RuntimeState → Outcome AgentHandle
spawn_agent new s = elim (validate_name "runtime.agent.name" new.name) [
  | err e ↦ (err e, s)
  | ok _ ↦
      let id = s.next_agent_id in
      let handle : AgentHandle = record { id = id; name = new.name; state = idle } in
      (ok handle, record s { next_agent_id = next_id id; agents = put s.agents id handle })
]

unfoldable pub start_agent : AgentId → RuntimeState → Outcome AgentHandle
start_agent id s = elim (get s.agents id) [
  | none ↦ (err (unknown_handle_error (agent id)), s)
  | some found ↦
      if is_terminated found.state
      then (
        err (
            invalid_input "runtime.agent.terminated"
              (format ("agent `agent-" ∷ decimal id ∷ "` is terminated" ∷ []))),
        s,
      )
      else let started : AgentHandle = record found { state = running } in
        (ok started, record s { agents = put s.agents id started })
]

unfoldable pub stop_agent : AgentId → RuntimeState → Outcome AgentHandle
stop_agent id s = elim (get s.agents id) [
  | none ↦ (err (unknown_handle_error (agent id)), s)
  | some found ↦
      let stopped : AgentHandle = record found { state = terminated } in
      (ok stopped, record s { agents = put s.agents id stopped })
]

unfoldable pub create_task : NewTask → RuntimeState → Outcome TaskHandle
create_task new s = elim (validate_name "runtime.task.name" new.name) [
  | err e ↦ (err e, s)
  | ok _ ↦
      let id = s.next_task_id in
      let handle : TaskHandle = record {
        id = id;
        name = new.name;
        state = pending;
        audit_log = created_entry ∷ [];
      } in
      (ok handle, record s { next_task_id = next_id id; tasks = put s.tasks id handle })
]

-- The two loops over the members, each of which stops at the first handle that is not there.
unfoldable pub check_members : NewSwarm → RuntimeState → Result (Unit {0}) RufloError
check_members new s = elim (find (λ id. not (has_key s.agents id)) new.agents) [
  | some id ↦ err (unknown_handle_error (agent id))
  | none ↦ elim (find (λ id. not (has_key s.tasks id)) new.tasks) [
    | some id ↦ err (unknown_handle_error (task id))
    | none ↦ ok tt
  ]
]

-- All that `init_swarm` checks before it takes an identifier.
unfoldable pub check_swarm : NewSwarm → RuntimeState → Result (Unit {0}) RufloError
check_swarm new s = do validate_name "runtime.swarm.name" new.name; check_members new s

unfoldable pub init_swarm : NewSwarm → RuntimeState → Outcome SwarmHandle
init_swarm new s = elim (check_swarm new s) [
  | err e ↦ (err e, s)
  | ok _ ↦
      let id = s.next_swarm_id in
      let handle : SwarmHandle = record {
        id = id;
        name = new.name;
        state = initialized;
        agents = new.agents;
        tasks = new.tasks;
      } in
      (ok handle, record s { next_swarm_id = next_id id; swarms = put s.swarms id handle })
]

-- The two errors of a cancellation that is refused.
unfoldable pub cancel_refusal : TaskId → TaskState → RufloError
cancel_refusal id cancelled =
    invalid_input "runtime.task.already_cancelled"
      (format ("task `task-" ∷ decimal id ∷ "` is already cancelled" ∷ []))
cancel_refusal id pending =
    invalid_input "runtime.task.invalid_transition"
      (format ("task `task-" ∷ decimal id ∷ "` cannot transition from Pending" ∷ []))

unfoldable pub cancel_task : TaskId → RuntimeState → Outcome TaskHandle
cancel_task id s = elim (get s.tasks id) [
  | none ↦ (err (unknown_handle_error (task id)), s)
  | some found ↦
      if not (can_transition found.state cancel)
      then (err (cancel_refusal id found.state), s)
      else let done : TaskHandle = record found {
        state = cancelled;
        audit_log = found.audit_log ++ cancelled_entry (length found.audit_log + 1) ∷ [];
      } in
        (ok done, record s { tasks = put s.tasks id done })
]

unfoldable pub get_handle : HandleRef → RuntimeState → Result RuntimeHandle RufloError
get_handle (agent id) s = elim (get s.agents id) [
  | none ↦ err (unknown_handle_error (agent id))
  | some found ↦ ok (agent_handle found)
]
get_handle (task id) s = elim (get s.tasks id) [
  | none ↦ err (unknown_handle_error (task id))
  | some found ↦ ok (task_handle found)
]
get_handle (swarm id) s = elim (get s.swarms id) [
  | none ↦ err (unknown_handle_error (swarm id))
  | some found ↦ ok (swarm_handle found)
]
get_handle (workflow id) s = elim (get s.workflows id) [
  | none ↦ err (unknown_handle_error (workflow id))
  | some found ↦ ok (workflow_handle found)
]
