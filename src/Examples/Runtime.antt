-- ===== src/Examples/Runtime.antt =====
-- Runs of the runtime: crates/ruflo-runtime/src/lib.rs.
use ruflo_rust.Prelude.{
  ◌≡◌, refl, true, some, List, [], ◌∷◌, contains, is_blank, ok, err, arith, nat_eq,
}
use ruflo_rust.Dict.{get, put, empty}
use ruflo_rust.Runtime.{
  AgentHandle, TaskHandle, SwarmHandle, AgentId, TaskId, NewSwarm, agent, task, swarm, agent_handle,
  task_handle, swarm_handle, ephemeral, validate_name, spawn_agent, stop_agent, create_task,
  check_members, check_swarm, init_swarm, cancel_task, get_handle, unknown_handle_error, cancelled,
  terminated, idle, initialized, created_entry, cancelled_entry,
}
use ruflo_rust.Runtime.Steps.{Call, spawn, stop, create, init, cancel, step, run, reply}
use ruflo_rust.Runtime.Updates.{Inv, HasRoom}
use ruflo_rust.Runtime.Invariant.{run-Inv}
use ruflo_rust.Runtime.Tasks.{run-cancelled, swarm_members_resolve}

abbrev team : NewSwarm
team = record { name = "team"; agents = 1 ∷ []; tasks = 1 ∷ [] }

abbrev history : List Call
history =
    spawn (record { name = "ada" })
    ∷ create (record { name = "build" })
    ∷ init team
    ∷ stop 1
    ∷ cancel 1
    ∷ []

run-Inv_example : Inv (run ephemeral history)
run-Inv_example = run-Inv history (omega arith)

Inv-after : Inv (run ephemeral history)
Inv-after = run-Inv history (omega arith)

abbrev the_swarm : SwarmHandle
the_swarm = record { id = 1; name = "team"; state = initialized; agents = 1 ∷ []; tasks = 1 ∷ [] }

has_swarm : get_handle (swarm 1) (run ephemeral history) ≡ ok (swarm_handle the_swarm)
unfolding get_handle run step ephemeral spawn_agent create_task init_swarm stop_agent cancel_task
    check_swarm check_members validate_name is_blank get put empty
has_swarm = refl

swarm_members_resolve_example :
    ((a : AgentId)
      → contains a the_swarm.agents ≡ true
      → (h : AgentHandle) × (get_handle (agent a) (run ephemeral history) ≡ ok (agent_handle h))
        × (h.id ≡ a))
    × ((t : TaskId)
        → contains t the_swarm.tasks ≡ true
        → (h : TaskHandle) × (get_handle (task t) (run ephemeral history) ≡ ok (task_handle h))
          × (h.id ≡ t))
swarm_members_resolve_example = swarm_members_resolve history 1 the_swarm (omega arith) has_swarm

abbrev dead : AgentHandle
dead = record { id = 1; name = "ada"; state = terminated }

abbrev dropped : TaskHandle
dropped = record {
  id = 1;
  name = "build";
  state = cancelled;
  audit_log = created_entry ∷ cancelled_entry 2 ∷ [];
}

room_after : HasRoom 1 (run ephemeral history)
unfolding run step ephemeral spawn_agent create_task init_swarm stop_agent cancel_task check_swarm
    check_members validate_name is_blank get put empty
room_after = (omega arith, omega arith, omega arith)

has_dead : get (run ephemeral history).agents 1 ≡ some dead
unfolding run step ephemeral spawn_agent create_task init_swarm stop_agent cancel_task check_swarm
    check_members validate_name is_blank get put empty
has_dead = refl

has_dropped : get (run ephemeral history).tasks 1 ≡ some dropped
unfolding run step ephemeral spawn_agent create_task init_swarm stop_agent cancel_task check_swarm
    check_members validate_name is_blank get put empty
has_dropped = refl

run-cancelled_example :
    get_handle (task 1) (run (run ephemeral history) (cancel 1 ∷ [])) ≡ ok (task_handle dropped)
run-cancelled_example =
    run-cancelled (run ephemeral history) (cancel 1 ∷ []) 1 dropped Inv-after room_after has_dropped
      refl

abbrev young : List Call
young = create (record { name = "build" }) ∷ []

cancels : (cancel_task 1 (run ephemeral young)).0 ≡ ok dropped
unfolding run step ephemeral create_task cancel_task validate_name is_blank get put empty
cancels = refl

stop_fails : reply ephemeral (stop 7) ≡ err (unknown_handle_error (agent 7))
unfolding reply ephemeral stop_agent get empty
stop_fails = refl

abbrev ada : AgentHandle
ada = record { id = 1; name = "ada"; state = idle }

spawns : (spawn_agent (record { name = "ada" }) ephemeral).0 ≡ ok ada
unfolding ephemeral spawn_agent validate_name is_blank get put empty
spawns = refl
