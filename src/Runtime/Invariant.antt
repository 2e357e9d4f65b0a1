-- ===== src/Runtime/Invariant.antt =====
-- What holds of the runtime state between two calls.
use ruflo_rust.Prelude.{
  ◌++◌, refl, Result-cases, Bool-cases, ℕ, suc, ◌+◌, ◌^◌, ◌<◌, ◌≡◌, Bool, true, not, none, some,
  List, [], ◌∷◌, length, find, contains, ok, arith, nat_eq, nat_beq_iff, Option-cases, inl, inr,
}
use ruflo_rust.Dict.{get, has_key}
use ruflo_rust.Runtime.{
  is_terminated, TaskTransition, check_swarm, can_transition, RuntimeState, AgentHandle, TaskHandle,
  SwarmHandle, NewSwarm, NewAgent, NewTask, AgentId, TaskId, cancelled, cancelled_entry, next_id,
  ephemeral, validate_name, check_members, spawn_agent, start_agent, stop_agent, create_task,
  init_swarm, cancel_task,
}
use ruflo_rust.Runtime.Steps.{Call, spawn, start, stop, create, init, cancel, step, run}
use ruflo_rust.Runtime.Updates.{
  Inv, HasRoom, MembersKnown, log_of, ephemeral-Inv, put_agent-Inv, put_task-Inv, put_swarm-Inv,
}

-- What a search that finds nothing says of each element.
find-none :
    (p : ℕ → Bool) (xs : List ℕ) (a : ℕ)
    → find (λ x. not (p x)) xs ≡ none
    → contains a xs ≡ true
    → p a ≡ true
find-none p [] a h m = cc
find-none p (x ∷ xs) a h m = ground (arith, find-none p xs a, nat_beq_iff x a)

-- The loops over the members pass only for a swarm whose members are all known.
check_members-MembersKnown :
    (new : NewSwarm) (s : RuntimeState) (w : SwarmHandle)
    → w.agents ≡ new.agents
    → w.tasks ≡ new.tasks
    → check_members new s ≡ ok tt
    → MembersKnown s w
unfolding check_members
check_members-MembersKnown new s w ea et h = record {
  agents_known =
      λ a m. find-none (λ id. has_key s.agents id) new.agents a (ground arith) (rw ea at m);
  tasks_known = λ t m. find-none (λ id. has_key s.tasks id) new.tasks t (ground arith) (rw et at m);
}

next_id_lem : (n m : ℕ) → n + suc m < 2 ^ 64 → next_id n ≡ n + 1
next_id_lem n m h = omega arith

-- A key that holds a handle is below the counter.
agent_below :
    (s : RuntimeState)
    → Inv s
    → (id : ℕ) (a : AgentHandle) → get s.agents id ≡ some a
    → id < s.next_agent_id
agent_below s v id a h = grind (arith, v.fresh_agents)

task_below :
    (s : RuntimeState)
    → Inv s
    → (id : ℕ) (t : TaskHandle) → get s.tasks id ≡ some t
    → id < s.next_task_id
task_below s v id t h = grind (arith, v.fresh_tasks)

module _ (s : RuntimeState) (v : Inv s) where
  spawn_agent-Inv : (new : NewAgent) → s.next_agent_id + 1 < 2 ^ 64 → Inv (spawn_agent new s).1
  unfolding spawn_agent
  spawn_agent-Inv new room = elim (Result-cases (validate_name "runtime.agent.name" new.name)) [
    | inl (_, e) ↦ rw (e, spawn_agent) v
    | inr (_, e) ↦
        rw (e, spawn_agent) (put_agent-Inv s v s.next_agent_id _ _ refl (omega arith) (omega arith))
  ]

  start_agent-Inv : (id : AgentId) → Inv (start_agent id s).1
  unfolding start_agent
  start_agent-Inv id = elim (Option-cases (get s.agents id)) [
    | inl e ↦ rw (e, start_agent) v
    | inr (a, e) ↦ elim (Bool-cases (is_terminated a.state)) [
      | inl t ↦ rw (e, t, start_agent) v
      | inr t ↦
          rw (e, t, start_agent)
            (put_agent-Inv s v id s.next_agent_id _ (v.agent_ids id a e) (agent_below s v id a e)
              (omega arith))
    ]
  ]

  stop_agent-Inv : (id : AgentId) → Inv (stop_agent id s).1
  unfolding stop_agent
  stop_agent-Inv id = elim (Option-cases (get s.agents id)) [
    | inl e ↦ rw (e, stop_agent) v
    | inr (a, e) ↦
        rw (e, stop_agent)
          (put_agent-Inv s v id s.next_agent_id _ (v.agent_ids id a e) (agent_below s v id a e)
            (omega arith))
  ]

  create_task-Inv : (new : NewTask) → s.next_task_id + 1 < 2 ^ 64 → Inv (create_task new s).1
  unfolding create_task
  create_task-Inv new room = elim (Result-cases (validate_name "runtime.task.name" new.name)) [
    | inl (_, e) ↦ rw (e, create_task) v
    | inr (_, e) ↦
        rw (e, create_task)
          (put_task-Inv s v s.next_task_id _ _ refl refl (omega arith) (omega arith))
  ]

  cancelled_log :
      (t : TaskHandle)
      → t.audit_log ≡ log_of t.state
      → can_transition t.state TaskTransition.cancel ≡ true
      → t.audit_log ++ cancelled_entry (length t.audit_log + 1) ∷ [] ≡ log_of cancelled
  cancelled_log t h can = ground (arith, h)

  cancel_task-Inv : (id : TaskId) → Inv (cancel_task id s).1
  unfolding cancel_task
  cancel_task-Inv id = elim (Option-cases (get s.tasks id)) [
    | inl e ↦ rw (e, cancel_task) v
    | inr (t, e) ↦ elim (Bool-cases (can_transition t.state TaskTransition.cancel)) [
      | inr c ↦ rw (e, c, cancel_task) v
      | inl c ↦
          rw (e, c, cancel_task)
            (put_task-Inv s v id s.next_task_id _ (v.task_ids id t e)
              (cancelled_log t (v.task_logs id t e) c) (task_below s v id t e) (omega arith))
    ]
  ]

  checked_members :
      (new : NewSwarm) {u : Unit {0}} → check_swarm new s ≡ ok u → check_members new s ≡ ok tt
  unfolding check_swarm
  checked_members new h = ground arith

  init_swarm-Inv : (new : NewSwarm) → s.next_swarm_id + 1 < 2 ^ 64 → Inv (init_swarm new s).1
  unfolding init_swarm
  init_swarm-Inv new room = elim (Result-cases (check_swarm new s)) [
    | inl (_, e) ↦ rw (e, init_swarm) v
    | inr (_, e) ↦
        rw (e, init_swarm)
          (put_swarm-Inv s v s.next_swarm_id _ _ refl
            (check_members-MembersKnown new s _ refl refl (checked_members new e)) (omega arith)
            (omega arith))
  ]

-- Every call, whether it succeeds or fails, keeps the invariant while the counters have room.
pub step-Inv : (s : RuntimeState) (c : Call) → HasRoom 1 s → Inv s → Inv (step s c)
unfolding step
step-Inv s (spawn new) room v = spawn_agent-Inv s v new room.0
step-Inv s (start id) room v = start_agent-Inv s v id
step-Inv s (stop id) room v = stop_agent-Inv s v id
step-Inv s (create new) room v = create_task-Inv s v new room.1
step-Inv s (init new) room v = init_swarm-Inv s v new room.2
step-Inv s (cancel id) room v = cancel_task-Inv s v id

-- A call takes at most one identifier of each kind.
pub step-HasRoom : (n : ℕ) (s : RuntimeState) (c : Call) → HasRoom (suc n) s → HasRoom n (step s c)
unfolding step spawn_agent start_agent stop_agent create_task init_swarm cancel_task
step-HasRoom n s (spawn new) room = ground arith
step-HasRoom n s (start id) room = ground arith
step-HasRoom n s (stop id) room = ground arith
step-HasRoom n s (create new) room = ground arith
step-HasRoom n s (init new) room = ground arith
step-HasRoom n s (cancel id) room = ground arith

pub run_from-Inv :
    (s : RuntimeState) (cs : List Call) → HasRoom (length cs) s → Inv s → Inv (run s cs)
unfolding run
run_from-Inv s [] room v = v
run_from-Inv s (c ∷ cs) room v =
    run_from-Inv (step s c) cs (step-HasRoom (length cs) s c room) (step-Inv s c (omega arith) v)

-- A fresh runtime satisfies the invariant after any history of fewer than 2 ^ 64 - 1 calls: no
-- identifier at or above a counter is in use, each handle is stored under its own identifier, the
-- audit log of a task is the one of its state, every member of a swarm is known, and there is no
-- workflow.
pub run-Inv : (cs : List Call) → length cs + 1 < 2 ^ 64 → Inv (run ephemeral cs)
run-Inv cs room = run_from-Inv ephemeral cs (unfold ephemeral in omega arith) ephemeral-Inv
