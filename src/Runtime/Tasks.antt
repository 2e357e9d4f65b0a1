-- ===== src/Runtime/Tasks.antt =====
-- The life of a task, and what a swarm may name.
use ruflo_rust.Prelude.{
  String, Result-cases, Option-cases, ◌++◌, ℕ, ◌+◌, ◌^◌, ◌<◌, ◌≡◌, ◌↔◌, Bool, true, false, none,
  some, List, [], ◌∷◌, length, find, all, contains, is_blank, ok, err, inl, inr, not, arith, nat_eq,
  nat_beq_iff,
}
use ruflo_rust.Dict.{get, put, has_key, get-put}
use ruflo_rust.Runtime.{
  initialized, created_entry, RuntimeState, AgentHandle, TaskHandle, SwarmHandle, AgentId, TaskId,
  NewSwarm, agent, task, swarm, agent_handle, task_handle, swarm_handle, pending, cancelled,
  cancelled_entry, cancel_refusal, ephemeral, get_handle, validate_name, check_members, check_swarm,
  spawn_agent, start_agent, stop_agent, create_task, init_swarm, cancel_task,
}
use ruflo_rust.Runtime.Steps.{
  reply, failed_step_unchanged, Call, spawn, start, stop, create, init, cancel, step, run,
}
use ruflo_rust.Runtime.Updates.{Inv, HasRoom, log_of}
use ruflo_rust.Runtime.Invariant.{step-Inv, step-HasRoom, run-Inv}

abbrev new_task : ℕ → String → TaskHandle
new_task id name = record { id = id; name = name; state = pending; audit_log = created_entry ∷ [] }

-- Where a cancellation succeeds, the task was there and pending.
cancelled_from :
    (s : RuntimeState) (id : TaskId) (t : TaskHandle)
    → (cancel_task id s).0 ≡ ok t
    → (b : TaskHandle) × (get s.tasks id ≡ some b)
      × (b.state ≡ pending)
      × ((cancel_task id s).1 ≡ record s { tasks = put s.tasks id t })
      × (t ≡ record b {
        state = cancelled;
        audit_log = b.audit_log ++ cancelled_entry (length b.audit_log + 1) ∷ [];
      })
unfolding cancel_task
cancelled_from s id t h = elim (Option-cases (get s.tasks id)) [
  | inl e ↦ absurd (ground arith)
  | inr (b, e) ↦ (b, e, ground arith, ground arith, ground arith)
]

cancel_refused :
    (s : RuntimeState) (id : TaskId) (t : TaskHandle)
    → get s.tasks id ≡ some t
    → t.state ≡ cancelled
    → cancel_task id s ≡ (err (cancel_refusal id cancelled), s)
unfolding cancel_task
cancel_refused s id t h c = ground arith

get_handle-task :
    (s : RuntimeState) (id : TaskId) (t : TaskHandle)
    → get s.tasks id ≡ some t
    → get_handle (task id) s ≡ ok (task_handle t)
unfolding get_handle
get_handle-task s id t h = ground arith

stored :
    (s s' : RuntimeState) (id : TaskId) (t : TaskHandle)
    → s' ≡ record s { tasks = put s.tasks id t }
    → get s'.tasks id ≡ some t
stored s s' id t e = ground (arith, get-put s.tasks id id t, nat_beq_iff id id)

-- A task is cancelled at most once: a cancellation that succeeds leaves the task cancelled, with
-- exactly the two audit entries numbered 1 and 2, where `get_handle` finds it; and a second
-- cancellation is refused as already cancelled and changes nothing.
cancel_task-cancel_task :
    (s : RuntimeState) (id : TaskId) (t : TaskHandle)
    → Inv s
    → (cancel_task id s).0 ≡ ok t
    → let s' = (cancel_task id s).1 in
      (t.state ≡ cancelled)
      × (t.audit_log ≡ log_of cancelled)
      × (get_handle (task id) s' ≡ ok (task_handle t))
      × (cancel_task id s' ≡ (err (cancel_refusal id cancelled), s'))
cancel_task-cancel_task s id t v h =
    let (b, found, was, after, t_eq) = cancelled_from s id t h in
    let kept = stored s (cancel_task id s).1 id t after in
    let done : t.state ≡ cancelled = ground (arith, t_eq) in
    (
      done,
      ground (arith, t_eq, v.task_logs id b found, was),
      get_handle-task (cancel_task id s).1 id t kept,
      cancel_refused (cancel_task id s).1 id t kept done,
    )

step-cancelled :
    (s : RuntimeState) (c : Call) (id : TaskId) (t : TaskHandle)
    → Inv s
    → get s.tasks id ≡ some t
    → t.state ≡ cancelled
    → get (step s c).tasks id ≡ some t
unfolding step spawn_agent start_agent stop_agent create_task init_swarm
step-cancelled s (spawn new) id t v h c = ground arith
step-cancelled s (start j) id t v h c = ground arith
step-cancelled s (stop j) id t v h c = ground arith
step-cancelled s (create new) id t v h c = ground (
  arith,
  get-put s.tasks s.next_task_id id (new_task s.next_task_id new.name),
  nat_beq_iff s.next_task_id id,
  v.fresh_tasks id,
)
step-cancelled s (init new) id t v h c = ground arith
step-cancelled s (cancel j) id t v h c = elim (Result-cases (cancel_task j s).0) [
  | inl (x, e) ↦ rw (failed_step_unchanged s (cancel j) {e = x} (unfold reply in ground arith)) h
  | inr (u, e) ↦
      let (b, found, was, after, u_eq) = cancelled_from s j u e in
      rw after (ground (arith, get-put s.tasks j id u, nat_beq_iff j id))
]

-- Cancellation is final: in a state that satisfies the invariant, whatever calls follow, as long as
-- they are too few for a counter of the state to reach 2 ^ 64, `get_handle` keeps giving the same
-- cancelled handle, its audit log included.
pub run-cancelled :
    (s : RuntimeState) (cs : List Call) (id : TaskId) (t : TaskHandle)
    → Inv s
    → HasRoom (length cs) s
    → get s.tasks id ≡ some t
    → t.state ≡ cancelled
    → get_handle (task id) (run s cs) ≡ ok (task_handle t)
unfolding run
run-cancelled s [] id t v room h c = get_handle-task s id t h
run-cancelled s (x ∷ cs) id t v room h c =
    run-cancelled (step s x) cs id t (step-Inv s x (omega arith) v)
      (step-HasRoom (length cs) s x room) (step-cancelled s x id t v h c) c

find-all : (p : ℕ → Bool) (xs : List ℕ) → (find (λ x. not (p x)) xs ≡ none) ↔ (all p xs ≡ true)
find-all p [] = ground arith
find-all p (x ∷ xs) = ground (arith, find-all p xs)

-- `init_swarm` succeeds exactly when the name is not blank and every named agent and task is known.
init_swarm_iff :
    (s : RuntimeState) (new : NewSwarm)
    → ((w : SwarmHandle) × ((init_swarm new s).0 ≡ ok w)) ↔ (
        (is_blank new.name ≡ false)
        × (all (has_key s.agents) new.agents ≡ true)
        × (all (has_key s.tasks) new.tasks ≡ true))
unfolding init_swarm check_swarm check_members validate_name
init_swarm_iff s new = (
  λ w.
      ground
        (arith, w.1, find-all (has_key s.agents) new.agents, find-all (has_key s.tasks) new.tasks),
  λ h. (
    record {
      id = s.next_swarm_id;
      name = new.name;
      state = initialized;
      agents = new.agents;
      tasks = new.tasks;
    },
    ground
        (arith, h.0, find-all (has_key s.agents) new.agents, find-all (has_key s.tasks) new.tasks),
  ),
)

get_handle-swarm :
    (s : RuntimeState) (id : ℕ) (w : SwarmHandle)
    → get_handle (swarm id) s ≡ ok (swarm_handle w)
    → get s.swarms id ≡ some w
unfolding get_handle
get_handle-swarm s id w h = ground arith

resolve_agent :
    (s : RuntimeState)
    → Inv s
    → (a : AgentId) → has_key s.agents a ≡ true
    → (h : AgentHandle) × (get_handle (agent a) s ≡ ok (agent_handle h)) × (h.id ≡ a)
unfolding get_handle
resolve_agent s v a h = elim (Option-cases (get s.agents a)) [
  | inl e ↦ absurd (ground arith)
  | inr (b, e) ↦ (b, ground arith, v.agent_ids a b e)
]

resolve_task :
    (s : RuntimeState)
    → Inv s
    → (t : TaskId) → has_key s.tasks t ≡ true
    → (h : TaskHandle) × (get_handle (task t) s ≡ ok (task_handle h)) × (h.id ≡ t)
unfolding get_handle
resolve_task s v t h = elim (Option-cases (get s.tasks t)) [
  | inl e ↦ absurd (ground arith)
  | inr (b, e) ↦ (b, ground arith, v.task_ids t b e)
]

-- In a runtime that has served any history of fewer than 2 ^ 64 - 1 calls, `get_handle` resolves
-- every agent and every task that any swarm names, to a handle with that identifier.
pub swarm_members_resolve :
    (cs : List Call) (id : ℕ) (w : SwarmHandle)
    → length cs + 1 < 2 ^ 64
    → get_handle (swarm id) (run ephemeral cs) ≡ ok (swarm_handle w)
    → ((a : AgentId)
        → contains a w.agents ≡ true
        → (h : AgentHandle) × (get_handle (agent a) (run ephemeral cs) ≡ ok (agent_handle h))
          × (h.id ≡ a))
      × ((t : TaskId)
          → contains t w.tasks ≡ true
          → (h : TaskHandle) × (get_handle (task t) (run ephemeral cs) ≡ ok (task_handle h))
            × (h.id ≡ t))
swarm_members_resolve cs id w room h =
    let v = run-Inv cs room in
    let m = v.members id w (get_handle-swarm (run ephemeral cs) id w h) in
    (
      λ a known. resolve_agent (run ephemeral cs) v a (m.agents_known a known),
      λ t known. resolve_task (run ephemeral cs) v t (m.tasks_known t known),
    )
