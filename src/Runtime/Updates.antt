-- ===== src/Runtime/Updates.antt =====
-- crates/ruflo-runtime/src/lib.rs: the invariant of the runtime, which replacing or adding one
-- handle keeps.
use ruflo_rust.Prelude.{
  ℕ, ◌+◌, ◌^◌, ◌≤◌, ◌<◌, ◌≡◌, true, none, some, List, [], ◌∷◌, contains, arith, nat_eq, nat_beq_iff,
  subst, sym, inl, inr,
}
use ruflo_rust.Dict.{get, put, has_key, get-put, get-put_cases, get-empty}
use ruflo_rust.Runtime.{
  RuntimeState, AgentHandle, TaskHandle, SwarmHandle, TaskState, TaskAuditEntry, AgentId, TaskId,
  pending, cancelled, created_entry, cancelled_entry, ephemeral,
}

-- The audit log that a task has in a state: one entry for its creation, one for its cancellation.
abbrev pub log_of : TaskState → List TaskAuditEntry
log_of pending = created_entry ∷ []
log_of cancelled = created_entry ∷ cancelled_entry 2 ∷ []

-- Every member of a swarm is a handle that the runtime knows.
pub record MembersKnown (s : RuntimeState) (w : SwarmHandle) : Type 0 where
  pub agents_known : (a : AgentId) → contains a w.agents ≡ true → has_key s.agents a ≡ true
  pub tasks_known : (t : TaskId) → contains t w.tasks ≡ true → has_key s.tasks t ≡ true

pub record Inv (s : RuntimeState) : Type 0 where
  pub fresh_agents : (id : ℕ) → s.next_agent_id ≤ id → get s.agents id ≡ none
  pub fresh_tasks : (id : ℕ) → s.next_task_id ≤ id → get s.tasks id ≡ none
  pub fresh_swarms : (id : ℕ) → s.next_swarm_id ≤ id → get s.swarms id ≡ none
  pub agent_ids : (id : ℕ) (a : AgentHandle) → get s.agents id ≡ some a → a.id ≡ id
  pub task_ids : (id : ℕ) (t : TaskHandle) → get s.tasks id ≡ some t → t.id ≡ id
  pub task_logs : (id : ℕ) (t : TaskHandle) → get s.tasks id ≡ some t → t.audit_log ≡ log_of t.state
  pub swarm_ids : (id : ℕ) (w : SwarmHandle) → get s.swarms id ≡ some w → w.id ≡ id
  pub members : (id : ℕ) (w : SwarmHandle) → get s.swarms id ≡ some w → MembersKnown s w
  pub no_workflows : (id : ℕ) → get s.workflows id ≡ none

-- The three counters are far enough from the end of `u64` for `n` more calls.
abbrev pub HasRoom : ℕ → RuntimeState → Type 0
HasRoom n s =
    (s.next_agent_id + n < 2 ^ 64) × (s.next_task_id + n < 2 ^ 64) × (s.next_swarm_id + n < 2 ^ 64)

pub ephemeral-Inv : Inv ephemeral
unfolding ephemeral
ephemeral-Inv = record {
  fresh_agents = λ id _. get-empty id;
  fresh_tasks = λ id _. get-empty id;
  fresh_swarms = λ id _. get-empty id;
  agent_ids = λ id a h. ground (arith, get-empty {V = AgentHandle} id);
  task_ids = λ id t h. ground (arith, get-empty {V = TaskHandle} id);
  task_logs = λ id t h. ground (arith, get-empty {V = TaskHandle} id);
  swarm_ids = λ id w h. ground (arith, get-empty {V = SwarmHandle} id);
  members = λ id w h. ground (arith, get-empty {V = SwarmHandle} id);
  no_workflows = λ id. get-empty id;
}

module _ (s : RuntimeState) (v : Inv s) where
  -- Replacing or adding one agent handle, with a counter that has passed its key.
  pub put_agent-Inv :
      (id n : ℕ) (a : AgentHandle)
      → a.id ≡ id
      → id < n
      → s.next_agent_id ≤ n
      → Inv (record s { next_agent_id = n; agents = put s.agents id a })
  put_agent-Inv id n a own below grows = record {
    fresh_agents =
        λ j h. ground (arith, get-put s.agents id j a, nat_beq_iff id j, v.fresh_agents j);
    fresh_tasks = v.fresh_tasks;
    fresh_swarms = v.fresh_swarms;
    agent_ids = λ j b h. ground (arith, get-put s.agents id j a, nat_beq_iff id j, v.agent_ids j b);
    task_ids = v.task_ids;
    task_logs = v.task_logs;
    swarm_ids = v.swarm_ids;
    members = λ j w h. record {
      agents_known =
          λ b m. ground (arith, get-put s.agents id b a, (v.members j w h).agents_known b m);
      tasks_known = (v.members j w h).tasks_known;
    };
    no_workflows = v.no_workflows;
  }

  pub put_task-Inv :
      (id n : ℕ) (t : TaskHandle)
      → t.id ≡ id
      → t.audit_log ≡ log_of t.state
      → id < n
      → s.next_task_id ≤ n
      → Inv (record s { next_task_id = n; tasks = put s.tasks id t })
  put_task-Inv id n t own logged below grows = record {
    fresh_agents = v.fresh_agents;
    fresh_tasks = λ j h. ground (arith, get-put s.tasks id j t, nat_beq_iff id j, v.fresh_tasks j);
    fresh_swarms = v.fresh_swarms;
    agent_ids = v.agent_ids;
    task_ids = λ j b h. ground (arith, get-put s.tasks id j t, nat_beq_iff id j, v.task_ids j b);
    task_logs = λ j b h. ground (arith, get-put s.tasks id j t, nat_beq_iff id j, v.task_logs j b);
    swarm_ids = v.swarm_ids;
    members = λ j w h. record {
      agents_known = (v.members j w h).agents_known;
      tasks_known =
          λ b m. ground (arith, get-put s.tasks id b t, (v.members j w h).tasks_known b m);
    };
    no_workflows = v.no_workflows;
  }

  pub put_swarm-Inv :
      (id n : ℕ) (w : SwarmHandle)
      → w.id ≡ id
      → MembersKnown s w
      → id < n
      → s.next_swarm_id ≤ n
      → Inv (record s { next_swarm_id = n; swarms = put s.swarms id w })
  put_swarm-Inv id n w own known below grows = record {
    fresh_agents = v.fresh_agents;
    fresh_tasks = v.fresh_tasks;
    fresh_swarms =
        λ j h. ground (arith, get-put s.swarms id j w, nat_beq_iff id j, v.fresh_swarms j);
    agent_ids = v.agent_ids;
    task_ids = v.task_ids;
    task_logs = v.task_logs;
    swarm_ids = λ j b h. ground (arith, get-put s.swarms id j w, nat_beq_iff id j, v.swarm_ids j b);
    members = λ j b h.
        let m : MembersKnown s b = elim (get-put_cases s.swarms id j w b h) [
          | inl e ↦ subst (MembersKnown s) (sym e) known
          | inr old ↦ v.members j b old
        ] in
        record { agents_known = m.agents_known; tasks_known = m.tasks_known };
    no_workflows = v.no_workflows;
  }
