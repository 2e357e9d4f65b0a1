-- ===== src/Runtime/Agents.antt =====
-- The life of an agent: fresh identifiers, and termination for good.
use ruflo_rust.Prelude.{
  Option-cases, ◌≡◌, Bool, false, none, some, List, [], ◌∷◌, length, ok, inl, inr, arith, nat_eq,
  nat_beq_iff, ◌==◌, if◌then◌else◌,
}
use ruflo_rust.Dict.{get, get-put}
use ruflo_rust.Runtime.{
  RuntimeState, AgentHandle, AgentId, NewAgent, HandleRef, agent, task, swarm, workflow,
  agent_handle, terminated, running, idle, get_handle, spawn_agent, start_agent, stop_agent,
  create_task, init_swarm, cancel_task,
}
use ruflo_rust.Runtime.Steps.{Call, spawn, start, stop, create, init, cancel, step, run}
use ruflo_rust.Runtime.Updates.{Inv, HasRoom}
use ruflo_rust.Runtime.Invariant.{step-Inv, step-HasRoom}

-- The references to agents are told apart by their numbers.
abbrev pub is_agent : AgentId → HandleRef → Bool
is_agent id (agent j) = id == j
is_agent id _ = false

spawned_view :
    (s : RuntimeState) (new : NewAgent) (r : HandleRef) (h : AgentHandle)
    → (spawn_agent new s).0 ≡ ok h
    → get_handle r (spawn_agent new s).1
      ≡ (if is_agent h.id r then ok (agent_handle h) else get_handle r s)
unfolding spawn_agent get_handle
spawned_view s new (agent j) h e = ground (arith, get-put s.agents s.next_agent_id j h)
spawned_view s new (task j) h e = ground arith
spawned_view s new (swarm j) h e = ground arith
spawned_view s new (workflow j) h e = ground arith

-- A successful `spawn_agent` gives an idle handle whose identifier was unknown before; afterwards
-- `get_handle` finds it under that identifier and answers every other reference as before.
get_handle-spawn_agent :
    (s : RuntimeState) (new : NewAgent) (h : AgentHandle)
    → Inv s
    → (spawn_agent new s).0 ≡ ok h
    → (h.name ≡ new.name)
      × (h.state ≡ idle)
      × (get s.agents h.id ≡ none)
      × ((r : HandleRef)
          → get_handle r (spawn_agent new s).1
            ≡ (if is_agent h.id r then ok (agent_handle h) else get_handle r s))
unfolding spawn_agent get_handle
get_handle-spawn_agent s new h v e = (
  ground arith,
  ground arith,
  ground (arith, v.fresh_agents s.next_agent_id),
  λ r. spawned_view s new r h e,
)

-- A terminated agent refuses to start, and no call at all brings it back.
step-terminated :
    (s : RuntimeState) (c : Call) (id : AgentId) (a : AgentHandle)
    → Inv s
    → get s.agents id ≡ some a
    → a.state ≡ terminated
    → get (step s c).agents id ≡ some a
unfolding step spawn_agent start_agent stop_agent create_task init_swarm cancel_task
step-terminated s (spawn new) id a v h t = ground (
  arith,
  get-put s.agents s.next_agent_id id
      (record { id = s.next_agent_id; name = new.name; state = idle }),
  nat_beq_iff s.next_agent_id id,
  v.fresh_agents id,
)
step-terminated s (start j) id a v h t = elim (Option-cases (get s.agents j)) [
  | inl e ↦ ground arith
  | inr (b, e) ↦
      ground (arith, get-put s.agents j id (record b { state = running }), nat_beq_iff j id)
]
step-terminated s (stop j) id a v h t = elim (Option-cases (get s.agents j)) [
  | inl e ↦ ground arith
  | inr (b, e) ↦
      ground (arith, get-put s.agents j id (record b { state = terminated }), nat_beq_iff j id)
]
step-terminated s (create new) id a v h t = ground arith
step-terminated s (init new) id a v h t = ground arith
step-terminated s (cancel j) id a v h t = ground arith

-- Termination is final: whatever fewer than 2 ^ 64 calls follow, `get_handle` keeps giving the same
-- terminated handle.
pub run-terminated :
    (s : RuntimeState) (cs : List Call) (id : AgentId) (a : AgentHandle)
    → Inv s
    → HasRoom (length cs) s
    → get s.agents id ≡ some a
    → a.state ≡ terminated
    → get_handle (agent id) (run s cs) ≡ ok (agent_handle a)
unfolding run
run-terminated s [] id a v room h t = unfold get_handle in ground arith
run-terminated s (c ∷ cs) id a v room h t =
    run-terminated (step s c) cs id a (step-Inv s c (omega arith) v)
      (step-HasRoom (length cs) s c room) (step-terminated s c id a v h t) t
