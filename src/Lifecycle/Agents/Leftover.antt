-- ===== src/Lifecycle/Agents/Leftover.antt =====
-- Records that are left in `.swarm/agents`: each reading copies them to the store again.
use ruflo_rust.Prelude.{
  String, ◌≡◌, refl, ◌∙◌, true, none, some, List, [], ◌∷◌, ok, arith, string_eq,
}
use ruflo_rust.Dict.{get, get-put}
use ruflo_rust.Storage.Jobs.{Store, upsert_agent}
use ruflo_rust.Storage.Jobs
use ruflo_rust.Lifecycle.{AgentRecord, Project, safe_identifier}
use ruflo_rust.Lifecycle.Agents.{
  row_of, persist_agent, upsert_all, migrate_json_agents, get_agent, append_agent_log, terminated,
  stop_agent,
}
use ruflo_rust.Lifecycle.Naming.{last_named}
use ruflo_rust.Lifecycle.Agents.Rows.{checked_ok}

pub get-upsert_all :
    (id : String) (rs : List AgentRecord) (s : Store)
    → get (upsert_all rs s).agents id ≡ elim (last_named (λ (a : AgentRecord). a.id) id rs) [
      | some a ↦ some (row_of "" a)
      | none ↦ get s.agents id
    ]
unfolding upsert_agent
get-upsert_all id [] s = refl
get-upsert_all id (a ∷ rs) s = ground (
  arith,
  get-upsert_all id rs (upsert_agent (row_of "" a) s),
  get-put s.agents a.id id (row_of "" a),
)

module _ (id : String) (a : AgentRecord) (s : safe_identifier id ≡ ok id) where
  get_agent_leftover :
      (p : Project)
      → p.initialized ≡ true
      → last_named (λ (a : AgentRecord). a.id) id p.json_agents ≡ some a
      → get_agent id p ≡ (ok a, migrate_json_agents p)
  unfolding get_agent Jobs.get_agent migrate_json_agents
  get_agent_leftover p i h =
      let read : get (upsert_all p.json_agents p.store).agents id ≡ some (row_of "" a) =
        get-upsert_all id p.json_agents p.store ∙ rw h refl in
      rw (get_agent, checked_ok p i, s, read) refl

kept_initialized :
    (a : AgentRecord) (p : Project)
    → p.initialized ≡ true
    → (append_agent_log a.id "agent stopped"
        (persist_agent (terminated a) (migrate_json_agents p))).initialized
      ≡ true
unfolding persist_agent migrate_json_agents
kept_initialized a p i = i

kept_json :
    (id : String) {b : AgentRecord} (a : AgentRecord) (p : Project)
    → last_named (λ (a : AgentRecord). a.id) id p.json_agents ≡ some b
    → last_named
        (λ (a : AgentRecord). a.id)
        id
        (append_agent_log a.id "agent stopped"
          (persist_agent (terminated a) (migrate_json_agents p))).json_agents
      ≡ some b
unfolding persist_agent migrate_json_agents
kept_json id a p h = h

-- A stop does not last. Where a record of an agent is left in `.swarm/agents`, as `restore_session`
-- leaves one for each agent, `stop_agent` answers that the agent is terminated, and the next
-- `get_agent` gives the record of the file again.
pub stop_agent-get_agent :
    (id : String) (a : AgentRecord) (p : Project)
    → safe_identifier id ≡ ok id
    → p.initialized ≡ true
    → last_named (λ (a : AgentRecord). a.id) id p.json_agents ≡ some a
    → ((stop_agent id p).0 ≡ ok (terminated a)) × ((get_agent id (stop_agent id p).1).0 ≡ ok a)
unfolding stop_agent
stop_agent-get_agent id a p s i h =
    let first = get_agent_leftover id a s p i h in
    let q =
      append_agent_log a.id "agent stopped"
        (persist_agent (terminated a) (migrate_json_agents p)) in
    let stopped : stop_agent id p ≡ (ok (terminated a), q) =
      rw (stop_agent, first) (rw (first) refl) in
    (
      rw stopped refl,
      rw stopped
          (rw (get_agent_leftover id a s q (kept_initialized a p i) (kept_json id a p h)) refl),
    )
