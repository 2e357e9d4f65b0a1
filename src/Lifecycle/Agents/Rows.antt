-- ===== src/Lifecycle/Agents/Rows.antt =====
-- What the agents of a project are between two calls, and what a spawn and a stop do to them.
use ruflo_rust.Prelude.{
  ◌+◌, ℕ, String, ◌≡◌, refl, ap, subst, inl, inr, Bool, true, not, none, some, [], ok, arith, count,
  string_eq, eq_iff, ◌==◌, Bool-cases,
}
use ruflo_rust.Dict.{get, put, get-put}
use ruflo_rust.Dict.Listing.{values, IsDistinct, put-IsDistinct, count-put, one, at_key}
use ruflo_rust.Storage.Jobs.{AgentRow, Store, upsert_agent}
use ruflo_rust.Storage.Jobs
use ruflo_rust.Lifecycle.{Project, checked, safe_identifier}
use ruflo_rust.Lifecycle.Agents.{
  row_of, record_of, persist_agent, upsert_all, migrate_json_agents, found_row, get_agent,
  append_agent_log, new_agent, terminated, spawn_agent, stop_agent,
}

-- Each row stands under its own identifier, which is safe, and no file of `.swarm/agents` is left.
pub record IsReady (p : Project) : Type 0 where
  pub initialized : p.initialized ≡ true
  pub no_json : p.json_agents ≡ []
  pub distinct : IsDistinct p.store.agents
  pub named : (id : String) (row : AgentRow) → get p.store.agents id ≡ some row → row.id ≡ id
  pub safe :
      (id : String) (row : AgentRow) → get p.store.agents id ≡ some row → safe_identifier id ≡ ok id

abbrev pub row_is_live : AgentRow → Bool
row_is_live row = not (row.status == "terminated")

abbrev pub live : Project → ℕ
live p = count row_is_live (values p.store.agents)

pub migrate_none : (p : Project) → p.json_agents ≡ [] → migrate_json_agents p ≡ p
unfolding migrate_json_agents
migrate_none p h = ap (λ rs. record p { store = upsert_all rs p.store }) h

pub checked_ok : (p : Project) → p.initialized ≡ true → checked p ≡ ok tt
unfolding checked
checked_ok p i = rw i refl

-- A project with one row written and one line logged.
abbrev pub with_row : String → AgentRow → String → Project → Project
with_row id row message p =
    append_agent_log id message
      (record p { store = record p.store { agents = put p.store.agents id row } })

pub with_row-IsReady :
    (p : Project) (id : String) (row : AgentRow) (message : String)
    → IsReady p
    → safe_identifier id ≡ ok id
    → row.id ≡ id
    → IsReady (with_row id row message p)
with_row-IsReady p id row message r s n = record {
  initialized = r.initialized;
  no_json = r.no_json;
  distinct = put-IsDistinct p.store.agents id row r.distinct;
  named = λ k x h. elim (Bool-cases (id == k)) [
    | inl hit ↦ ground (arith, get-put p.store.agents id k row, eq_iff id k)
    | inr miss ↦ r.named k x (ground (arith, get-put p.store.agents id k row))
  ];
  safe = λ k x h. elim (Bool-cases (id == k)) [
    | inl hit ↦ subst (λ i. safe_identifier i ≡ ok i) ((eq_iff id k).0 hit) s
    | inr miss ↦ r.safe k x (ground (arith, get-put p.store.agents id k row))
  ];
}

module _ (p : Project) (r : IsReady p) (id : String) (s : safe_identifier id ≡ ok id) where
  pub get_agent_lem : get_agent id p ≡ (found_row id (get p.store.agents id), p)
  unfolding get_agent Jobs.get_agent
  get_agent_lem = rw (get_agent, checked_ok p r.initialized, s, migrate_none p r.no_json) refl

  pub spawn_agent_lem :
      (kind : String)
      → safe_identifier kind ≡ ok kind
      → get p.store.agents id ≡ none
      → spawn_agent kind id p
        ≡ (ok (new_agent id kind), with_row id (row_of kind (new_agent id kind)) "agent spawned" p)
  unfolding spawn_agent persist_agent upsert_agent
  spawn_agent_lem kind k free =
      rw (spawn_agent, checked_ok p r.initialized, s, get_agent_lem, free, k)
        (rw (get_agent_lem) refl)

  pub stop_agent_lem :
      (row : AgentRow)
      → get p.store.agents id ≡ some row
      → let gone = terminated (record_of row) in
        stop_agent id p ≡ (ok gone, with_row row.id (row_of row.agent_type gone) "agent stopped" p)
  unfolding stop_agent persist_agent upsert_agent
  stop_agent_lem row there = rw (stop_agent, get_agent_lem, there) (rw (get_agent_lem) refl)

pub live-with_row :
    (p : Project) (id : String) (row : AgentRow) (message : String)
    → live (with_row id row message p) + at_key row_is_live (get p.store.agents id)
      ≡ live p + one (row_is_live row)
live-with_row p id row message = count-put p.store.agents row_is_live id row
