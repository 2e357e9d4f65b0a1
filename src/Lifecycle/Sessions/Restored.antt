-- ===== src/Lifecycle/Sessions/Restored.antt =====
-- The agents and the tasks of a project whose files are those of a restored session.
use ruflo_rust.Prelude.{
  ◌≤◌, String, ◌≡◌, refl, sym, ap, ◌∙◌, subst, inl, inr, Option, none, some, [], All, ok, err,
  arith, count, string_eq, ◌==◌, Result-cases, Option-cases,
}
use ruflo_rust.Dict.{get, empty, get-empty}
use ruflo_rust.Storage.Jobs.{AgentRow, clear_agents, upsert_agent}
use ruflo_rust.Storage.Jobs
use ruflo_rust.Lifecycle.{
  IoError, AgentRecord, TaskRecord, SwarmRecord, SessionRecord, File, Project, checked,
  safe_identifier,
}
use ruflo_rust.Lifecycle.Naming.{last_named, last_named-cases}
use ruflo_rust.Lifecycle.Agents.{row_of, found_row, get_agent, migrate_json_agents, upsert_all}
use ruflo_rust.Lifecycle.Agents.Rows.{IsReady, checked_ok, get_agent_lem}
use ruflo_rust.Lifecycle.Agents.Leftover.{get-upsert_all}
use ruflo_rust.Lifecycle.Sessions.{with_swarm, persist_all}
use ruflo_rust.Lifecycle.Sessions.Writing.{
  agent_id, task_name, json_after, tasks_after, last_named-json_after, get-persist_all,
  get-tasks_after, restored,
}
use ruflo_rust.Lifecycle.Sessions.Listed.{IsListed, IsKept}

with_swarm-fields :
    (o : Option SwarmRecord) (x : Project)
    → ((with_swarm o x).initialized ≡ x.initialized)
      × ((with_swarm o x).json_agents ≡ x.json_agents)
      × ((with_swarm o x).store ≡ x.store)
      × ((with_swarm o x).tasks ≡ x.tasks)
      × ((with_swarm o x).swarm ≡ elim o [ none ↦ x.swarm | some w ↦ some (ok w) ])
with_swarm-fields none x = (refl, refl, refl, refl, refl)
with_swarm-fields (some w) x = (refl, refl, refl, refl, refl)

-- A project whose files are those of a restored session.
abbrev pub Holds : SessionRecord → Project → Project → Type 0
Holds s z q =
    let cleared = record z { json_agents = json_after s.agents []; store = clear_agents z.store } in
    (q.initialized ≡ z.initialized)
    × (q.json_agents ≡ json_after s.agents [])
    × (q.store ≡ (persist_all s.agents cleared).store)
    × (q.tasks ≡ tasks_after s.tasks empty)
    × (q.swarm ≡ elim s.swarm [ none ↦ z.swarm | some w ↦ some (ok w) ])

pub restored-Holds : (s : SessionRecord) (z : Project) → Holds s z (restored s z)
restored-Holds s z =
    let cleared = record z { json_agents = json_after s.agents []; store = clear_agents z.store } in
    with_swarm-fields s.swarm (record cleared {
      store = (persist_all s.agents cleared).store;
      tasks = tasks_after s.tasks empty;
    })

pub safe_same : (k v : String) → safe_identifier k ≡ ok v → safe_identifier k ≡ ok k
unfolding safe_identifier
safe_same k v h = ground arith

get_agent_any :
    (k : String) (q : Project)
    → checked q ≡ ok tt
    → safe_identifier k ≡ ok k
    → (get_agent k q).0 ≡ found_row k (get (upsert_all q.json_agents q.store).agents k)
unfolding get_agent Jobs.get_agent migrate_json_agents
get_agent_any k q c h = rw (get_agent, c, h) refl

get_agent_unsafe :
    (k : String) (q : Project) (e : IoError)
    → checked q ≡ ok tt
    → safe_identifier k ≡ err e
    → (get_agent k q).0 ≡ err e
unfolding get_agent
get_agent_unsafe k q e c h = rw (get_agent, c, h) refl

cleared_none : (k : String) (z : Project) → get (clear_agents z.store).agents k ≡ none
unfolding clear_agents
cleared_none k z = get-empty k

abbrev row_if : Option AgentRecord → Option AgentRow
row_if none = none
row_if (some a) = some (row_of "" a)

written_rows :
    (s : SessionRecord) (z : Project) (k : String)
    → let cleared = record z {
      json_agents = json_after s.agents [];
      store = clear_agents z.store;
    } in
      get (upsert_all (json_after s.agents []) (persist_all s.agents cleared).store).agents k
      ≡ row_if (last_named agent_id k s.agents)
written_rows s z k =
    let cleared = record z { json_agents = json_after s.agents []; store = clear_agents z.store } in
    ground (
      arith,
      get-upsert_all k (json_after s.agents []) (persist_all s.agents cleared).store,
      last_named-json_after k s.agents [],
      get-persist_all k s.agents cleared,
      cleared_none k z,
    )

-- The store and the files together have the last record of each name.
store_after :
    (s : SessionRecord) (z q : Project) (k : String)
    → Holds s z q
    → get (upsert_all q.json_agents q.store).agents k ≡ row_if (last_named agent_id k s.agents)
store_after s z q k (i, j, st, t, w) =
    let T = row_if (last_named agent_id k s.agents) in
    subst (λ fs. get (upsert_all fs q.store).agents k ≡ T) (sym j)
      (subst (λ x. get (upsert_all (json_after s.agents []) x).agents k ≡ T) (sym st)
        (written_rows s z k))

module _ (s : SessionRecord) (p z q : Project) (h : Holds s z q) (r : IsReady p)
    (c : checked q ≡ ok tt) where
  pub agent_restored :
      (k : String)
      → All (IsListed p) s.agents
      → ((id : String) (row : AgentRow)
          → get p.store.agents id ≡ some row
          → 1 ≤ count (λ a. a.id == id) s.agents)
      → (get_agent k q).0 ≡ (get_agent k p).0
  agent_restored k listed whole = elim (Result-cases (safe_identifier k)) [
    | inl (e, f) ↦
        get_agent_unsafe k q e c f ∙ sym (get_agent_unsafe k p e (checked_ok p r.initialized) f)
    | inr (v, f) ↦
        let safe = safe_same k v f in
        let after = get_agent_any k q c safe ∙ ap (found_row k) (store_after s z q k h) in
        let before : (get_agent k p).0 ≡ found_row k (get p.store.agents k) =
          ap (λ x. x.0) (get_agent_lem p r k safe) in
        elim (last_named-cases agent_id (IsListed p) k s.agents listed) [
          | inr (a, l, same, ((row, g, read), u)) ↦
              let there : get p.store.agents k ≡ some row =
                subst (λ i. get p.store.agents i ≡ some row) same g in
              after ∙ rw l (sym (before ∙ rw there (ap ok read)))
          | inl (l, n) ↦ elim (Option-cases (get p.store.agents k)) [
            | inl gone ↦ after ∙ rw l (sym (before ∙ rw gone refl))
            | inr (row, there) ↦ absurd (let one_ = whole k row there in omega (arith, one_, n))
          ]
        ]
  ]

  pub task_restored :
      (k : String)
      → All (IsKept p) s.tasks
      → ((id : String) (f : File TaskRecord)
          → get p.tasks id ≡ some f
          → 1 ≤ count (λ t. t.id == id) s.tasks)
      → get q.tasks k ≡ get p.tasks k
  task_restored k kept whole =
      let (i, j, st, t, w) = h in
      let after : get q.tasks k ≡ get (tasks_after s.tasks empty) k = ap (λ d. get d k) t in
      let read = get-tasks_after k s.tasks empty in
      elim (last_named-cases task_name (IsKept p) k s.tasks kept) [
        | inr (x, l, same, (g, u)) ↦
            let there : get p.tasks k ≡ some (ok x) =
              subst (λ i. get p.tasks i ≡ some (ok x)) same g in
            after ∙ read ∙ rw l (sym there)
        | inl (l, n) ↦ elim (Option-cases (get p.tasks k)) [
          | inl gone ↦ after ∙ read ∙ rw l (get-empty k ∙ sym gone)
          | inr (f, there) ↦ absurd (let one_ = whole k f there in omega (arith, one_, n))
        ]
      ]
