-- ===== src/Lifecycle/Sessions/Writing.antt =====
-- What stands after the records of a session are written.
use ruflo_rust.Prelude.{
  String, ◌≡◌, refl, ap, none, some, List, [], ◌∷◌, All, Result, ok, arith, string_eq,
}
use ruflo_rust.Dict.{Dict, get, put, empty, get-put}
use ruflo_rust.Storage.Jobs.{clear_agents, upsert_agent}
use ruflo_rust.Lifecycle.{
  IoError, AgentRecord, TaskRecord, SessionRecord, File, Project, checked, safe_identifier,
}
use ruflo_rust.Lifecycle.Naming.{last_named, last_named-write}
use ruflo_rust.Lifecycle.Agents.{row_of, persist_agent}
use ruflo_rust.Lifecycle.Sessions.{
  put_json, write_agents, write_tasks, persist_all, with_swarm, read_session, restore_session,
  write_current,
}

abbrev pub agent_id : AgentRecord → String
agent_id a = a.id

abbrev pub task_name : TaskRecord → String
task_name t = t.id

abbrev pub json_after : List AgentRecord → List AgentRecord → List AgentRecord
json_after [] files = files
json_after (a ∷ rest) files = json_after rest (put_json a files)

abbrev pub tasks_after :
    List TaskRecord → Dict String (File TaskRecord) → Dict String (File TaskRecord)
tasks_after [] d = d
tasks_after (t ∷ rest) d = tasks_after rest (put d t.id (ok t))

write_agents_lem :
    (xs : List AgentRecord) (p : Project)
    → All (λ a. safe_identifier a.id ≡ ok a.id) xs
    → write_agents xs p ≡ (ok tt, record p { json_agents = json_after xs p.json_agents })
unfolding write_agents
write_agents_lem [] p h = refl
write_agents_lem (a ∷ xs) p h =
    rw (write_agents, h.0)
      (write_agents_lem xs (record p { json_agents = put_json a p.json_agents }) h.1)

write_tasks_lem :
    (ts : List TaskRecord) (p : Project)
    → All (λ t. safe_identifier t.id ≡ ok t.id) ts
    → write_tasks ts p ≡ (ok tt, record p { tasks = tasks_after ts p.tasks })
unfolding write_tasks
write_tasks_lem [] p h = refl
write_tasks_lem (t ∷ ts) p h =
    rw (write_tasks, h.0) (write_tasks_lem ts (record p { tasks = put p.tasks t.id (ok t) }) h.1)

persist_all_frame :
    (xs : List AgentRecord) (p : Project)
    → persist_all xs p ≡ record p { store = (persist_all xs p).store }
unfolding persist_agent
persist_all_frame [] p = refl
persist_all_frame (a ∷ xs) p = persist_all_frame xs (persist_agent a p)

pub last_named-json_after :
    (id : String) (xs files : List AgentRecord)
    → last_named agent_id id (json_after xs files)
      ≡ elim (last_named agent_id id xs) [ some a ↦ some a | none ↦ last_named agent_id id files ]
last_named-json_after id [] files = refl
last_named-json_after id (a ∷ xs) files =
    ground
      (arith, last_named-json_after id xs (put_json a files), last_named-write agent_id id a files)

pub get-persist_all :
    (id : String) (xs : List AgentRecord) (p : Project)
    → get (persist_all xs p).store.agents id ≡ elim (last_named agent_id id xs) [
      | some a ↦ some (row_of a.agent_type a)
      | none ↦ get p.store.agents id
    ]
unfolding persist_agent upsert_agent
get-persist_all id [] p = refl
get-persist_all id (a ∷ xs) p = ground (
  arith,
  get-persist_all id xs (persist_agent a p),
  get-put p.store.agents a.id id (row_of a.agent_type a),
)

pub get-tasks_after :
    (id : String) (ts : List TaskRecord) (d : Dict String (File TaskRecord))
    → get (tasks_after ts d) id
      ≡ elim (last_named task_name id ts) [ some t ↦ some (ok t) | none ↦ get d id ]
get-tasks_after id [] d = refl
get-tasks_after id (t ∷ ts) d =
    ground (arith, get-tasks_after id ts (put d t.id (ok t)), get-put d t.id id (ok t))

-- The project after a session is restored.
abbrev pub restored : SessionRecord → Project → Project
restored s z =
    let cleared = record z { json_agents = json_after s.agents []; store = clear_agents z.store } in
    write_current s (
      with_swarm s.swarm (record cleared {
        store = (persist_all s.agents cleared).store;
        tasks = tasks_after s.tasks empty;
      }))

pub restore_session_lem :
    (id : String) (s : SessionRecord) (z : Project)
    → checked z ≡ ok tt
    → read_session id z ≡ ok s
    → All (λ a. safe_identifier a.id ≡ ok a.id) s.agents
    → All (λ t. safe_identifier t.id ≡ ok t.id) s.tasks
    → restore_session id z ≡ (ok s, restored s z)
unfolding restore_session
restore_session_lem id s z c r a t =
    let wrote = write_agents_lem s.agents (record z { json_agents = [] }) a in
    let cleared = record z { json_agents = json_after s.agents []; store = clear_agents z.store } in
    let kept = persist_all_frame s.agents cleared in
    let ready = record (persist_all s.agents cleared) { tasks = empty } in
    let placed = write_tasks_lem s.tasks ready t in
    let ends : Project → Result SessionRecord IoError × Project = λ x. (
      ok s,
      write_current s (with_swarm s.swarm (record x { tasks = tasks_after s.tasks empty })),
    ) in
    rw (restore_session, c, r, wrote) (rw (wrote, placed) (rw (wrote, placed) (ap ends kept)))
