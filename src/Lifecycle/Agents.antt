-- ===== src/Lifecycle/Agents.antt =====
-- crates/ruflo-cli/src/lifecycle.rs: the agents, which are rows of the store. Each reading of them
-- first copies the records of `.swarm/agents` to the store.
pub mod Rows
pub mod Leftover
use ruflo_rust.Prelude.{
  str_less, ℕ, String, Bool, true, false, Option, none, some, List, [], ◌∷◌, ◌++◌, map, Result, ok,
  err, format, sort_by, string_eq, ◌==◌, if◌then◌else◌,
}
use ruflo_rust.Storage.Jobs.{AgentRow, Store, upsert_agent}
use ruflo_rust.Storage.Jobs
use ruflo_rust.Lifecycle.{
  ErrorKind, IoError, refusal, AgentRecord, Project, checked, safe_identifier,
}

abbrev pub row_of : String → AgentRecord → AgentRow
row_of role r = record {
  id = r.id;
  agent_type = r.agent_type;
  status = r.status;
  role = role;
  heartbeat_ms = 0;
}

abbrev pub record_of : AgentRow → AgentRecord
record_of row = record { id = row.id; agent_type = row.agent_type; status = row.status }

unfoldable pub persist_agent : AgentRecord → Project → Project
persist_agent r p = record p { store = upsert_agent (row_of r.agent_type r) p.store }

abbrev pub upsert_all : List AgentRecord → Store → Store
upsert_all [] s = s
upsert_all (r ∷ rs) s = upsert_all rs (upsert_agent (row_of "" r) s)

unfoldable pub migrate_json_agents : Project → Project
migrate_json_agents p = record p { store = upsert_all p.json_agents p.store }

abbrev pub agent_missing : String → IoError
agent_missing id = refusal ErrorKind.not_found (format ("agent `" ∷ id ∷ "` not found" ∷ []))

abbrev pub found_row : String → Option AgentRow → Result AgentRecord IoError
found_row id none = err (agent_missing id)
found_row id (some row) = ok (record_of row)

unfoldable pub get_agent : String → Project → Result AgentRecord IoError × Project
get_agent agent_id p = elim (checked p) [
  | err e ↦ (err e, p)
  | ok _ ↦ elim (safe_identifier agent_id) [
    | err e ↦ (err e, p)
    | ok id ↦ let q = migrate_json_agents p in (found_row id (Jobs.get_agent id q.store), q)
  ]
]

-- The rows in the order of their identifiers.
unfoldable pub list_agents : Project → Result (List AgentRecord) IoError × Project
list_agents p = elim (checked p) [
  | err e ↦ (err e, p)
  | ok _ ↦
      let q = migrate_json_agents p in
      (ok (sort_by (λ a b. str_less a.id b.id) (map record_of (Jobs.list_agents q.store))), q)
]

abbrev pub append_agent_log : String → String → Project → Project
append_agent_log id message p = record p { logs = p.logs ++ (id, message) ∷ [] }

abbrev pub new_agent : String → String → AgentRecord
new_agent id agent_type = record { id = id; agent_type = agent_type; status = "idle" }

unfoldable pub spawn_agent : String → String → Project → Result AgentRecord IoError × Project
spawn_agent agent_type name p = elim (checked p) [
  | err e ↦ (err e, p)
  | ok _ ↦ elim (safe_identifier name) [
    | err e ↦ (err e, p)
    | ok id ↦
        let (known, q) = get_agent id p in
        elim known [
          | ok _ ↦ (
            err (
                refusal ErrorKind.already_exists
                  (format ("agent `" ∷ id ∷ "` already exists" ∷ []))),
            q,
          )
          | err _ ↦ elim (safe_identifier agent_type) [
            | err e ↦ (err e, q)
            | ok kind ↦ (
              ok (new_agent id kind),
              append_agent_log id "agent spawned" (persist_agent (new_agent id kind) q),
            )
          ]
        ]
  ]
]

abbrev pub terminated : AgentRecord → AgentRecord
terminated r = record r { status = "terminated" }

unfoldable pub stop_agent : String → Project → Result AgentRecord IoError × Project
stop_agent agent_id p =
    let (known, q) = get_agent agent_id p in
    elim known [
      | err e ↦ (err e, q)
      | ok r ↦ (
        ok (terminated r),
        append_agent_log r.id "agent stopped" (persist_agent (terminated r) q),
      )
    ]

abbrev health_of : AgentRecord → String
health_of r =
    if r.status == "error"
    then "unhealthy"
    else if r.status == "terminated"
    then "degraded"
    else "healthy"

unfoldable pub agent_health :
    Option String → Project → Result (List (AgentRecord × String)) IoError × Project
agent_health none p =
    let (listed, q) = list_agents p in
    elim listed [ err e ↦ (err e, q) | ok rs ↦ (ok (map (λ r. (r, health_of r)) rs), q) ]
agent_health (some id) p =
    let (known, q) = get_agent id p in
    elim known [ err e ↦ (err e, q) | ok r ↦ (ok ((r, health_of r) ∷ []), q) ]
