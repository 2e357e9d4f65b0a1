-- ===== src/Lifecycle/Sessions.antt =====
-- crates/ruflo-cli/src/lifecycle.rs: sessions, which keep the agents, the tasks and the swarm of a
-- project.
pub mod Writing
pub mod Saving
pub mod Listed
pub mod Restored
pub mod Restoring
use ruflo_rust.Prelude.{
  zero, suc, ℕ, String, Bool, true, false, not, Option, none, some, List, [], ◌∷◌, ◌++◌, Result, ok,
  err, format, decimal, is_blank, retain, string_eq, ◌==◌, if◌then◌else◌,
}
use ruflo_rust.Dict.{Dict, get, put, remove, has_key, empty}
use ruflo_rust.Storage.Jobs.{clear_agents}
use ruflo_rust.Lifecycle.{
  ErrorKind, IoError, refusal, AgentRecord, TaskRecord, SwarmRecord, SessionRecord, File, Project,
  checked, safe_identifier,
}
use ruflo_rust.Lifecycle.Agents.{list_agents, persist_agent}
use ruflo_rust.Lifecycle.Tasks.{list_tasks}
use ruflo_rust.Lifecycle.Swarms.{read_swarm, write_swarm}

abbrev pub session_id_of : String → ℕ → String
session_id_of base zero = format ("session-" ∷ base ∷ [])
session_id_of base (suc n) = format ("session-" ∷ base ∷ "-" ∷ decimal (suc n) ∷ [])

-- The loop over the suffixes in `next_session_id`.
unfoldable pub free_session_id : ℕ → String → ℕ → Project → Option String
free_session_id zero base suffix p = none
free_session_id (suc turns) base suffix p =
    let next = free_session_id turns base (suc suffix) p in
    if has_key p.sessions (session_id_of base suffix)
    then next
    else some (session_id_of base suffix)

unfoldable pub write_session : SessionRecord → Project → Result (Unit {0}) IoError × Project
write_session s p = elim (safe_identifier s.session_id) [
  | err e ↦ (err e, p)
  | ok id ↦ (ok tt, record p { sessions = put p.sessions id (ok s) })
]

abbrev pub no_id : IoError
no_id = refusal ErrorKind.already_exists "unable to allocate a unique session ID"

abbrev pub no_name : IoError
no_name = refusal ErrorKind.invalid_input "session name must not be empty"

abbrev pub write_current : SessionRecord → Project → Project
write_current s p = record p { sessions = put p.sessions "current" (ok s) }

-- After the file of the session comes `current.json`.
abbrev pub saved_by :
    SessionRecord → Result (Unit {0}) IoError × Project → Result SessionRecord IoError × Project
saved_by s (err e, q) = (err e, q)
saved_by s (ok _, q) = (ok s, write_current s q)

-- `base` is a reading of the clock in decimal, and `now` the next one.
unfoldable pub save_session :
    String → ℕ → String → String → Project → Result SessionRecord IoError × Project
save_session base now name description p = elim (checked p) [
  | err e ↦ (err e, p)
  | ok _ ↦ if is_blank name then (err no_name, p) else elim (free_session_id 1000 base 0 p) [
    | none ↦ (err no_id, p)
    | some id ↦
        let (listed, q) = list_agents p in
        elim listed [
          | err e ↦ (err e, q)
          | ok agents ↦ elim (list_tasks q) [
            | err e ↦ (err e, q)
            | ok tasks ↦ elim (read_swarm q) [
              | err e ↦ (err e, q)
              | ok swarm ↦
                  let s : SessionRecord = record {
                    session_id = id;
                    name = name;
                    description = description;
                    status = "saved";
                    saved_at_ms = now;
                    agents = agents;
                    tasks = tasks;
                    swarm = swarm;
                  } in
                  saved_by s (write_session s q)
            ]
          ]
        ]
  ]
]

abbrev pub read_file : Option (File SessionRecord) → Result SessionRecord IoError
read_file none = err (refusal ErrorKind.not_found "No such file or directory (os error 2)")
read_file (some (err e)) = err (refusal ErrorKind.other e)
read_file (some (ok s)) = ok s

unfoldable pub read_session : String → Project → Result SessionRecord IoError
read_session session_id p = elim (safe_identifier session_id) [
  | err e ↦ err e
  | ok id ↦ read_file (get p.sessions id)
]

unfoldable pub current_session : Project → Result SessionRecord IoError
current_session p = elim (checked p) [ err e ↦ err e | ok _ ↦ read_file (get p.sessions "current") ]

-- The file of a record, written over the one of its name.
abbrev pub put_json : AgentRecord → List AgentRecord → List AgentRecord
put_json a files = retain (λ b. not (b.id == a.id)) files ++ a ∷ []

-- `replace_records` once the old files are gone: an identifier that is not safe ends it.
unfoldable pub write_agents : List AgentRecord → Project → Result (Unit {0}) IoError × Project
write_agents [] p = (ok tt, p)
write_agents (a ∷ rest) p =
    let more = write_agents rest (record p { json_agents = put_json a p.json_agents }) in
    elim (safe_identifier a.id) [ err e ↦ (err e, p) | ok id ↦ more ]

unfoldable pub write_tasks : List TaskRecord → Project → Result (Unit {0}) IoError × Project
write_tasks [] p = (ok tt, p)
write_tasks (t ∷ rest) p =
    let more = write_tasks rest (record p { tasks = put p.tasks t.id (ok t) }) in
    elim (safe_identifier t.id) [ err e ↦ (err e, p) | ok id ↦ more ]

abbrev pub persist_all : List AgentRecord → Project → Project
persist_all [] p = p
persist_all (a ∷ rest) p = persist_all rest (persist_agent a p)

abbrev pub with_swarm : Option SwarmRecord → Project → Project
with_swarm none p = p
with_swarm (some w) p = write_swarm w p

unfoldable pub restore_session : String → Project → Result SessionRecord IoError × Project
restore_session session_id p = elim (checked p) [
  | err e ↦ (err e, p)
  | ok _ ↦ elim (read_session session_id p) [
    | err e ↦ (err e, p)
    | ok s ↦
        let (written, q) = write_agents s.agents (record p { json_agents = [] }) in
        elim written [
          | err e ↦ (err e, q)
          | ok _ ↦
              let r = persist_all s.agents (record q { store = clear_agents q.store }) in
              let (placed, t) = write_tasks s.tasks (record r { tasks = empty }) in
              elim placed [
                | err e ↦ (err e, t)
                | ok _ ↦ (ok s, write_current s (with_swarm s.swarm t))
              ]
        ]
  ]
]

unfoldable pub delete_session : String → Project → Result (Unit {0}) IoError × Project
delete_session session_id p = elim (checked p) [
  | err e ↦ (err e, p)
  | ok _ ↦ elim (safe_identifier session_id) [
    | err e ↦ (err e, p)
    | ok id ↦
        if has_key p.sessions id
        then (ok tt, record p { sessions = remove p.sessions id })
        else (err (refusal ErrorKind.not_found "No such file or directory (os error 2)"), p)
  ]
]

abbrev renamed : Option String → SessionRecord → Result SessionRecord IoError
renamed none s = ok s
renamed (some name) s = if is_blank name then err no_name else ok (record s { name = name })

-- `input` is what the file in the project holds, once its path has passed.
unfoldable pub import_session :
    String
    → ℕ
    → File SessionRecord
    → Option String
    → Project
    → Result SessionRecord IoError × Project
import_session base now input name p = elim (checked p) [
  | err e ↦ (err e, p)
  | ok _ ↦ elim input [
    | err e ↦ (err (refusal ErrorKind.other e), p)
    | ok s ↦ elim (free_session_id 1000 base 0 p) [
      | none ↦ (err no_id, p)
      | some id ↦
          elim (renamed name (record s { session_id = id; saved_at_ms = now; status = "saved" })) [
            | err e ↦ (err e, p)
            | ok s' ↦
                let (written, q) = write_session s' p in
                elim written [ err e ↦ (err e, q) | ok _ ↦ (ok s', q) ]
          ]
    ]
  ]
]
