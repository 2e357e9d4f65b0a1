-- ===== src/Lifecycle/Swarms.antt =====
-- crates/ruflo-cli/src/lifecycle.rs: the swarm of a project.
pub mod Scale
pub mod Growing
pub mod Active
pub mod Scaling
pub mod Stopped
use ruflo_rust.Prelude.{
  str_less, zero, suc, ◌+◌, ◌-◌, ◌≤◌, ℕ, String, Bool, true, false, not, ◌&&◌, ◌||◌, Option, none,
  some, List, [], ◌∷◌, Result, ok, err, format, decimal, is_blank, leb, ltb, retain, take, length,
  count, sort_by, contains, string_eq, nat_eq, ◌==◌, if◌then◌else◌,
}
use ruflo_rust.Lifecycle.{
  ErrorKind, IoError, refusal, AgentRecord, TaskRecord, SwarmRecord, File, Project, checked,
  safe_identifier, valid_topology, valid_strategy,
}
use ruflo_rust.Lifecycle.Agents.{get_agent, list_agents, spawn_agent, stop_agent}
use ruflo_rust.Lifecycle.Tasks.{list_tasks}

abbrev pub no_swarm : IoError
no_swarm = refusal ErrorKind.not_found "no swarm is initialized in this directory"

unfoldable pub read_swarm : Project → Result (Option SwarmRecord) IoError
read_swarm p = elim p.swarm [
  | none ↦ ok none
  | some (err e) ↦ err (refusal ErrorKind.other e)
  | some (ok w) ↦ ok (some w)
]

-- `read_swarm(…)?.ok_or_else(…)?`
unfoldable pub the_swarm : Project → Result SwarmRecord IoError
the_swarm p = elim (read_swarm p) [ err e ↦ err e | ok none ↦ err no_swarm | ok (some w) ↦ ok w ]

abbrev pub write_swarm : SwarmRecord → Project → Project
write_swarm w p = record p { swarm = some (ok w) }

abbrev swarm_id : String → String
swarm_id now = format ("swarm-" ∷ now ∷ [])

-- `now` is the clock's reading, in decimal.
unfoldable pub initialize_swarm :
    String → String → ℕ → String → Project → Result SwarmRecord IoError × Project
initialize_swarm now topology max_agents strategy p = elim (checked p) [
  | err e ↦ (err e, p)
  | ok _ ↦
      if max_agents == 0 || ltb 100 max_agents
      then (err (refusal ErrorKind.invalid_input "max agents must be between 1 and 100"), p)
      else elim (valid_topology topology) [
        | err e ↦ (err e, p)
        | ok shape ↦ elim (valid_strategy strategy) [
          | err e ↦ (err e, p)
          | ok plan ↦
              let w : SwarmRecord = record {
                id = swarm_id now;
                topology = shape;
                max_agents = max_agents;
                strategy = plan;
                status = "ready";
                objective = none;
              } in
              (ok w, write_swarm w p)
        ]
      ]
]

unfoldable pub start_swarm : String → String → Project → Result SwarmRecord IoError × Project
start_swarm objective strategy p =
    if is_blank objective
    then (err (refusal ErrorKind.invalid_input "swarm objective must not be empty"), p)
    else elim (the_swarm p) [
      | err e ↦ (err e, p)
      | ok w ↦
          if w.status == "stopped"
          then (
            err (
                refusal ErrorKind.invalid_input
                  "stopped swarm cannot be started; initialize a new swarm"),
            p,
          )
          else elim (valid_strategy strategy) [
            | err e ↦ (err e, p)
            | ok plan ↦
                let w' = record w {
                  strategy = plan;
                  objective = some objective;
                  status = "running";
                } in
                (ok w', write_swarm w' p)
          ]
    ]

unfoldable pub finish_swarm : Bool → Project → Result SwarmRecord IoError × Project
finish_swarm succeeded p = elim (the_swarm p) [
  | err e ↦ (err e, p)
  | ok w ↦
      let w' = record w { status = if succeeded then "completed" else "failed" } in
      (ok w', write_swarm w' p)
]

abbrev pub unknown_swarm : String → IoError
unknown_swarm id = refusal ErrorKind.not_found (format ("swarm `" ∷ id ∷ "` does not exist" ∷ []))

unfoldable pub stop_swarm : String → Project → Result SwarmRecord IoError × Project
stop_swarm id p = elim (the_swarm p) [
  | err e ↦ (err e, p)
  | ok w ↦
      if not (w.id == id)
      then (err (unknown_swarm id), p)
      else (let w' = record w { status = "stopped" } in (ok w', write_swarm w' p))
]

abbrev is_one_of : List String → String → Bool
is_one_of names status = contains status names

pub record SwarmStatus : Type 0 where
  pub swarm : Option SwarmRecord
  pub agents_total : ℕ
  pub agents_active : ℕ
  pub tasks_total : ℕ
  pub tasks_completed : ℕ
  pub tasks_running : ℕ

unfoldable pub swarm_status : Project → Result SwarmStatus IoError × Project
swarm_status p = elim (checked p) [
  | err e ↦ (err e, p)
  | ok _ ↦ elim (read_swarm p) [
    | err e ↦ (err e, p)
    | ok w ↦
        let (listed, q) = list_agents p in
        elim listed [
          | err e ↦ (err e, q)
          | ok agents ↦ elim (list_tasks q) [
            | err e ↦ (err e, q)
            | ok tasks ↦ (
              ok (record {
                swarm = w;
                agents_total = length agents;
                agents_active =
                    count (λ a. is_one_of ("active" ∷ "running" ∷ "busy" ∷ []) a.status) agents;
                tasks_total = length tasks;
                tasks_completed = count (λ t. is_one_of ("completed" ∷ "done" ∷ []) t.status) tasks;
                tasks_running =
                    count (λ t. is_one_of ("running" ∷ "in_progress" ∷ []) t.status) tasks;
              }),
              q,
            )
          ]
        ]
  ]
]
