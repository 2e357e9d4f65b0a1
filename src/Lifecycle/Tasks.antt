-- ===== src/Lifecycle/Tasks.antt =====
-- crates/ruflo-cli/src/lifecycle.rs: the tasks, one JSON file for each.
pub mod Rules
pub mod Assignment
pub mod History
pub mod Creation
use ruflo_rust.Prelude.{
  str_less, zero, suc, ◌+◌, ◌%◌, ◌^◌, ℕ, String, Bool, true, false, not, ◌&&◌, ◌||◌, Option, none,
  some, List, [], ◌∷◌, Result, ok, err, format, decimal, is_blank, leb, sort_by, contains,
  string_eq, nat_eq, ◌==◌, if◌then◌else◌,
}
use ruflo_rust.Dict.{get, put, has_key}
use ruflo_rust.Dict.Listing.{values}
use ruflo_rust.Lifecycle.{
  ErrorKind, IoError, refusal, TaskRecord, File, Project, checked, safe_identifier, valid_priority,
}
use ruflo_rust.Lifecycle.Agents.{get_agent}

abbrev read_file : Option (File TaskRecord) → Result TaskRecord IoError
read_file none = err (refusal ErrorKind.not_found "No such file or directory (os error 2)")
read_file (some (err e)) = err (refusal ErrorKind.other e)
read_file (some (ok t)) = ok t

unfoldable pub read_task : String → Project → Result TaskRecord IoError
read_task task_id p = elim (safe_identifier task_id) [
  | err e ↦ err e
  | ok id ↦ read_file (get p.tasks id)
]

-- The answer is the record, or the error of the write.
unfoldable pub write_task : TaskRecord → Project → Result TaskRecord IoError × Project
write_task t p = elim (safe_identifier t.id) [
  | err e ↦ (err e, p)
  | ok id ↦ (ok t, record p { tasks = put p.tasks id (ok t) })
]

abbrev pub task_id : String → ℕ → String
task_id base zero = format ("task-" ∷ base ∷ [])
task_id base (suc n) = format ("task-" ∷ base ∷ "-" ∷ decimal (suc n) ∷ [])

abbrev pub new_task : String → String → String → String → TaskRecord
new_task id task_type description priority = record {
  id = id;
  task_type = task_type;
  description = description;
  priority = priority;
  status = "pending";
  assigned_agent_ids = [];
  dependencies = [];
  tags = [];
  retry_count = 0;
  max_retries = 3;
  timeout_ms = 300000;
  cancellation_reason = none;
}

-- The loop over the suffixes: `write_new_json` refuses a file that exists.
unfoldable pub free_task_id : ℕ → String → ℕ → Project → Option String
free_task_id zero base suffix p = none
free_task_id (suc turns) base suffix p =
    let next = free_task_id turns base (suc suffix) p in
    if has_key p.tasks (task_id base suffix) then next else some (task_id base suffix)

-- `base` is the clock's reading, in decimal.
unfoldable pub create_task :
    String → String → String → String → Project → Result TaskRecord IoError × Project
create_task task_type description priority base p = elim (checked p) [
  | err e ↦ (err e, p)
  | ok _ ↦
      if is_blank description
      then (err (refusal ErrorKind.invalid_input "task description must not be empty"), p)
      else elim (valid_priority priority) [
        | err e ↦ (err e, p)
        | ok level ↦ elim (safe_identifier task_type) [
          | err e ↦ (err e, p)
          | ok kind ↦ elim (free_task_id 1000 base 0 p) [
            | none ↦
                (err (refusal ErrorKind.already_exists "unable to allocate a unique task ID"), p)
            | some id ↦
                let t = new_task id kind description level in
                (ok t, record p { tasks = put p.tasks id (ok t) })
          ]
        ]
      ]
]

unfoldable pub get_task : String → Project → Result TaskRecord IoError
get_task id p = elim (checked p) [ err e ↦ err e | ok _ ↦ read_task id p ]

abbrev pub collect : List (File TaskRecord) → Result (List TaskRecord) IoError
collect [] = ok []
collect (err e ∷ fs) = err (refusal ErrorKind.other e)
collect (ok t ∷ fs) = elim (collect fs) [ err e ↦ err e | ok ts ↦ ok (t ∷ ts) ]

unfoldable pub list_tasks : Project → Result (List TaskRecord) IoError
list_tasks p = elim (checked p) [
  | err e ↦ err e
  | ok _ ↦ elim (collect (values p.tasks)) [
    | err e ↦ err e
    | ok ts ↦ ok (sort_by (λ a b. str_less a.id b.id) ts)
  ]
]

unfoldable pub cancel_task : String → String → Project → Result TaskRecord IoError × Project
cancel_task id reason p = elim (read_task id p) [
  | err e ↦ (err e, p)
  | ok t ↦
      if contains t.status ("completed" ∷ "failed" ∷ [])
      then (err (refusal ErrorKind.invalid_input "cannot cancel finished tasks"), p)
      else write_task (record t { status = "cancelled"; cancellation_reason = some reason }) p
]

-- Each agent is looked up, which copies the records of `.swarm/agents` to the store.
unfoldable pub check_agents : List String → Project → Result (Unit {0}) IoError × Project
check_agents [] p = (ok tt, p)
check_agents (id ∷ ids) p = elim (safe_identifier id) [
  | err e ↦ (err e, p)
  | ok safe ↦
      let (known, q) = get_agent safe p in
      let rest = check_agents ids q in
      elim known [
        | err _ ↦ (
          err (refusal ErrorKind.not_found (format ("agent `" ∷ safe ∷ "` does not exist" ∷ []))),
          q,
        )
        | ok _ ↦ rest
      ]
]

unfoldable pub assign_task :
    String → List String → Bool → Project → Result TaskRecord IoError × Project
assign_task id agent_ids unassign p = elim (read_task id p) [
  | err e ↦ (err e, p)
  | ok t ↦
      if not (contains t.status ("pending" ∷ "queued" ∷ []))
      then (err (refusal ErrorKind.invalid_input "can only assign queued or pending tasks"), p)
      else if unassign
      then write_task (record t { assigned_agent_ids = []; status = "pending" }) p
      else (let (known, q) = check_agents agent_ids p in
          elim known [
            | err e ↦ (err e, q)
            | ok _ ↦ write_task (record t { assigned_agent_ids = agent_ids; status = "assigned" }) q
          ])
]

abbrev requeued : ℕ → TaskRecord → TaskRecord
requeued n t = record t {
  retry_count = n;
  status = "queued";
  assigned_agent_ids = [];
  cancellation_reason = none;
}

-- `retry_count` is a `u32`.
unfoldable pub retry_task : String → Bool → Project → Result TaskRecord IoError × Project
retry_task id reset_state p = elim (read_task id p) [
  | err e ↦ (err e, p)
  | ok t ↦
      if not (t.status == "failed")
      then (err (refusal ErrorKind.invalid_input "can only retry failed tasks"), p)
      else if not reset_state && leb t.max_retries t.retry_count
      then (err (refusal ErrorKind.invalid_input "task retry limit reached"), p)
      else write_task (requeued (if reset_state then 0 else (t.retry_count + 1) % 2 ^ 32) t) p
]
