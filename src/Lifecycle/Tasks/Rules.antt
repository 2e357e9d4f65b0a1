-- ===== src/Lifecycle/Tasks/Rules.antt =====
-- What holds of every task file, whatever the operations that were called.
use ruflo_rust.Prelude.{
  ◌^◌, ◌≤◌, ◌<◌, String, ◌≡◌, refl, ◌∙◌, inl, inr, Bool, true, some, List, [], ◌∷◌, ok, arith,
  contains, string_eq, nat_eq, eq_iff, ◌==◌, Bool-cases, Result-cases, Option-cases,
}
use ruflo_rust.Dict.{get, put, get-put}
use ruflo_rust.Lifecycle.{TaskRecord, File, Project, safe_identifier}
use ruflo_rust.Lifecycle.Agents.{get_agent, migrate_json_agents}
use ruflo_rust.Lifecycle.Tasks.{read_task, write_task, check_agents}

abbrev pub is_waiting : TaskRecord → Bool
is_waiting t = contains t.status ("pending" ∷ "queued" ∷ [])

-- A task that waits has no agents, and a task was not retried more often than its limit allows.
pub record IsTask (t : TaskRecord) : Type 0 where
  pub unassigned : is_waiting t ≡ true → t.assigned_agent_ids ≡ []
  pub retries : t.retry_count ≤ t.max_retries
  pub limit : t.max_retries < 2 ^ 32

pub record IsFile (name : String) (file : File TaskRecord) : Type 0 where
  pub task : TaskRecord
  pub parses : file ≡ ok task
  pub named : task.id ≡ name
  pub rules : IsTask task

abbrev pub IsOrderly : Project → Type 0
IsOrderly p =
    (name : String) (file : File TaskRecord) → get p.tasks name ≡ some file → IsFile name file

get_agent-tasks : (id : String) (p : Project) → (get_agent id p).1.tasks ≡ p.tasks
unfolding get_agent migrate_json_agents
get_agent-tasks id p = ground arith

pub check_agents-tasks : (ids : List String) (p : Project) → (check_agents ids p).1.tasks ≡ p.tasks
unfolding check_agents
check_agents-tasks [] p = refl
check_agents-tasks (id ∷ ids) p = elim (Result-cases (safe_identifier id)) [
  | inl (e, h) ↦ rw (check_agents, h) refl
  | inr (safe, h) ↦ elim (Result-cases (get_agent safe p).0) [
    | inl (e, g) ↦ rw (check_agents, h, g) (get_agent-tasks safe p)
    | inr (a, g) ↦
        rw (check_agents, h, g)
          (check_agents-tasks ids (get_agent safe p).1 ∙ get_agent-tasks safe p)
  ]
]

-- The task that is read is the one of the file of that name.
pub read_task-IsTask :
    (id : String) (p : Project) (t : TaskRecord)
    → IsOrderly p
    → read_task id p ≡ ok t
    → (t.id ≡ id) × IsTask t
unfolding read_task safe_identifier
read_task-IsTask id p t o h = elim (Option-cases (get p.tasks id)) [
  | inl e ↦ absurd (ground arith)
  | inr (f, e) ↦
      let file = o id f e in
      let same : file.task ≡ t = ground (arith, file.parses) in
      (rw (← same) file.named, rw (← same) file.rules)
]

pub put-IsOrderly :
    (p q : Project) (id : String) (t : TaskRecord)
    → IsOrderly p
    → q.tasks ≡ put p.tasks id (ok t)
    → t.id ≡ id
    → IsTask t
    → IsOrderly q
put-IsOrderly p q id t o e n r name file h = elim (Bool-cases (id == name)) [
  | inr miss ↦ o name file (ground (arith, get-put p.tasks id name (ok t)))
  | inl hit ↦ record {
    task = t;
    parses = ground (arith, get-put p.tasks id name (ok t));
    named = ground (arith, eq_iff id name);
    rules = r;
  }
]

pub write_task-IsOrderly :
    (t : TaskRecord) (p : Project) → IsOrderly p → IsTask t → IsOrderly (write_task t p).1
unfolding write_task safe_identifier
write_task-IsOrderly t p o r = elim (Result-cases (safe_identifier t.id)) [
  | inl (e, h) ↦ rw (write_task, h) o
  | inr (id, h) ↦
      let same : t.id ≡ id = ground arith in
      rw (write_task, h)
        (put-IsOrderly p (record p { tasks = put p.tasks id (ok t) }) id t o refl same r)
]

pub same_tasks-IsOrderly : (p q : Project) → q.tasks ≡ p.tasks → IsOrderly p → IsOrderly q
same_tasks-IsOrderly p q e o name file h = o name file (rw (← e) h)
