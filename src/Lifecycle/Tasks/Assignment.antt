-- ===== src/Lifecycle/Tasks/Assignment.antt =====
-- An assignment and an unassignment of one task, one after the other.
use ruflo_rust.Prelude.{
  String, ◌≡◌, refl, ap, ◌∙◌, inl, inr, Bool, true, false, List, [], ok, err, arith, beq_self,
  string_eq, nat_eq, Bool-cases, Result-cases,
}
use ruflo_rust.Dict.{put, get-put}
use ruflo_rust.Lifecycle.{ErrorKind, refusal, TaskRecord, Project, safe_identifier}
use ruflo_rust.Lifecycle.Tasks.{read_task, write_task, check_agents, assign_task}
use ruflo_rust.Lifecycle.Tasks.Rules.{is_waiting, IsOrderly, read_task-IsTask}

safe_name :
    (id : String) (p : Project) (t : TaskRecord)
    → read_task id p ≡ ok t
    → safe_identifier id ≡ ok id
unfolding read_task safe_identifier
safe_name id p t h = ground arith

write_task-read_task :
    (id : String) (t : TaskRecord) (p : Project)
    → safe_identifier id ≡ ok id
    → t.id ≡ id
    → (write_task t p ≡ (ok t, record p { tasks = put p.tasks id (ok t) }))
      × (read_task id (record p { tasks = put p.tasks id (ok t) }) ≡ ok t)
unfolding read_task write_task
write_task-read_task id t p safe same = (
  (let e : safe_identifier t.id ≡ ok id = ap safe_identifier same ∙ safe in
      rw (write_task, e) refl),
  rw (read_task, safe, get-put p.tasks id id (ok t), beq_self id) refl,
)

assign_running :
    (id : String) (others : List String) (un : Bool) (p : Project) (t : TaskRecord)
    → read_task id p ≡ ok t
    → is_waiting t ≡ false
    → assign_task id others un p
      ≡ (err (refusal ErrorKind.invalid_input "can only assign queued or pending tasks"), p)
unfolding assign_task
assign_running id others un p t h w = rw (assign_task, h, w) refl

-- What an assignment that succeeds has read, and how it ends.
assigned :
    (id : String) (ids : List String) (un : Bool) (p : Project) (t : TaskRecord)
    → (assign_task id ids un p).0 ≡ ok t
    → (before : TaskRecord) × (read_task id p ≡ ok before)
      × (is_waiting before ≡ true)
      × (un ≡ false
          → assign_task id ids un p
            ≡ write_task
                (record before { assigned_agent_ids = ids; status = "assigned" })
                (check_agents ids p).1)
unfolding assign_task
assigned id ids un p t h = elim (Result-cases (read_task id p)) [
  | inl (e, r) ↦ absurd (ground arith)
  | inr (before, r) ↦ elim (Bool-cases (is_waiting before)) [
    | inr other ↦ absurd (
        let e : (assign_task id ids un p).0
            ≡ err (refusal ErrorKind.invalid_input "can only assign queued or pending tasks") =
          rw (assign_task, r, other) refl in
        ground (arith, e, h))
    | inl waits ↦ (
      before,
      r,
      waits,
      λ un_. elim (Result-cases (check_agents ids p).0) [
        | inl (e, c) ↦ absurd (
            let bad : (assign_task id ids un p).0 ≡ err e =
              rw (assign_task, r, waits, un_, c) refl in
            ground (arith, bad, h))
        | inr (u, c) ↦ rw (assign_task, r, waits, un_, c) refl
      ],
    )
  ]
]

-- An unassignment that succeeds is one of a task that had no agents.
unassigned :
    (id : String) (ids : List String) (p : Project) (t : TaskRecord)
    → IsOrderly p
    → (assign_task id ids true p).0 ≡ ok t
    → (before : TaskRecord) × (read_task id p ≡ ok before) × (before.assigned_agent_ids ≡ [])
unassigned id ids p t o h =
    let (before, r, waits, ends) = assigned id ids true p t h in
    (before, r, (read_task-IsTask id p before o r).1.unassigned waits)

-- An assignment is not taken back: when a task was assigned, in a project whose task files are in
-- order, every unassignment of it is refused and changes nothing.
pub assign_task-assign_task :
    (id : String) (ids others : List String) (p : Project) (t : TaskRecord)
    → IsOrderly p
    → (assign_task id ids false p).0 ≡ ok t
    → let q = (assign_task id ids false p).1 in
      assign_task id others true q
      ≡ (err (refusal ErrorKind.invalid_input "can only assign queued or pending tasks"), q)
assign_task-assign_task id ids others p t o h =
    let (before, r, waits, ends) = assigned id ids false p t h in
    let safe = safe_name id p before r in
    let named = (read_task-IsTask id p before o r).0 in
    let now = record before { assigned_agent_ids = ids; status = "assigned" } in
    let (written, read) = write_task-read_task id now (check_agents ids p).1 safe named in
    rw (ends refl ∙ written) (assign_running id others true _ now read refl)
