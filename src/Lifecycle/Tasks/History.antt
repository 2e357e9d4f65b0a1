-- ===== src/Lifecycle/Tasks/History.antt =====
-- Histories of calls on the tasks.
use ruflo_rust.Prelude.{
  ◌+◌, ◌^◌, ◌%◌, String, refl, inl, inr, Bool, not, ◌&&◌, some, List, [], ◌∷◌, ok, err, arith, leb,
  contains, is_blank, string_eq, nat_eq, ◌==◌, if◌then◌else◌, Bool-cases, Result-cases,
  Option-cases,
}
use ruflo_rust.Dict.{put}
use ruflo_rust.Lifecycle.{Project, checked, safe_identifier, valid_priority}
use ruflo_rust.Lifecycle.Tasks.{
  read_task, write_task, new_task, free_task_id, create_task, cancel_task, check_agents,
  assign_task, retry_task, requeued,
}
use ruflo_rust.Lifecycle.Tasks.Rules.{
  is_waiting, IsOrderly, check_agents-tasks, read_task-IsTask, put-IsOrderly, write_task-IsOrderly,
  same_tasks-IsOrderly,
}

-- `mark` is another program that sets the status of a task to one that is not waiting: a worker
-- that runs it, and that completes or fails it. No code of the repository does.
pub data TaskCall : Type 0 where
  create : String → String → String → String → TaskCall
  cancel : String → String → TaskCall
  assign : String → List String → Bool → TaskCall
  retry : String → Bool → TaskCall
  mark : String → String → TaskCall

unfoldable pub mark_task : String → String → Project → Project
unfolding read_task write_task
mark_task id status p = elim (read_task id p) [
  | err e ↦ p
  | ok t ↦
      if contains status ("pending" ∷ "queued" ∷ [])
      then p
      else (write_task (record t { status = status }) p).1
]

unfoldable pub step : Project → TaskCall → Project
unfolding create_task cancel_task assign_task retry_task mark_task
step p (create task_type description priority base) =
    (create_task task_type description priority base p).1
step p (cancel id reason) = (cancel_task id reason p).1
step p (assign id agent_ids unassign) = (assign_task id agent_ids unassign p).1
step p (retry id reset_state) = (retry_task id reset_state p).1
step p (mark id status) = mark_task id status p

unfoldable pub run : Project → List TaskCall → Project
unfolding step
run p [] = p
run p (c ∷ cs) = run (step p c) cs

module _ (p : Project) (o : IsOrderly p) where
  cancel_task-IsOrderly : (id reason : String) → IsOrderly (cancel_task id reason p).1
  unfolding cancel_task
  cancel_task-IsOrderly id reason = elim (Result-cases (read_task id p)) [
    | inl (e, h) ↦ rw (cancel_task, h) o
    | inr (t, h) ↦
        let (named, r) = read_task-IsTask id p t o h in
        elim (Bool-cases (contains t.status ("completed" ∷ "failed" ∷ []))) [
          | inl done ↦ rw (cancel_task, h, done) o
          | inr open_ ↦
              rw (cancel_task, h, open_)
                (write_task-IsOrderly
                  (record t { status = "cancelled"; cancellation_reason = some reason }) p o
                  (record {
                    unassigned = λ w. absurd (ground arith);
                    retries = r.retries;
                    limit = r.limit;
                  }))
        ]
  ]

  mark_task-IsOrderly : (id status : String) → IsOrderly (mark_task id status p)
  unfolding mark_task
  mark_task-IsOrderly id status = elim (Result-cases (read_task id p)) [
    | inl (e, h) ↦ rw (mark_task, h) o
    | inr (t, h) ↦
        let (named, r) = read_task-IsTask id p t o h in
        elim (Bool-cases (contains status ("pending" ∷ "queued" ∷ []))) [
          | inl waits ↦ rw (mark_task, h, waits) o
          | inr other ↦
              rw (mark_task, h, other)
                (write_task-IsOrderly (record t { status = status }) p o
                  (record {
                    unassigned = λ w. absurd (ground (arith, w, other));
                    retries = r.retries;
                    limit = r.limit;
                  }))
        ]
  ]

  retry_task-IsOrderly :
      (id : String) (reset_state : Bool) → IsOrderly (retry_task id reset_state p).1
  unfolding retry_task
  retry_task-IsOrderly id reset_state = elim (Result-cases (read_task id p)) [
    | inl (e, h) ↦ rw (retry_task, h) o
    | inr (t, h) ↦
        let (named, r) = read_task-IsTask id p t o h in
        let n = if reset_state then 0 else (t.retry_count + 1) % 2 ^ 32 in
        elim (Bool-cases (not (t.status == "failed"))) [
          | inl other ↦ rw (retry_task, h, other) o
          | inr failed ↦ elim (Bool-cases (not reset_state && leb t.max_retries t.retry_count)) [
            | inl spent ↦ rw (retry_task, h, failed, spent) o
            | inr left ↦
                rw (retry_task, h, failed, left)
                  (write_task-IsOrderly (requeued n t) p o (record {
                    unassigned = λ w. refl;
                    retries = ground (arith, r.retries, r.limit);
                    limit = r.limit;
                  }))
          ]
        ]
  ]

  assign_task-IsOrderly :
      (id : String) (ids : List String) (unassign : Bool)
      → IsOrderly (assign_task id ids unassign p).1
  unfolding assign_task
  assign_task-IsOrderly id ids unassign = elim (Result-cases (read_task id p)) [
    | inl (e, h) ↦ rw (assign_task, h) o
    | inr (t, h) ↦
        let (named, r) = read_task-IsTask id p t o h in
        elim (Bool-cases (not (is_waiting t))) [
          | inl other ↦ rw (assign_task, h, other) o
          | inr waits ↦ elim (Bool-cases unassign) [
            | inl un ↦
                rw (assign_task, h, waits, un)
                  (write_task-IsOrderly (record t { assigned_agent_ids = []; status = "pending" }) p
                    o (record { unassigned = λ w. refl; retries = r.retries; limit = r.limit }))
            | inr to ↦
                let q = (check_agents ids p).1 in
                let oq = same_tasks-IsOrderly p q (check_agents-tasks ids p) o in
                elim (Result-cases (check_agents ids p).0) [
                  | inl (e, c) ↦ rw (assign_task, h, waits, to, c) oq
                  | inr (u, c) ↦
                      rw (assign_task, h, waits, to, c)
                        (write_task-IsOrderly
                          (record t { assigned_agent_ids = ids; status = "assigned" }) q oq
                          (record {
                            unassigned = λ w. absurd (ground arith);
                            retries = r.retries;
                            limit = r.limit;
                          }))
                ]
          ]
        ]
  ]

  create_task-IsOrderly : (a b c d : String) → IsOrderly (create_task a b c d p).1
  unfolding create_task
  create_task-IsOrderly a b c d = elim (Result-cases (checked p)) [
    | inl (e, h) ↦ rw (create_task, h) o
    | inr (u, h) ↦ elim (Bool-cases (is_blank b)) [
      | inl blank ↦ rw (create_task, h, blank) o
      | inr said ↦ elim (Result-cases (valid_priority c)) [
        | inl (e, v) ↦ rw (create_task, h, said, v) o
        | inr (level, v) ↦ elim (Result-cases (safe_identifier a)) [
          | inl (e, s) ↦ rw (create_task, h, said, v, s) o
          | inr (kind, s) ↦ elim (Option-cases (free_task_id 1000 d 0 p)) [
            | inl f ↦ rw (create_task, h, said, v, s, f) o
            | inr (id, f) ↦
                let t = new_task id kind b level in
                rw (create_task, h, said, v, s, f)
                  (put-IsOrderly p (record p { tasks = put p.tasks id (ok t) }) id t o refl refl
                    (record { unassigned = λ w. refl; retries = omega arith; limit = omega arith }))
          ]
        ]
      ]
    ]
  ]

step-IsOrderly : (p : Project) (c : TaskCall) → IsOrderly p → IsOrderly (step p c)
unfolding step
step-IsOrderly p (create a b c d) o = create_task-IsOrderly p o a b c d
step-IsOrderly p (cancel id reason) o = cancel_task-IsOrderly p o id reason
step-IsOrderly p (assign id ids un) o = assign_task-IsOrderly p o id ids un
step-IsOrderly p (retry id reset) o = retry_task-IsOrderly p o id reset
step-IsOrderly p (mark id status) o = mark_task-IsOrderly p o id status

pub run-IsOrderly : (p : Project) (cs : List TaskCall) → IsOrderly p → IsOrderly (run p cs)
unfolding run
run-IsOrderly p [] o = o
run-IsOrderly p (c ∷ cs) o = run-IsOrderly (step p c) cs (step-IsOrderly p c o)
