-- ===== src/Dual/Outcome.antt =====
-- What a run of the command ends with.
use ruflo_rust.Prelude.{
  ℕ, ◌+◌, ◌^◌, ◌<◌, String, ◌≡◌, refl, sym, subst, ◌∙◌, ◌⊎◌, inl, inr, not, Option, some, List, [],
  ◌∷◌, ◌++◌, map, any, find, length, All, Result, ok, ◌>>=◌, Result-cases, ok-injective, bind-ok,
  Option-cases, Bool-cases, arith, string_eq, append_assoc, append-nil, is_blank,
}
use ruflo_rust.Dual.Options.{AutomationConfig, load, is_safe_id}
use ruflo_rust.Dual.Workers.{Worker}
use ruflo_rust.Dual.Parsing.{parse_workers_lem}
use ruflo_rust.Dual.Batches.{
  WorktreeAssignment, Surroundings, assignment_of, add_worktrees, add_command, prepare_worktrees,
  assign, in_place, lowered, batch_size, namespace_of, chunks,
}
use ruflo_rust.Dual.Run.{
  exit_of, plan_of, settle, limit, Plan, prepare, plan_run, executes, run_plan, run,
}
use ruflo_rust.Dual.Order.{
  concat, concat-chunks_lem, IsAssigned, Succeeds, IsAssigned-map, run_batches_lem, Left,
}

module _ (git : List String → Result String String) (base run_id : String) where
  add_worktrees-ok :
      (made : List WorktreeAssignment) (ws : List Worker) (r : List WorktreeAssignment)
      → (add_worktrees git base run_id made ws).0 ≡ ok r
      → r ≡ made ++ map (assignment_of git base run_id) ws
  unfolding add_worktrees
  add_worktrees-ok made [] r e = sym (ok-injective made r e) ∙ sym (append-nil made)
  add_worktrees-ok made (w ∷ ws) r e = elim (Result-cases (git (add_command git base run_id w))) [
    | inl (x, f) ↦ absurd (ground (arith, f, e))
    | inr (x, f) ↦
        add_worktrees-ok (made ++ assignment_of git base run_id w ∷ []) ws r (ground (arith, f, e))
        ∙ append_assoc made (assignment_of git base run_id w ∷ [])
            (map (assignment_of git base run_id) ws)
  ]

module _ (sys : Surroundings) where
  assign-IsAssigned :
      (execute : Worker → String → Option (Result Worker String)) (automation : AutomationConfig)
      (workers : List Worker) (assignments : List WorktreeAssignment)
      → assign sys automation workers ≡ ok assignments
      → All (IsAssigned execute assignments) workers
  unfolding assign prepare_worktrees
  assign-IsAssigned execute automation workers assignments e =
      elim (Bool-cases automation.worktree_isolation) [
        | inr shared ↦
            let e' : Path (Result (List WorktreeAssignment) String)
                (ok (map (in_place sys) workers)) (ok assignments) =
              ground (arith, shared, e) in
            let same = ok-injective (map (in_place sys) workers) assignments e' in
            subst (λ l. All (IsAssigned execute l) workers) same
              (IsAssigned-map execute (in_place sys) (λ w. refl) [] workers)
        | inl isolated ↦
            let e' : prepare_worktrees sys workers ≡ ok assignments = ground (arith, isolated, e) in
            let (_, _, f) = bind-ok sys.checks _ e' in
            let (made, g, h) =
              bind-ok (add_worktrees sys.git sys.base sys.run_id [] workers).0 _ f in
            let (_, _, k) = bind-ok sys.registry _ h in
            let all_made = add_worktrees-ok sys.git sys.base sys.run_id [] workers made g in
            subst (λ l. All (IsAssigned execute l) workers)
              (sym all_made ∙ ok-injective made assignments k)
              (IsAssigned-map execute (assignment_of sys.git sys.base sys.run_id) (λ w. refl) []
                workers)
      ]

  batch_size-pos :
      (args : List String) (automation : AutomationConfig) (n : ℕ)
      → 0 < batch_size sys args automation n
  batch_size-pos args automation n = ground arith

  -- What holds of a plan.
  abbrev IsSound : AutomationConfig → List Worker → Plan → Type 0
  IsSound automation workers p =
      (p.workers ≡ workers) × (assign sys automation workers ≡ ok p.assignments) × (0 < p.size)

  settle-IsSound :
      (automation : AutomationConfig) (args : List String) (workers : List Worker)
      (timeout most : ℕ) (p : Plan)
      → settle sys automation args workers timeout most ≡ ok p
      → IsSound automation workers p
  unfolding settle
  settle-IsSound automation args workers timeout most p e =
      elim (Bool-cases (is_blank (namespace_of sys args))) [
        | inl blank ↦ absurd (ground (arith, blank, e))
        | inr named ↦
            let (assignments, f, g) =
              bind-ok (assign sys automation workers)
                (λ made.
                  sys.memory >>= (λ _. ok (plan_of sys automation args workers timeout most made)))
                (ground (arith, named, e)) in
            let (_, _, h) = bind-ok sys.memory _ g in
            let same =
              ok-injective (plan_of sys automation args workers timeout most assignments) p h in
            subst (IsSound automation workers) same (refl, f, batch_size-pos args automation most)
      ]

  limit-IsSound :
      (automation : AutomationConfig) (args : List String) (workers : List Worker) (p : Plan)
      → limit sys automation args workers ≡ ok p
      → IsSound automation workers p
  unfolding limit
  limit-IsSound automation args workers p e =
      let (timeout, _, f) = bind-ok (lowered sys args "--timeout" automation.timeout_ms) _ e in
      let (most, _, g) =
        bind-ok (lowered sys args "--max-concurrent" automation.max_concurrent) _ f in
      settle-IsSound automation args workers timeout most p g

  prepare-IsSound :
      (automation : AutomationConfig) (args : List String) (workers : List Worker) (p : Plan)
      → prepare sys automation args workers ≡ ok p
      → IsSound automation workers p
  unfolding prepare
  prepare-IsSound automation args workers p e =
      elim (Bool-cases (any (λ w. is_blank w.role) workers)) [
        | inl blank ↦ absurd (ground (arith, blank, e))
        | inr named ↦ elim (Option-cases (find (λ w. not (is_safe_id w.id)) workers)) [
          | inr (w, bad) ↦ absurd (ground (arith, named, bad, e))
          | inl safe ↦ limit-IsSound automation args workers p (ground (arith, named, safe, e))
        ]
      ]

  -- What the loop leaves, as the end of the command.
  abbrev pub Follows : Plan → ℕ × List Worker → Type 0
  Follows p r =
      ((rest : List Worker) × (r.1 ++ rest ≡ p.workers))
      × (r.0 ≡ 0 → (r.1 ≡ p.workers) × All (Succeeds (executes sys p) p.assignments) p.workers)

  -- How the command ends: it refuses before any worker runs, or it runs a plan.
  abbrev pub Ended : List String → ℕ × List Worker → Type 0
  Ended args r = (r ≡ (1, [])) ⊎ ((p : Plan) × (plan_run sys args ≡ some (ok p)) × Follows p r)

  exit_lem :
      (p : Plan) (bs : List (List Worker)) (r : List Worker × List String)
      → concat bs ≡ p.workers
      → Left (executes sys p) p.assignments bs r
      → Follows p (exit_of r)
  exit_lem p bs (started, []) every l = (
    (l.0.0, l.0.1 ∙ every),
    λ _.
        let (same, well) = l.1 refl in
        (same ∙ every, subst (All (Succeeds (executes sys p) p.assignments)) every well),
  )
  exit_lem p bs (started, f ∷ fs) every l = ((l.0.0, l.0.1 ∙ every), λ z. cc)

  run_plan_lem :
      (automation : AutomationConfig) (workers : List Worker) (p : Plan)
      → IsSound automation workers p
      → (r : ℕ × List Worker) × (run_plan sys p ≡ some r) × Follows p r
  unfolding run_plan
  run_plan_lem automation workers p (same, made, pos) =
      let every = concat-chunks_lem (length p.workers) p.size p.workers pos (omega arith) in
      let assigned =
        subst (All (IsAssigned (executes sys p) p.assignments)) (sym same ∙ sym every)
          (assign-IsAssigned (executes sys p) automation workers p.assignments made) in
      let (r, e, l) =
        run_batches_lem (executes sys p) p.assignments (chunks (length p.workers) p.size p.workers)
          assigned in
      (
        exit_of r,
        rw (run_plan, e) refl,
        exit_lem p (chunks (length p.workers) p.size p.workers) r every l,
      )

  -- Where there are fewer than 2^31 - 3 arguments, the command always ends, without a panic.
  -- Either it refuses with code 1 before any worker is started; or it follows a plan: the workers
  -- are started in the order of the command line, each once, up to some point, and the code is 0
  -- only if all of them were started, at the paths assigned to them, and none failed.
  pub run_lem :
      (args : List String)
      → length args + 3 < 2 ^ 31
      → (r : ℕ × List Worker) × (run sys args ≡ some r) × Ended args r
  unfolding run plan_run
  run_lem args h = elim (Result-cases (load sys.parse_u64 sys.config_lines)) [
    | inl (e, f) ↦ ((1, []), rw (run, plan_run, f) refl, inl refl)
    | inr (automation, f) ↦ elim (Bool-cases automation.enabled) [
      | inr off ↦ ((1, []), rw (run, plan_run, f, off) refl, inl refl)
      | inl on ↦
          let (parsed, g, _) = parse_workers_lem sys.lower args h in
          elim (Result-cases (parsed >>= prepare sys automation args)) [
            | inl (e, k) ↦ ((1, []), rw (run, plan_run, f, on, g, k) refl, inl refl)
            | inr (p, k) ↦
                let (workers, _, sound) = bind-ok parsed _ k in
                let (r, e, x) =
                  run_plan_lem automation workers p
                    (prepare-IsSound automation args workers p sound) in
                let planned : plan_run sys args ≡ some (ok p) = rw (plan_run, f, on, g, k) refl in
                (r, rw (run, planned) e, inr (p, planned, x))
          ]
    ]
  ]
