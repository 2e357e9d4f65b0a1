-- ===== src/Dual/Run.antt =====
-- `run`: what is read and prepared before the loop, and the loop.
use ruflo_rust.Prelude.{
  ℕ, String, not, Option, none, some, List, [], ◌∷◌, any, find, length, Result, ok, err, ◌>>=◌,
  format, is_blank, if◌then◌else◌,
}
use ruflo_rust.Dual.Options.{AutomationConfig, load, is_safe_id}
use ruflo_rust.Dual.Workers.{Worker, parse_workers}
use ruflo_rust.Dual.Batches.{
  WorktreeAssignment, Surroundings, assign, lowered, batch_size, namespace_of, chunks, run_batches,
}

-- What `run` knows when the loop begins.
pub record Plan : Type 0 where
  pub workers : List Worker
  pub assignments : List WorktreeAssignment
  pub namespace : String
  pub timeout : ℕ
  pub max_output : ℕ
  pub size : ℕ

-- The exit code, and the workers that were started.
abbrev pub exit_of : List Worker × List String → ℕ × List Worker
exit_of (started, []) = (0, started)
exit_of (started, f ∷ fs) = (1, started)

module _ (sys : Surroundings) where
  abbrev pub plan_of :
      AutomationConfig → List String → List Worker → ℕ → ℕ → List WorktreeAssignment → Plan
  plan_of automation args workers timeout max_concurrent assignments = record {
    workers = workers;
    assignments = assignments;
    namespace = namespace_of sys args;
    timeout = timeout;
    max_output = automation.max_output_bytes;
    size = batch_size sys args automation max_concurrent;
  }

  -- The worktrees and the memory.
  unfoldable pub settle : AutomationConfig → List String → List Worker → ℕ → ℕ → Result Plan String
  settle automation args workers timeout max_concurrent =
      if is_blank (namespace_of sys args)
      then err "--namespace must not be empty"
      else assign sys automation workers >>= (λ assignments.
        sys.memory
        >>= (λ _. ok (plan_of automation args workers timeout max_concurrent assignments)))

  unfoldable pub limit : AutomationConfig → List String → List Worker → Result Plan String
  unfolding settle
  limit automation args workers = lowered sys args "--timeout" automation.timeout_ms >>= (λ timeout.
      lowered sys args "--max-concurrent" automation.max_concurrent
      >>= (λ max_concurrent. settle automation args workers timeout max_concurrent))

  -- The tests of the workers and of the options, and the preparation.
  unfoldable pub prepare : AutomationConfig → List String → List Worker → Result Plan String
  unfolding limit
  prepare automation args workers =
      if any (λ w. is_blank w.role) workers
      then err "worker role must not be empty"
      else elim (find (λ w. not (is_safe_id w.id)) workers) [
        | some w ↦ err (format ("invalid worker id `" ∷ w.id ∷ "`" ∷ []))
        | none ↦ limit automation args workers
      ]

  -- `none` would be the end of the fuel of `parse_workers`.
  unfoldable pub plan_run : List String → Option (Result Plan String)
  unfolding prepare
  plan_run args = elim (load sys.parse_u64 sys.config_lines) [
    | err e ↦ some (err e)
    | ok automation ↦
        if not automation.enabled
        then some
            (err "unattended swarm automation is disabled; set [swarm.automation] enabled = true")
        else elim (parse_workers sys.lower args) [
          | none ↦ none
          | some workers ↦ some (workers >>= prepare automation args)
        ]
  ]

  abbrev pub executes : Plan → Worker → String → Option (Result Worker String)
  executes p w path = sys.execute w path p.namespace p.timeout p.max_output

  unfoldable pub run_plan : Plan → Option (ℕ × List Worker)
  run_plan p =
      elim (run_batches (executes p) p.assignments (chunks (length p.workers) p.size p.workers)) [
        | none ↦ none
        | some r ↦ some (exit_of r)
      ]

  unfoldable pub run : List String → Option (ℕ × List Worker)
  unfolding plan_run run_plan
  run args = elim (plan_run args) [
    | none ↦ none
    | some (err e) ↦ some (1, [])
    | some (ok p) ↦ run_plan p
  ]
