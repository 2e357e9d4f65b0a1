-- ===== src/Dual/Batches.antt =====
-- The worktrees of the workers, and the loop of `run` over batches of workers.
use ruflo_rust.Prelude.{
  ℕ, zero, suc, String, Bool, Option, none, some, List, [], ◌∷◌, ◌++◌, map, find, any, Result, ok,
  err, ◌>>=◌, format, leb, string_eq, ◌==◌, if◌then◌else◌,
}
use ruflo_rust.Dual.Options.{AutomationConfig, option_value, parse_positive}
use ruflo_rust.Dual.Workers.{Worker}

pub record WorktreeAssignment : Type 0 where
  pub agent_id : String
  pub branch : String
  pub path : String
  pub read_only : Bool

abbrev pub min : ℕ → ℕ → ℕ
min a b = if leb a b then a else b

abbrev pub max : ℕ → ℕ → ℕ
max a b = if leb a b then b else a

-- The loop of `prepare_worktrees`. `git` is the reply to a command; the commands are kept in their
-- order.
module _ (git : List String → Result String String) (base run_id : String) where
  abbrev pub assignment_of : Worker → WorktreeAssignment
  assignment_of w = record {
    agent_id = w.id;
    branch = if w.read_only then "" else format ("ruflo/" ∷ run_id ∷ "/" ∷ w.id ∷ []);
    path = format (base ∷ "/" ∷ w.id ∷ []);
    read_only = w.read_only;
  }

  abbrev pub add_command : Worker → List String
  add_command w =
      let a = assignment_of w in
      "worktree" ∷ "add" ∷ (if w.read_only then "--detach" ∷ [] else "-b" ∷ a.branch ∷ [])
      ++ a.path ∷ "HEAD" ∷ []

  abbrev pub remove_commands : WorktreeAssignment → List (List String)
  remove_commands a =
      ("worktree" ∷ "remove" ∷ a.path ∷ [])
      ∷ (if a.branch == "" then [] else ("branch" ∷ "-D" ∷ a.branch ∷ []) ∷ [])

  -- `cleanup_partial_worktrees`: the commands for the assignments, the last one first.
  abbrev pub cleanup : List WorktreeAssignment → List (List String)
  cleanup [] = []
  cleanup (a ∷ more) = cleanup more ++ remove_commands a

  unfoldable pub add_worktrees :
      List WorktreeAssignment
      → List Worker
      → Result (List WorktreeAssignment) String × List (List String)
  add_worktrees made [] = (ok made, [])
  add_worktrees made (w ∷ ws) =
      let (r, commands) = add_worktrees (made ++ assignment_of w ∷ []) ws in
      elim (git (add_command w)) [
        | err e ↦ (err e, add_command w ∷ cleanup made)
        | ok _ ↦ (r, add_command w ∷ commands)
      ]

-- `workers.chunks(size)` for a size above 0.
abbrev pub take : ℕ → List Worker → List Worker
take zero ws = []
take (suc n) [] = []
take (suc n) (w ∷ ws) = w ∷ take n ws

abbrev pub drop : ℕ → List Worker → List Worker
drop zero ws = ws
drop (suc n) [] = []
drop (suc n) (w ∷ ws) = drop n ws

unfoldable pub chunks : ℕ → ℕ → List Worker → List (List Worker)
chunks zero size ws = []
chunks (suc fuel) size [] = []
chunks (suc fuel) size (w ∷ ws) = take size (w ∷ ws) ∷ chunks fuel size (drop size (w ∷ ws))

-- `execute` runs one worker at a path; `none` is a panic of its thread.
module _ (execute : Worker → String → Option (Result Worker String))
    (assignments : List WorktreeAssignment) where
  abbrev pub failures_of : Option (Result Worker String) → List String
  failures_of none = "worker scheduler thread panicked" ∷ []
  failures_of (some (err e)) = e ∷ []
  failures_of (some (ok w)) = []

  abbrev pub assigned : Worker → Option WorktreeAssignment
  assigned w = find (λ a. a.agent_id == w.id) assignments

  -- All the workers of a batch are started, whatever the others do; `none` is the panic where a
  -- worker has no assignment.
  unfoldable pub batch_failures : List Worker → Option (List String)
  batch_failures [] = some []
  batch_failures (w ∷ ws) = elim (assigned w) [
    | none ↦ none
    | some a ↦ elim (batch_failures ws) [
      | none ↦ none
      | some fs ↦ some (failures_of (execute w a.path) ++ fs)
    ]
  ]

  -- The workers that were started, and the failures.
  unfoldable pub run_batches : List (List Worker) → Option (List Worker × List String)
  unfolding batch_failures
  run_batches [] = some ([], [])
  run_batches (b ∷ bs) =
      let rest = run_batches bs in
      elim (batch_failures b) [
        | none ↦ none
        | some (f ∷ fs) ↦ some (b, f ∷ fs)
        | some [] ↦ elim rest [ none ↦ none | some (ws, fs) ↦ some (b ++ ws, fs) ]
      ]

-- What the system supplies to `run`.
pub record Surroundings : Type 0 where
  pub project_root : String
  pub config_lines : Option (Result (List String) String)  -- of the first configuration file
  pub parse_u64 : String → Option ℕ
  pub lower : String → String
  pub checks : Result (Unit {0}) String  -- of `prepare_worktrees`, up to the loop
  pub git : List String → Result String String
  pub base : String
  pub run_id : String
  pub registry : Result (Unit {0}) String  -- the write of the record of the worktrees
  pub memory : Result (Unit {0}) String
  pub execute : Worker → String → String → ℕ → ℕ → Option (Result Worker String)

module _ (sys : Surroundings) where
  unfoldable pub prepare_worktrees : List Worker → Result (List WorktreeAssignment) String
  prepare_worktrees workers = sys.checks >>= (λ _.
      (add_worktrees sys.git sys.base sys.run_id [] workers).0
      >>= (λ made. sys.registry >>= (λ _. ok made)))

  abbrev pub in_place : Worker → WorktreeAssignment
  in_place w = record {
    agent_id = w.id;
    branch = "";
    path = sys.project_root;
    read_only = w.read_only;
  }

  unfoldable pub assign : AutomationConfig → List Worker → Result (List WorktreeAssignment) String
  assign automation workers =
      if automation.worktree_isolation then prepare_worktrees workers else ok (map in_place workers)

  -- An option that may lower a limit of the configuration.
  abbrev pub lowered : List String → String → ℕ → Result ℕ String
  lowered args name limit = elim (option_value args name) [
    | none ↦ ok limit
    | some value ↦ parse_positive sys.parse_u64 value name >>= (λ n. ok (min n limit))
  ]

  abbrev pub batch_size : List String → AutomationConfig → ℕ → ℕ
  batch_size args automation max_concurrent =
      if any (λ a. a == "--parallel-workers") args
      then max (min max_concurrent automation.max_writers) 1
      else 1

  abbrev pub namespace_of : List String → String
  namespace_of args = elim (option_value args "--namespace") [ none ↦ "collaboration" | some n ↦ n ]
