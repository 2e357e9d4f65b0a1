-- ===== src/Examples/Dual.antt =====
-- The runner with two workers, the second of which fails.
use ruflo_rust.Prelude.{
  string_eq, contains, if◌then◌else◌, ℕ, String, ◌≡◌, refl, Bool, true, false, none, some, List, [],
  ◌∷◌, Result, ok, err, arith, ◌≢◌,
}
use ruflo_rust.Dual.Workers.{Worker, parse_workers}
use ruflo_rust.Dual.Parsing.{Parsed, parse_workers_lem}
use ruflo_rust.Dual.Batches.{Surroundings, add_worktrees}
use ruflo_rust.Dual.Cleanup.{Failed, add_worktrees-err}
use ruflo_rust.Dual.Run.{run}
use ruflo_rust.Dual.Outcome.{Ended, run_lem}

abbrev lower : String → String
lower s = s

abbrev arguments : List String
arguments = "--worker" ∷ "codex:coder:write it" ∷ "-w" ∷ "codex:coder:check it" ∷ []

parse_workers_lem_example :
    (r : Result (List Worker) String) × (parse_workers lower arguments ≡ some r)
    × (Parsed [] r × (r ≢ ok []))
parse_workers_lem_example = parse_workers_lem lower arguments (omega arith)

abbrev worker : String → Bool → Worker
worker id read_only = record { id = id; role = "coder"; prompt = "write it"; read_only = read_only }

abbrev surroundings : Surroundings
surroundings = record {
  project_root = "/p";
  config_lines =
      some (ok ("[swarm.automation]" ∷ "enabled = true" ∷ "worktree_isolation = false" ∷ []));
  parse_u64 = λ s. none;
  lower = lower;
  checks = ok tt;
  git = λ c. ok "";
  base = "/w";
  run_id = "dual-1";
  registry = ok tt;
  memory = ok tt;
  execute = λ w path namespace timeout most. some (ok w);
}

run_lem_example :
    (r : ℕ × List Worker) × (run surroundings arguments ≡ some r) × Ended surroundings arguments r
run_lem_example = run_lem surroundings arguments (omega arith)

abbrev two : List Worker
two = worker "a" false ∷ worker "b" true ∷ []

-- A git that refuses the second worktree.
abbrev refusing : List String → Result String String
refusing command = if contains "--detach" command then err "no" else ok ""

refuses : (add_worktrees refusing "/w" "dual-1" [] two).0 ≡ err "no"
unfolding add_worktrees
refuses = refl

add_worktrees-err_example : Failed "/w" "dual-1" two (add_worktrees refusing "/w" "dual-1" [] two).1
add_worktrees-err_example = add_worktrees-err refusing "/w" "dual-1" two "no" refuses
