-- ===== src/Dual/Cleanup.antt =====
-- A worktree that cannot be added takes the earlier ones with it.

use ruflo_rust.Prelude.{
  String, ◌≡◌, refl, ap, ◌∙◌, inl, inr, List, [], ◌∷◌, ◌++◌, map, Result, err, Result-cases,
  Bool-cases, append_assoc, append-nil, arith, format, string_eq, if◌then◌else◌,
}
use ruflo_rust.Dual.Naming.{branch_ne}
use ruflo_rust.Dual.Workers.{Worker}
use ruflo_rust.Dual.Batches.{
  WorktreeAssignment, assignment_of, add_command, remove_commands, cleanup, add_worktrees,
}

-- The directory of a worker, and its branch where it may write.
module _ (base run_id : String) where
  abbrev pub directory : Worker → String
  directory w = format (base ∷ "/" ∷ w.id ∷ [])

  abbrev pub branch : Worker → String
  branch w = format ("ruflo/" ∷ run_id ∷ "/" ∷ w.id ∷ [])

  -- What is asked of git for a worker: a worktree on a new branch, or a detached one for a reader.
  abbrev pub addition : Worker → List String
  addition w =
      if w.read_only
      then "worktree" ∷ "add" ∷ "--detach" ∷ directory w ∷ "HEAD" ∷ []
      else "worktree" ∷ "add" ∷ "-b" ∷ branch w ∷ directory w ∷ "HEAD" ∷ []

  -- What undoes it.
  abbrev pub removal : Worker → List (List String)
  removal w =
      if w.read_only
      then ("worktree" ∷ "remove" ∷ directory w ∷ []) ∷ []
      else ("worktree" ∷ "remove" ∷ directory w ∷ []) ∷ ("branch" ∷ "-D" ∷ branch w ∷ []) ∷ []

  -- The last worker's comes first.
  abbrev pub removals : List Worker → List (List String)
  removals [] = []
  removals (w ∷ ws) = removals ws ++ removal w

  -- The commands of a loop that failed at `w`, after the workers `before`.
  abbrev pub Failed : List Worker → List (List String) → Type 0
  Failed ws commands =
      (before : List Worker) × (w : Worker) × (after : List Worker) × (ws ≡ before ++ w ∷ after)
      × (commands ≡ map addition (before ++ w ∷ []) ++ removals before)

module _ (git : List String → Result String String) (base run_id : String) where
  add_command_lem : (w : Worker) → add_command git base run_id w ≡ addition base run_id w
  add_command_lem w = elim (Bool-cases w.read_only) [ inl r ↦ rw r refl | inr r ↦ rw r refl ]

  map-add_command :
      (ws : List Worker) → map (add_command git base run_id) ws ≡ map (addition base run_id) ws
  map-add_command [] = refl
  map-add_command (w ∷ ws) = rw (add_command_lem w, map-add_command ws) refl

  remove_commands_lem :
      (w : Worker)
      → remove_commands git base run_id (assignment_of git base run_id w) ≡ removal base run_id w
  remove_commands_lem w = elim (Bool-cases w.read_only) [
    | inl r ↦ rw r refl
    | inr r ↦ rw r (rw (branch_ne (run_id ∷ "/" ∷ w.id ∷ [])) refl)
  ]

  cleanup_lem :
      (ws : List Worker)
      → cleanup git base run_id (map (assignment_of git base run_id) ws) ≡ removals base run_id ws
  cleanup_lem [] = refl
  cleanup_lem (w ∷ ws) = rw (cleanup_lem ws, remove_commands_lem w) refl

  -- The same with the assignments that were there before the loop.
  failed_after :
      (made : List WorktreeAssignment) (ws : List Worker) (e : String)
      → (add_worktrees git base run_id made ws).0 ≡ err e
      → (before : List Worker) × (w : Worker) × (after : List Worker) × (ws ≡ before ++ w ∷ after)
        × ((add_worktrees git base run_id made ws).1
            ≡ map (add_command git base run_id) (before ++ w ∷ [])
              ++ cleanup git base run_id (made ++ map (assignment_of git base run_id) before))
  unfolding add_worktrees
  failed_after made [] e h = cc
  failed_after made (w ∷ ws) e h = elim (Result-cases (git (add_command git base run_id w))) [
    | inl (x, f) ↦ ([], w, ws, refl, rw (add_worktrees, f, append-nil made) refl)
    | inr (x, f) ↦
        let (before, v, after, at, c) =
          failed_after (made ++ assignment_of git base run_id w ∷ []) ws e (ground (arith, f, h)) in
        (
          w ∷ before,
          v,
          after,
          ap (λ l. w ∷ l) at,
          rw
              (
                add_worktrees,
                f,
                c,
                append_assoc made (assignment_of git base run_id w ∷ [])
                    (map (assignment_of git base run_id) before),
              )
              refl,
        )
  ]

  -- If git refuses a worktree, then the commands are those that ask for the worktrees up to it, and
  -- then exactly those that remove each of the worktrees that were added, the last one first, and
  -- after each its branch, where one was made for it.
  pub add_worktrees-err :
      (ws : List Worker) (e : String)
      → (add_worktrees git base run_id [] ws).0 ≡ err e
      → Failed base run_id ws (add_worktrees git base run_id [] ws).1
  add_worktrees-err ws e h =
      let (before, w, after, at, c) = failed_after [] ws e h in
      (before, w, after, at, c ∙ rw (map-add_command (before ++ w ∷ []), cleanup_lem before) refl)
