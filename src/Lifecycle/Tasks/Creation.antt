-- ===== src/Lifecycle/Tasks/Creation.antt =====
-- `create_task` finds a name that is free.
use Prim.Native.String.{◌++◌}
use text.Mathlib.TextLemmas.{append_cancel_left, append_cancel_right, append-eq-nil_iff}
use ruflo_rust.Prelude.Text.Digits.{decimal-injective}
use ruflo_rust.Prelude.{
  zero, suc, ◌^◌, ◌<◌, ℕ, String, ◌≡◌, refl, sym, ◌⊎◌, inl, inr, true, false, none, some, ok, arith,
  is_blank, length, contains, decimal, string_eq, eq_iff, ◌==◌, if◌then◌else◌, Option-cases,
}
use ruflo_rust.Dict.{get, put, has_key, get-put}
use ruflo_rust.Dict.Listing.{keys, contains-keys}
use ruflo_rust.Pigeonhole.{hits, hits-le-length}
use ruflo_rust.Lifecycle.{TaskRecord, Project, checked, safe_identifier, valid_priority}
use ruflo_rust.Lifecycle.Tasks.{task_id, new_task, free_task_id, create_task}

task_id_ne : (base : String) (n : ℕ) → task_id base (suc n) ≡ task_id base zero → ⊥
task_id_ne base n e =
    let tail : base ++ ("-" ++ (decimal (suc n) ++ "")) ≡ base ++ "" =
      append_cancel_left "task-" (base ++ ("-" ++ (decimal (suc n) ++ ""))) (base ++ "") e in
    let dashed : "-" ++ (decimal (suc n) ++ "") ≡ "" =
      append_cancel_left base ("-" ++ (decimal (suc n) ++ "")) "" tail in
    let dash : ◌≡◌ {A = String} "-" "" =
      ((append-eq-nil_iff {p = "-"} {q = decimal (suc n) ++ ""}).0 dashed).0 in
    let wrong : false ≡ true = (eq_iff "-" "").1 dash in ground (arith, wrong)

task_id-injective :
    (base : String) (i j : ℕ) → i < 10 ^ 20 → j < 10 ^ 20 → task_id base i ≡ task_id base j → i ≡ j
task_id-injective base zero zero hi hj e = refl
task_id-injective base zero (suc j) hi hj e = absurd (task_id_ne base j (sym e))
task_id-injective base (suc i) zero hi hj e = absurd (task_id_ne base i e)
task_id-injective base (suc i) (suc j) hi hj e = decimal-injective (suc i) (suc j) hi hj (
    append_cancel_right (decimal (suc i)) (decimal (suc j)) "" (
      append_cancel_left "-" (decimal (suc i) ++ "") (decimal (suc j) ++ "") (
        append_cancel_left base ("-" ++ (decimal (suc i) ++ "")) ("-" ++ (decimal (suc j) ++ "")) (
          append_cancel_left "task-" (base ++ ("-" ++ (decimal (suc i) ++ "")))
            (base ++ ("-" ++ (decimal (suc j) ++ ""))) e))))

free_task_id-cases :
    (turns : ℕ) (base : String) (i : ℕ) (p : Project)
    → ((id : String) × (free_task_id turns base i p ≡ some id) × (get p.tasks id ≡ none))
      ⊎ (hits (λ j. contains (task_id base j) (keys p.tasks)) i turns ≡ turns)
unfolding free_task_id hits
free_task_id-cases zero base i p = inr refl
free_task_id-cases (suc turns) base i p = elim (Option-cases (get p.tasks (task_id base i))) [
  | inl free ↦
      let no : has_key p.tasks (task_id base i) ≡ false = rw (has_key, free) refl in
      inl (task_id base i, rw (free_task_id, no) refl, free)
  | inr (f, taken) ↦ elim (free_task_id-cases turns base (suc i) p) [
    | inl (id, e, g) ↦
        let yes_ : has_key p.tasks (task_id base i) ≡ true = rw (has_key, taken) refl in
        inl (id, rw (free_task_id, yes_) e, g)
    | inr all ↦ inr (rw (contains-keys p.tasks (task_id base i), taken, all) refl)
  ]
]

-- 1000 names are tried, and fewer task files are there.
free_task_id_lem :
    (base : String) (p : Project)
    → length (keys p.tasks) < 1000
    → (id : String) × (free_task_id 1000 base 0 p ≡ some id) × (get p.tasks id ≡ none)
free_task_id_lem base p h = elim (free_task_id-cases 1000 base 0 p) [
  | inl found ↦ found
  | inr all ↦ absurd (
      let most =
        hits-le-length (task_id base) (10 ^ 20) (task_id-injective base) (keys p.tasks) 1000
          (omega arith) in
      omega (arith, most, all, h))
]

checked_ok : (p : Project) → p.initialized ≡ true → checked p ≡ ok tt
unfolding checked
checked_ok p i = rw i refl

-- With fewer than 1000 task files in an initialised project, `create_task` with a description, a
-- priority and a type that pass the tests succeeds: the task is pending under an identifier that no
-- file had, it is in the file of that name, and every other task file is as it was.
pub create_task_lem :
    (task_type description priority base : String) (p : Project)
    → p.initialized ≡ true
    → is_blank description ≡ false
    → valid_priority priority ≡ ok priority
    → safe_identifier task_type ≡ ok task_type
    → length (keys p.tasks) < 1000
    → (t : TaskRecord) × (q : Project) × (create_task task_type description priority base p
        ≡ (ok t, q))
      × (get p.tasks t.id ≡ none)
      × (t.status ≡ "pending")
      × ((name : String)
          → get q.tasks name ≡ (if t.id == name then some (ok t) else get p.tasks name))
unfolding create_task
create_task_lem task_type description priority base p i d v s room =
    let (id, found, free) = free_task_id_lem base p room in
    let t = new_task id task_type description priority in
    (
      t,
      record p { tasks = put p.tasks id (ok t) },
      rw (create_task, checked_ok p i, d, v, s, found) refl,
      free,
      refl,
      λ name. get-put p.tasks id name (ok t),
    )
