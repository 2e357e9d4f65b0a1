-- ===== src/Lifecycle/Sessions/Listed.antt =====
-- The lists of agents and of tasks have each record under its identifier.
use ruflo_rust.Prelude.{
  str_less, ◌≤◌, String, ◌≡◌, refl, sym, ap, ◌∙◌, subst, Bool, true, some, List, [], ◌∷◌, map, All,
  All-sort_by, ok, err, arith, count, count-sort_by, sort_by, ok-injective, string_eq, eq_iff, ◌==◌,
}
use ruflo_rust.Dict.{get}
use ruflo_rust.Dict.Listing.{values, IsDistinct, All-values, one_value}
use ruflo_rust.Storage.Jobs.{AgentRow}
use ruflo_rust.Storage.Jobs
use ruflo_rust.Storage.Jobs.Agents.{count-list_agents, All-list_agents}
use ruflo_rust.Lifecycle.{AgentRecord, TaskRecord, File, Project, safe_identifier}
use ruflo_rust.Lifecycle.Agents.{record_of, list_agents}
use ruflo_rust.Lifecycle.Agents.Rows.{IsReady, checked_ok}
use ruflo_rust.Lifecycle.Tasks.{list_tasks, collect}
use ruflo_rust.Lifecycle.Tasks.Rules.{IsOrderly}
use ruflo_rust.Lifecycle.Swarms.Active.{IsRead, list_agents_lem, count-map}

abbrev pub IsListed : Project → AgentRecord → Type 0
IsListed p a = IsRead p.store.agents a × (safe_identifier a.id ≡ ok a.id)

All-IsListed :
    (p : Project) (rows : List AgentRow)
    → All
        (λ row. (get p.store.agents row.id ≡ some row) × (safe_identifier row.id ≡ ok row.id))
        rows
    → All (IsListed p) (map record_of rows)
All-IsListed p [] a = tt
All-IsListed p (row ∷ rows) a = (((row, a.0.0, refl), a.0.1), All-IsListed p rows a.1)

-- The agents of the list are those of the store, each under its identifier.
pub agents_of_list :
    (p : Project) (r : IsReady p) (xs : List AgentRecord)
    → list_agents p ≡ (ok xs, p)
    → All (IsListed p) xs
      × ((id : String) (row : AgentRow)
          → get p.store.agents id ≡ some row
          → 1 ≤ count (λ a. a.id == id) xs)
agents_of_list p r xs l =
    let d = p.store.agents in
    let before : AgentRecord → AgentRecord → Bool = λ a b. str_less a.id b.id in
    let rows = map record_of (Jobs.list_agents p.store) in
    let same : sort_by before rows ≡ xs =
      ok-injective (sort_by before rows) xs (ap (λ x. x.0) (sym (list_agents_lem p r) ∙ l)) in
    let read =
      let fits : AgentRow → Type 0 =
        λ row. (get d row.id ≡ some row) × (safe_identifier row.id ≡ ok row.id) in
      All-list_agents fits p.store (
        All-values fits d r.distinct (λ k row h.
          subst (λ i. (get d i ≡ some row) × (safe_identifier i ≡ ok i)) (sym (r.named k row h))
            (h, r.safe k row h))) in
    (
      subst (All (IsListed p)) same
          (All-sort_by (IsListed p) before rows (All-IsListed p (Jobs.list_agents p.store) read)),
      λ id row h.
          subst (λ ys. 1 ≤ count (λ (a : AgentRecord). a.id == id) ys) same
            (let there =
                one_value (λ (x : AgentRow). x.id == id) d id row h
                  ((eq_iff row.id id).1 (r.named id row h)) in
              omega (
                arith,
                there,
                count-sort_by before (λ a. a.id == id) rows,
                count-map (λ a. a.id == id) (Jobs.list_agents p.store),
                count-list_agents (λ row. row.id == id) p.store,
              )),
    )

abbrev pub IsKept : Project → TaskRecord → Type 0
IsKept p t = (get p.tasks t.id ≡ some (ok t)) × (safe_identifier t.id ≡ ok t.id)

abbrev file_name : File TaskRecord → String
file_name (ok t) = t.id
file_name (err e) = ""

abbrev IsKeptFile : Project → File TaskRecord → Type 0
IsKeptFile p f = (t : TaskRecord) × (f ≡ ok t) × IsKept p t

collect_lem :
    (p : Project) (fs : List (File TaskRecord))
    → All (IsKeptFile p) fs
    → (ts : List TaskRecord) × (collect fs ≡ ok ts)
      × All (IsKept p) ts
      × ((id : String) → count (λ t. t.id == id) ts ≡ count (λ f. file_name f == id) fs)
collect_lem p [] a = ([], refl, tt, λ id. refl)
collect_lem p (err e ∷ fs) ((t, bad, k), a) = absurd (ground (arith, bad))
collect_lem p (ok t' ∷ fs) ((t, good, k), a) =
    let same : t' ≡ t = ok-injective t' t good in
    let (ts, c, all_kept, counts) = collect_lem p fs a in
    (t' ∷ ts, rw c refl, (subst (IsKept p) (sym same) k, all_kept), λ id. rw (counts id) refl)

pub tasks_of_list :
    (p : Project) (ts : List TaskRecord)
    → p.initialized ≡ true
    → IsOrderly p
    → IsDistinct p.tasks
    → ((name : String) (f : File TaskRecord)
        → get p.tasks name ≡ some f
        → safe_identifier name ≡ ok name)
    → list_tasks p ≡ ok ts
    → All (IsKept p) ts
      × ((id : String) (f : File TaskRecord)
          → get p.tasks id ≡ some f
          → 1 ≤ count (λ t. t.id == id) ts)
unfolding list_tasks
tasks_of_list p ts i o u safe l =
    let before : TaskRecord → TaskRecord → Bool = λ a b. str_less a.id b.id in
    let files = All-values (IsKeptFile p) p.tasks u (λ name f h.
      let file = o name f h in
      (
        file.task,
        file.parses,
        (
          subst (λ n. get p.tasks n ≡ some (ok file.task)) (sym file.named)
              (h ∙ ap some file.parses),
          subst (λ n. safe_identifier n ≡ ok n) (sym file.named) (safe name f h),
        ),
      )) in
    let (found, c, kept, counts) = collect_lem p (values p.tasks) files in
    let sorted : list_tasks p ≡ ok (sort_by before found) =
      rw (list_tasks, checked_ok p i, c) refl in
    let same : sort_by before found ≡ ts =
      ok-injective (sort_by before found) ts (sym sorted ∙ l) in
    (
      subst (All (IsKept p)) same (All-sort_by (IsKept p) before found kept),
      λ id f h.
          subst (λ ys. 1 ≤ count (λ (t : TaskRecord). t.id == id) ys) same
            (let file = o id f h in
              let named : (file_name f == id) ≡ true =
                subst (λ g. (file_name g == id) ≡ true) (sym file.parses)
                  ((eq_iff file.task.id id).1 file.named) in
              let there = one_value (λ g. file_name g == id) p.tasks id f h named in
              omega (arith, there, counts id, count-sort_by before (λ t. t.id == id) found)),
    )
