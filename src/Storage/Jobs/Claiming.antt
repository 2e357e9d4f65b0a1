-- ===== src/Storage/Jobs/Claiming.antt =====
-- Jobs go from the queue to one claimant each, in the order of their creation; and what happens
-- when two claimants run at the same time.
use ruflo_rust.Prelude.{
  ◌∙◌, sym, subst, ap, Bool-cases, beq_self, ℕ, ◌≤◌, String, ◌≡◌, refl, Bool, true, false, not,
  ◌&&◌, none, some, List, [], ◌∷◌, any, find, arith, ltb, string_eq, eq_iff, ◌==◌, if◌then◌else◌,
  Option-cases, inl, inr,
}
use ruflo_rust.Storage.Jobs.{
  Job, Store, is_queued, oldest, select_job, update_job, mark_running, claim_job, get_job,
}

abbrev pub has_id : String → Job → Bool
has_id id j = j.id == id

-- No two rows have the same identifier.
abbrev pub Keyed : List Job → Type 0
Keyed [] = Unit
Keyed (j ∷ js) = (any (has_id j.id) js ≡ false) × Keyed js

oldest-none :
    (js : List Job) (id : String) (k : Job)
    → oldest js ≡ none
    → find (has_id id) js ≡ some k
    → is_queued k ≡ false
oldest-none [] id k h f = cc
oldest-none (j ∷ js) id k h f = elim (Option-cases (oldest js)) [
  | inl e ↦ ground (arith, oldest-none js id k e)
  | inr (i, e) ↦ absurd (ground arith)
]

oldest_queued : (js : List Job) (j : Job) → oldest js ≡ some j → is_queued j ≡ true
oldest_queued [] j h = cc
oldest_queued (k ∷ js) j h = elim (Option-cases (oldest js)) [
  | inl e ↦ ground arith
  | inr (i, e) ↦ ground (arith, oldest_queued js i e)
]

find-any :
    (js : List Job) (id : String) (j : Job)
    → find (has_id id) js ≡ some j
    → any (has_id id) js ≡ true
find-any [] id j h = cc
find-any (k ∷ js) id j h = ground (arith, find-any js id j)

oldest_found :
    (js : List Job) (j : Job) → Keyed js → oldest js ≡ some j → find (has_id j.id) js ≡ some j
oldest_found [] j v h = cc
oldest_found (k ∷ js) j v h = elim (Option-cases (oldest js)) [
  | inl e ↦ let same : k ≡ j = ground arith in ground (arith, same, beq_self k.id)
  | inr (i, e) ↦
      let there = oldest_found js i v.1 e in
      let known = find-any js i.id i there in
      elim (Bool-cases (is_queued k && not (ltb i.created_ms k.created_ms))) [
        | inl q ↦ let same : k ≡ j = ground arith in ground (arith, same, beq_self k.id)
        | inr q ↦
            let same : i ≡ j = ground arith in
            let new : (k.id == i.id) ≡ false = elim (Bool-cases (k.id == i.id)) [
              | inl x ↦
                  absurd
                    (let y : k.id ≡ i.id = (eq_iff k.id i.id).0 x in ground (arith, v.0, y, known))
              | inr x ↦ x
            ] in
            subst (λ x. find (has_id x.id) (k ∷ js) ≡ some x) same (rw new there)
      ]
]

oldest_least :
    (js : List Job) (id : String) (j k : Job)
    → oldest js ≡ some j
    → find (has_id id) js ≡ some k
    → is_queued k ≡ true
    → j.created_ms ≤ k.created_ms
oldest_least [] id j k h f q = cc
oldest_least (i ∷ js) id j k h f q = elim (Option-cases (oldest js)) [
  | inl e ↦ ground (arith, oldest-none js id k e)
  | inr (o, e) ↦ ground (arith, oldest_least js id o k e)
]

find-update_job :
    (js : List Job) (id : String) (f : Job → Job) (j : Job)
    → find (has_id id) js ≡ some j
    → (f j).id ≡ id
    → find (has_id id) (update_job id f js) ≡ some (f j)
find-update_job [] id f j h e = cc
find-update_job (k ∷ js) id f j h e = elim (Bool-cases (k.id == id)) [
  | inl x ↦
      let same : j ≡ k = ground arith in
      let e' : ((f k).id == id) ≡ true =
        (eq_iff (f k).id id).1 (ap (λ y. (f y).id) (sym same) ∙ e) in
      rw (x, e', same) refl
  | inr x ↦ rw (x, x) (find-update_job js id f j (ground arith) e)
]

find-update_job_ne :
    (js : List Job) (id other : String) (f : Job → Job)
    → (id == other) ≡ false
    → ((j : Job) → (f j).id ≡ j.id)
    → find (has_id other) (update_job id f js) ≡ find (has_id other) js
find-update_job_ne [] id other f ne e = refl
find-update_job_ne (k ∷ js) id other f ne e = elim (Bool-cases (k.id == id)) [
  | inl x ↦
      let same : k.id ≡ id = (eq_iff k.id id).0 x in
      rw (x, e k, same, ne) (find-update_job_ne js id other f ne e)
  | inr x ↦
      rw x (ap (λ l. if k.id == other then some k else l) (find-update_job_ne js id other f ne e))
]

abbrev running : ℕ → Job → Job
running now j = record j { status = "running"; claimed_ms = some now }

claimed :
    (now : ℕ) (s s' : Store) (j : Job)
    → claim_job now s ≡ (some j, s')
    → (oldest s.jobs ≡ some j) × (s'.jobs ≡ update_job j.id (running now) s.jobs)
unfolding claim_job select_job mark_running
claimed now s s' j h = elim (Option-cases (oldest s.jobs)) [
  | inl e ↦ absurd (ground arith)
  | inr (i, e) ↦ (ground arith, ground arith)
]

-- A claim takes the oldest queued job: the job was queued, every queued job was created no earlier,
-- it is running after the claim, and the other jobs are as before.
pub claim_job_lem :
    (now : ℕ) (s s' : Store) (j : Job)
    → Keyed s.jobs
    → claim_job now s ≡ (some j, s')
    → (get_job j.id s ≡ some j)
      × (is_queued j ≡ true)
      × ((id : String) (k : Job)
          → get_job id s ≡ some k
          → is_queued k ≡ true
          → j.created_ms ≤ k.created_ms)
      × (get_job j.id s' ≡ some (record j { status = "running"; claimed_ms = some now }))
      × ((id : String) → (j.id == id) ≡ false → get_job id s' ≡ get_job id s)
unfolding claim_job select_job mark_running get_job
claim_job_lem now s s' j v h =
    let (e, after) = claimed now s s' j h in
    let there = oldest_found s.jobs j v e in
    (
      there,
      oldest_queued s.jobs j e,
      λ id k f q. oldest_least s.jobs id j k e f q,
      ap (λ l. find (has_id j.id) l) after ∙ find-update_job s.jobs j.id (running now) j there refl,
      λ id ne.
          ap (λ l. find (has_id id) l) after
          ∙ find-update_job_ne s.jobs j.id id (running now) ne (λ k. refl),
    )

any-update_job :
    (js : List Job) (id other : String) (f : Job → Job)
    → ((j : Job) → (f j).id ≡ j.id)
    → any (has_id other) (update_job id f js) ≡ any (has_id other) js
any-update_job [] id other f e = refl
any-update_job (k ∷ js) id other f e = ground (arith, e k, any-update_job js id other f e)

update_job-Keyed :
    (js : List Job) (id : String) (f : Job → Job)
    → ((j : Job) → (f j).id ≡ j.id)
    → Keyed js
    → Keyed (update_job id f js)
update_job-Keyed [] id f e v = tt
update_job-Keyed (k ∷ js) id f e v = (
  elim (Bool-cases (k.id == id)) [
    | inl x ↦ rw (x, e k, any-update_job js id k.id f e) v.0
    | inr x ↦ rw (x, any-update_job js id k.id f e) v.0
  ],
  update_job-Keyed js id f e v.1,
)

-- A job is given to one claimant: of two claims, each of which runs to its end, the second gets
-- another job.
pub claim_job-claim_job :
    (t u : ℕ) (s s' s'' : Store) (j k : Job)
    → Keyed s.jobs
    → claim_job t s ≡ (some j, s')
    → claim_job u s' ≡ (some k, s'')
    → (j.id == k.id) ≡ false
unfolding get_job
claim_job-claim_job t u s s' s'' j k v h i =
    let first = claim_job_lem t s s' j v h in
    let keyed =
      subst Keyed (sym (claimed t s s' j h).1)
        (update_job-Keyed s.jobs j.id (running t) (λ x. refl) v) in
    let second = claim_job_lem u s' s'' k keyed i in
    elim (Bool-cases (j.id == k.id)) [
      | inl e ↦
          let same : j.id ≡ k.id = (eq_iff j.id k.id).0 e in
          let got : some (running t j) ≡ some k =
            sym first.3 ∙ ap (λ x. find (has_id x) s'.jobs) same ∙ second.0 in
          let still : false ≡ true =
            ap (λ o. elim o [ none ↦ true | some x ↦ is_queued x ]) got ∙ second.1 in
          absurd (ground (arith, still))
      | inr e ↦ e
    ]
