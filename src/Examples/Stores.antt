-- ===== src/Examples/Stores.antt =====
-- The ledger, the jobs and the services with a state file.
use ruflo_rust.Prelude.{
  ℕ, ◌-◌, ◌≤◌, ◌<◌, String, ◌≡◌, refl, true, false, Option, none, some, List, [], ◌∷◌, ◌++◌, length,
  ok, err, string_eq, nat_eq, ◌==◌,
}
use ruflo_rust.Dict.{get, empty}
use ruflo_rust.Json.{Value, Fields, null, obj, field, end}
use ruflo_rust.Storage.Spend.{
  fresh_ledger, limit_concurrent, limit_hourly, limit_daily, hour_ms, day_ms, count_active,
  count_since, check, Reading, permit_name, reserve,
}
use ruflo_rust.Storage.Spend.Limits.{
  Op, reserving, releasing, apply_all, apply_all-active, reserve-launches,
}
use ruflo_rust.Storage.Jobs.{Job, Store, is_queued, claim_job, select_job, mark_running, get_job}
use ruflo_rust.Storage.Jobs.Claiming.{claim_job_lem, claim_job-claim_job}
use ruflo_rust.Services.Lease.{new_lease}
use ruflo_rust.Services.Pool
use ruflo_rust.Services.Pool.{active_of, slot, pool_value, others, acquire_lem, release_lem}
use ruflo_rust.Services.Queue.{new_entry, enqueue, dequeue, list, enqueue-dequeue}

abbrev reading : Reading
reading = record { check_ms = 50; name_ms = 50; insert_ms = 51; process = 9 }

abbrev operations : List Op
operations =
    reserving reading "ai" "w" "/p" ∷ reserving reading "ai" "w" "/q" ∷ releasing 60 "p-50-9" ∷ []

apply_all-active_example : count_active (apply_all operations fresh_ledger) ≤ limit_concurrent
apply_all-active_example = apply_all-active operations

reserves : (reserve reading "ai" "w" "/p" fresh_ledger).0 ≡ ok (permit_name reading)
unfolding reserve check get empty
reserves = refl

reserve-launches_example :
    let l' = (reserve reading "ai" "w" "/p" fresh_ledger).1 in
    (count_since l' (50 - hour_ms) ≤ limit_hourly) × (count_since l' (50 - day_ms) ≤ limit_daily)
reserve-launches_example =
    reserve-launches reading "ai" "w" "/p" (permit_name reading) fresh_ledger reserves

abbrev queued : String → ℕ → Job
queued id at = record {
  id = id;
  worker_type = "w";
  payload = "{}";
  status = "queued";
  created_ms = at;
  claimed_ms = none;
  done_ms = none;
}

abbrev store_of : List Job → Store
store_of jobs = record { agents = empty; jobs = jobs; kv = empty }

abbrev running_at : ℕ → Job → Job
running_at now j = record j { status = "running"; claimed_ms = some now }

abbrev waiting : Store
waiting = store_of (queued "job-2" 2 ∷ queued "job-1" 1 ∷ [])

abbrev after_one : Store
after_one = store_of (queued "job-2" 2 ∷ running_at 5 (queued "job-1" 1) ∷ [])

abbrev after_two : Store
after_two = store_of (running_at 6 (queued "job-2" 2) ∷ running_at 5 (queued "job-1" 1) ∷ [])

claims_one : claim_job 5 waiting ≡ (some (queued "job-1" 1), after_one)
unfolding claim_job select_job mark_running
claims_one = refl

claims_two : claim_job 6 after_one ≡ (some (queued "job-2" 2), after_two)
unfolding claim_job select_job mark_running
claims_two = refl

claim_job_lem_example :
    (get_job "job-1" waiting ≡ some (queued "job-1" 1))
    × (is_queued (queued "job-1" 1) ≡ true)
    × ((id : String) (k : Job)
        → get_job id waiting ≡ some k
        → is_queued k ≡ true
        → 1 ≤ k.created_ms)
    × (get_job "job-1" after_one ≡ some (running_at 5 (queued "job-1" 1)))
    × ((id : String) → ("job-1" == id) ≡ false → get_job id after_one ≡ get_job id waiting)
claim_job_lem_example =
    claim_job_lem 5 waiting after_one (queued "job-1" 1) (refl, (refl, tt)) claims_one

claim_job-claim_job_example : ((queued "job-1" 1).id == (queued "job-2" 2).id) ≡ false
claim_job-claim_job_example =
    claim_job-claim_job 5 6 waiting after_one after_two (queued "job-1" 1) (queued "job-2" 2)
      (refl, (refl, tt)) claims_one claims_two

abbrev leases : Fields
leases = field "/p" (new_lease "a" 100 50) end

acquire_lem_example :
    (length (active_of (obj end) "ai") < 2
      → (s : Value) × (Pool.acquire true true "slot-1-1" 5 "ai" 2 (obj end)
          ≡ some (ok (slot "slot-1-1" 5), s))
        × (active_of s "ai" ≡ active_of (obj end) "ai" ++ slot "slot-1-1" 5 ∷ [])
        × (length (active_of s "ai") ≤ 2))
    × (2 ≤ length (active_of (obj end) "ai")
        → (e : String) × (Pool.acquire true true "slot-1-1" 5 "ai" 2 (obj end)
            ≡ some (err e, obj end)))
acquire_lem_example = acquire_lem "slot-1-1" 5 "ai" 2 end

abbrev pools : Fields
pools = field "ai" (pool_value (slot "slot-1-1" 5 ∷ slot "slot-1-2" 6 ∷ []) 2) end

enqueue-dequeue_example :
    ((s : Value) × (enqueue true true "wq-1-1" 5 null (obj end)
        ≡ some (new_entry "wq-1-1" 5 null, s))
      × (list s ≡ list (obj end) ++ new_entry "wq-1-1" 5 null ∷ []))
    × ((o : Option Value) × (s : Value) × (dequeue true true (obj end) ≡ some (o, s))
        × (list (obj end) ≡ elim o [ none ↦ list s | some t ↦ t ∷ list s ])
        × (o ≡ none → list (obj end) ≡ []))
enqueue-dequeue_example = enqueue-dequeue "wq-1-1" 5 null end
