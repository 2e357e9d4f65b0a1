-- ===== src/Storage/Jobs.antt =====
-- `ApplianceStore`: rows of agents, of jobs and of settings.
pub mod Agents
pub mod Claiming
use ruflo_rust.Prelude.{
  str_less, sort_by, ℕ, String, Bool, true, false, not, ◌&&◌, Option, none, some, List, [], ◌∷◌,
  ◌++◌, map, any, find, Result, ok, err, format, decimal, ltb, string_eq, ◌==◌, if◌then◌else◌,
}
use ruflo_rust.Types.{RufloError, invalid_input}
use ruflo_rust.Dict.{Dict, get, put, empty}
use ruflo_rust.Dict.Listing.{values}

-- The columns that `AgentRow` has; no code reads the other two.
pub record AgentRow : Type 0 where
  pub id : String
  pub agent_type : String
  pub status : String
  pub role : String
  pub heartbeat_ms : ℕ

-- A row of `appliance_jobs`; `JobRow` is its first four columns.
pub record Job : Type 0 where
  pub id : String
  pub worker_type : String
  pub payload : String
  pub status : String
  pub created_ms : ℕ
  pub claimed_ms : Option ℕ
  pub done_ms : Option ℕ

pub record Store : Type 0 where
  pub agents : Dict String AgentRow
  pub jobs : List Job
  pub kv : Dict String String

abbrev pub fresh_store : Store
fresh_store = record { agents = empty; jobs = []; kv = empty }

unfoldable pub upsert_agent : AgentRow → Store → Store
upsert_agent row s = record s { agents = put s.agents row.id row }

unfoldable pub get_agent : String → Store → Option AgentRow
get_agent id s = get s.agents id

unfoldable pub clear_agents : Store → Store
clear_agents s = record s { agents = empty }

-- `ORDER BY id`
unfoldable pub list_agents : Store → List AgentRow
list_agents s = sort_by (λ a b. str_less a.id b.id) (values s.agents)

abbrev pub job_id : ℕ → String
job_id now = format ("job-" ∷ decimal now ∷ [])

-- `name_ms` is the clock's reading for the identifier, and `now` the one for the row.
unfoldable pub enqueue_job : ℕ → ℕ → String → String → Store → Result String RufloError × Store
enqueue_job name_ms now worker_type payload s =
    if any (λ j. j.id == job_id name_ms) s.jobs
    then (
      err (invalid_input "appliance.job.enqueue" "UNIQUE constraint failed: appliance_jobs.id"),
      s,
    )
    else (
      ok (job_id name_ms),
      record s {
        jobs =
            s.jobs
            ++ record {
              id = job_id name_ms;
              worker_type = worker_type;
              payload = payload;
              status = "queued";
              created_ms = now;
              claimed_ms = none;
              done_ms = none;
            }
              ∷ [];
      },
    )

abbrev pub is_queued : Job → Bool
is_queued j = j.status == "queued"

-- `WHERE status = 'queued' ORDER BY created_ms ASC LIMIT 1`; of rows that were created at the same
-- time, the first.
abbrev pub oldest : List Job → Option Job
oldest [] = none
oldest (j ∷ js) =
    let rest = oldest js in
    if is_queued j
    then elim rest [
      | none ↦ some j
      | some k ↦ if ltb k.created_ms j.created_ms then some k else some j
    ]
    else rest

-- The first statement of `claim_job`.
unfoldable pub select_job : Store → Option Job
select_job s = oldest s.jobs

abbrev pub update_job : String → (Job → Job) → List Job → List Job
update_job id f [] = []
update_job id f (j ∷ js) = (if j.id == id then f j else j) ∷ update_job id f js

-- The second.
unfoldable pub mark_running : ℕ → String → Store → Store
mark_running now id s = record s {
  jobs = update_job id (λ j. record j { status = "running"; claimed_ms = some now }) s.jobs;
}

unfoldable pub claim_job : ℕ → Store → Option Job × Store
unfolding select_job mark_running
claim_job now s = elim (select_job s) [
  | none ↦ (none, s)
  | some j ↦ (some j, mark_running now j.id s)
]

unfoldable pub get_job : String → Store → Option Job
get_job id s = find (λ j. j.id == id) s.jobs

unfoldable pub finish_job : ℕ → String → Bool → Store → Store
finish_job now id done s = record s {
  jobs =
      update_job id
        (λ j. record j { status = if done then "done" else "failed"; done_ms = some now }) s.jobs;
}

unfoldable pub put_kv : String → String → Store → Store
put_kv key value s = record s { kv = put s.kv key value }

unfoldable pub get_kv : String → Store → Option String
get_kv key s = get s.kv key
