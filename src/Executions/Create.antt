-- ===== src/Executions/Create.antt =====
-- The creation of an execution: the job is enabled, and a fresh pending row is put last.
use serverust_less.Prelude.{
  ◌≡◌, true, false, String, Option, some, List, [], ◌∷◌, ◌++◌, find, map, any, arith, if◌then◌else◌,
  eq_refl, eq_iff, ap, find-update, find-eq-some, find-append_missing, any_of_find,
}
use serverust_less.Action.{ok}
use serverust_less.Model.Clock.{Clock}
use serverust_less.Model.Job.{Job}
use serverust_less.Model.Execution.{Execution}
use serverust_less.Model.Execution
use serverust_less.Db.{System}
use serverust_less.Db.JobRepository.{job_named, write_job, update, get_by_id}
use serverust_less.Db.ExecutionRepository.{execution_named, create}
use serverust_less.Executions.{create_execution, enabled_job}

abbrev pub enabled_row : Clock → Job → Job
enabled_row clock j = record j { enabled = true; updated_at = clock.rfc3339 }

abbrev pub enable : Clock → Job → Job
enable clock j = if j.enabled then j else enabled_row clock j

abbrev pub enable_rows : Clock → Job → List Job → List Job
enable_rows clock j rows = if j.enabled then rows else map (write_job (enabled_row clock j)) rows

pub job-id :
    (id : String) (rows : List Job) {j : Job} → find (job_named id) rows ≡ some j → j.id ≡ id
job-id id rows {j} found = (eq_iff _ _).0 (find-eq-some (job_named id) rows found)

find-write_job :
    (clock : Clock) (id : String) (rows : List Job) {j : Job}
    → find (job_named id) rows ≡ some j
    → find (job_named id) (map (write_job (enabled_row clock j)) rows) ≡ some (enabled_row clock j)
find-write_job clock id rows {j} found = ground (
  arith,
  found,
  find-update (λ j. j.id) (write_job (enabled_row clock j)) (λ a. ground arith) id rows,
  eq_refl j.id,
)

pub find-enable :
    (clock : Clock) (id : String) (rows : List Job) {j : Job}
    → find (job_named id) rows ≡ some j
    → find (job_named id) (enable_rows clock j rows) ≡ some (enable clock j)
find-enable clock id rows {j} found = ground (arith, found, find-write_job clock id rows found)

enabled_job-run :
    (clock : Clock) (id : String) (s : System) {j : Job}
    → find (job_named id) s.jobs ≡ some j
    → enabled_job clock j s
      ≡ (ok (enable clock j), record s { db = record s.db { jobs = enable_rows clock j s.jobs } })
unfolding update get_by_id
enabled_job-run clock id s {j} found = ground (
  arith,
  any_of_find (job_named id) s.jobs found,
  ap (λ t. any (job_named t) s.jobs) (job-id id s.jobs found),
  ap (λ t. find (job_named t) (map (write_job (enabled_row clock j)) s.jobs))
      (job-id id s.jobs found),
  find-write_job clock id s.jobs found,
)

abbrev pub created : Clock → String → String → Option String → Job → System → System
created clock id job_id input j s = record s {
  db = record s.db {
    jobs = enable_rows clock j s.jobs;
    executions = s.executions ++ Execution.new clock id job_id input ∷ [];
  };
}

-- With an unused id and a job that exists, the creation succeeds.
pub create_execution-run :
    (clock : Clock) (id job_id : String) (input : Option String) (s : System) {j : Job}
    → find (job_named job_id) s.jobs ≡ some j
    → any (execution_named id) s.executions ≡ false
    → create_execution clock id job_id input s
      ≡ (ok (Execution.new clock id job_id input), created clock id job_id input j s)
unfolding create_execution create get_by_id
create_execution-run clock id job_id input s {j} found fresh = ground (
  arith,
  found,
  enabled_job-run clock job_id s found,
  fresh,
  any_of_find (job_named job_id) _ (find-enable clock job_id s.jobs found),
  find-append_missing (execution_named id) s.executions (Execution.new clock id job_id input ∷ [])
      fresh,
  eq_refl id,
)
