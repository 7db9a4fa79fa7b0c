-- ===== src/Db/JobRepository.antt =====
-- db/jobs.rs. A deletion cascades to the rows that refer to the job (migrations).
use serverust_less.Prelude.{
  ℕ, Bool, false, not, ◌&&◌, ◌||◌, List, String, Option, none, some, [], ◌∷◌, ◌++◌, map, find, any,
  filter, length, ltb, ◌==◌, str_append, if◌then◌else◌,
}
use serverust_less.Action.{Action, ok, err, ok_or, not_found, db_error}
use serverust_less.Model.Job.{Job}
use serverust_less.Db.State.{System, Db}
use serverust_less.Db.ExecutionRepository.{delete_rows, contains_id}

abbrev pub job_named : String → Job → Bool
job_named id job = job.id == id

abbrev pub job_not_found : String → String
job_not_found id = str_append "Job not found: " id

unfoldable pub get_by_id : String → Action System Job
get_by_id id s = (ok_or (find (job_named id) s.jobs) (not_found (job_not_found id)), s)

unfoldable pub create : Job → Action System Job
unfolding get_by_id
create job s =
    if any (job_named job.id) s.jobs
    then (err (db_error "UNIQUE constraint failed: jobs.id"), s)
    else get_by_id job.id (record s { db = record s.db { jobs = s.jobs ++ job ∷ [] } })

-- The statement writes every column but `id` and `created_at`.
abbrev pub write_job : Job → Job → Job
write_job job row =
    if row.id == job.id then record job { id = row.id; created_at = row.created_at } else row

unfoldable pub update : Job → Action System Job
unfolding get_by_id
update job s =
    if any (job_named job.id) s.jobs
    then get_by_id job.id (record s { db = record s.db { jobs = map (write_job job) s.jobs } })
    else (err (not_found (job_not_found job.id)), s)

-- Jobs of the name, but for the one excluded.
abbrev pub clashes : String → Option String → Job → Bool
clashes name none job = job.name == name
clashes name (some id) job = job.name == name && not (job.id == id)

unfoldable pub name_exists : String → Option String → Action System Bool
name_exists name exclude_id s = (ok (ltb 0 (length (filter (clashes name exclude_id) s.jobs))), s)

unfoldable pub count_all : Action System ℕ
count_all s = (ok (length s.jobs), s)

unfoldable pub count_enabled : Action System ℕ
count_enabled s = (ok (length (filter (λ job. job.enabled) s.jobs)), s)

-- A reference to a job, where there is one.
abbrev pub belongs : (String → Bool) → Option String → Bool
belongs gone none = false
belongs gone (some id) = gone id

-- ON DELETE SET NULL, for the environments that go.
abbrev pub unset_venv : (String → Bool) → Job → Job
unset_venv gone job = record job {
  venv_id = elim job.venv_id [ none ↦ none | some v ↦ if gone v then none else some v ];
}

-- DELETE with its cascades: the executions, queue entries, edges, nodes, schedules, dependencies and
-- environments of the jobs go too, with each execution its queue entry and the references of nodes
-- to it, and with each environment the references of other jobs to it.
abbrev cascade : (String → Bool) → Db → Db
cascade gone db =
    let rest = delete_rows (λ id. any (λ x. x.id == id && gone x.job_id) db.executions) db in
    record rest {
      jobs =
          map (unset_venv (λ id. any (λ v. v.id == id && belongs gone v.job_id) db.venvs))
            (filter (λ job. not (gone job.id)) db.jobs);
      job_queue = filter (λ e. not (gone e.job_id)) rest.job_queue;
      dag_edges =
          filter (λ e. not (gone e.upstream_job_id || gone e.downstream_job_id)) db.dag_edges;
      dag_node_executions = filter (λ n. not (gone n.job_id)) rest.dag_node_executions;
      job_schedules = filter (λ x. not (gone x.job_id)) db.job_schedules;
      job_dependencies = filter (λ d. not (gone d.job_id)) db.job_dependencies;
      venvs = filter (λ v. not (belongs gone v.job_id)) db.venvs;
    }

unfoldable pub delete : String → Action System Unit
delete id s =
    if any (job_named id) s.jobs
    then (ok tt, record s { db = cascade (λ j. j == id) s.db })
    else (err (not_found (job_not_found id)), s)

unfoldable pub delete_bulk : List String → Action System ℕ
delete_bulk [] s = (ok 0, s)
delete_bulk (i ∷ ids) s = (
  ok (length (filter (λ job. contains_id (i ∷ ids) job.id) s.jobs)),
  record s { db = cascade (contains_id (i ∷ ids)) s.db },
)
