-- ===== src/Jobs.antt =====
-- services/job_service.rs: JobService. `invalid` is the text of the validation errors of a request.
pub mod Names
pub mod Changes
pub mod Unique
use serverust_less.Prelude.{
  ℕ, Bool, true, false, not, ◌&&◌, String, Option, none, some, List, [], ◌∷◌, ◌==◌, str_append,
  if◌then◌else◌,
}
use serverust_less.Action.{Action, AppError, validation, conflict, pure, throw, ◌>>=◌, ◌>>◌, try_or}
use serverust_less.Model.Clock.{Clock}
use serverust_less.Model.Job.{
  Job, CreateJobRequest, UpdateJobRequest, validate_create, validate_update, apply_update,
}
use serverust_less.Model.Job
use serverust_less.Db.{System}
use serverust_less.Db.JobRepository

abbrev pub taken : String → AppError
taken name = conflict (str_append "Job with name '" (str_append name "' already exists"))

-- Fails where a job has the name.
abbrev pub refuse_taken : String → Option String → Action System Unit
refuse_taken name exclude_id = JobRepository.name_exists name exclude_id >>= λ exists.
    if exists then throw (taken name) else pure tt

unfoldable pub create_job : String → Clock → String → CreateJobRequest → Action System Job
unfolding JobRepository.name_exists JobRepository.create
create_job invalid clock id req =
    if not (validate_create req)
    then throw (validation invalid)
    else refuse_taken req.name none >> JobRepository.create (Job.new clock id req)

-- The name is looked up only if it changes.
abbrev pub refuse_renamed : String → Option String → String → Action System Unit
refuse_renamed id none old = pure tt
refuse_renamed id (some name) old =
    if not (name == old) then refuse_taken name (some id) else pure tt

unfoldable pub update_job : String → Clock → String → UpdateJobRequest → Action System Job
unfolding JobRepository.name_exists JobRepository.get_by_id JobRepository.update apply_update
update_job invalid clock id req =
    if not (validate_update req) then throw (validation invalid) else (do
      job ← JobRepository.get_by_id id
      refuse_renamed id req.name job.name
      JobRepository.update (apply_update clock req job))

unfoldable pub delete_job : String → Action System Unit
unfolding JobRepository.delete
delete_job id = JobRepository.delete id

abbrev no_change : UpdateJobRequest
no_change = record {
  name = none;
  description = none;
  python_code = none;
  timeout_seconds = none;
  memory_limit_mb = none;
  use_custom_venv = none;
  venv_id = none;
  priority = none;
  max_retries = none;
  enabled = none;
}

abbrev pub only_enabled : Bool → UpdateJobRequest
only_enabled enabled = record no_change { enabled = some enabled }

abbrev pub only_custom_venv : Bool → UpdateJobRequest
only_custom_venv chosen = record no_change { use_custom_venv = some chosen }

unfoldable pub enable_job : String → Clock → String → Action System Job
unfolding update_job
enable_job invalid clock id = update_job invalid clock id (only_enabled true)

unfoldable pub disable_job : String → Clock → String → Action System Job
unfolding update_job
disable_job invalid clock id = update_job invalid clock id (only_enabled false)

unfoldable pub bulk_delete_jobs : List String → Action System ℕ
unfolding JobRepository.delete_bulk
bulk_delete_jobs ids = JobRepository.delete_bulk ids

abbrev pub clone_name : Option String → Job → String
clone_name none source = str_append source.name " (copy)"
clone_name (some name) source = name

abbrev pub clone_request : String → Job → CreateJobRequest
clone_request name source = record {
  name = name;
  description = source.description;
  python_code = source.python_code;
  timeout_seconds = source.timeout_seconds;
  memory_limit_mb = source.memory_limit_mb;
  use_custom_venv = source.use_custom_venv;
  venv_id = source.venv_id;
  priority = source.priority;
  max_retries = source.max_retries;
}

-- The request is not validated.
unfoldable pub clone_job : Clock → String → String → Option String → Action System Job
unfolding JobRepository.name_exists JobRepository.get_by_id JobRepository.create
clone_job clock new_id id new_name = do
  source ← JobRepository.get_by_id id
  refuse_taken (clone_name new_name source) none
  JobRepository.create (Job.new clock new_id (clone_request (clone_name new_name source) source))

abbrev pub and_job : Job → List Job × List String → List Job × List String
and_job job made = (job ∷ made.0, made.1)

abbrev pub and_error : String → List Job × List String → List Job × List String
and_error text made = (made.0, text ∷ made.1)

-- Each request is served whatever became of those before it: the jobs made, and the errors, in the
-- order of the requests, each of which has its fresh id beside it.
unfoldable pub bulk_create_jobs :
    (AppError → String)
    → (CreateJobRequest → String)
    → Clock
    → List (String × CreateJobRequest)
    → Action System (List Job × List String)
unfolding create_job
bulk_create_jobs message invalid clock [] = pure ([], [])
bulk_create_jobs message invalid clock (r ∷ requests) =
    let rest = bulk_create_jobs message invalid clock requests in
    try_or (create_job (invalid r.1) clock r.0 r.1)
      (λ job. rest >>= λ made. pure (and_job job made))
      (λ e. rest >>= λ made. pure (and_error (message e) made))
