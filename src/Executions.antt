-- ===== src/Executions.antt =====
-- services/execution_service.rs: ExecutionService. The log rows are left out.
pub mod Cancel
pub mod Create
pub mod Retry
use serverust_less.Prelude.{
  ℕ, ℤ, pos, ◌+ℤ◌, Bool, true, false, not, String, Option, none, some, List, leb_ℤ, str_append,
  if◌then◌else◌, clamp_ℤ, max_ℤ,
}
use serverust_less.Action.{Action, bad_request, pure, throw, ◌>>=◌, ◌>>◌}
use serverust_less.Model.Clock.{Clock}
use serverust_less.Model.Job.{Job}
use serverust_less.Model.ExecutionStatus.{ExecutionStatus}
use serverust_less.Model.ExecutionStatus
use serverust_less.Model.Execution.{Execution, status_enum, mark_cancelled}
use serverust_less.Model.Execution
use serverust_less.Db.{System}
use serverust_less.Db.ExecutionRepository
use serverust_less.Db.JobRepository

-- The job is enabled if it was not.
abbrev pub enabled_job : Clock → Job → Action System Job
enabled_job clock job =
    if not job.enabled
    then JobRepository.update (record job { enabled = true; updated_at = clock.rfc3339 })
    else pure job

-- The fresh identifier is an argument, as are the input and the other fields of a request.
unfoldable pub create_execution : Clock → String → String → Option String → Action System Execution
unfolding JobRepository.get_by_id JobRepository.update ExecutionRepository.create
create_execution clock id job_id input_data = do
  job ← JobRepository.get_by_id job_id
  enabled_job clock job
  ExecutionRepository.create (Execution.new clock id job_id input_data)

abbrev pub cannot : String → String → String
cannot what status =
    str_append "Cannot "
      (str_append what (str_append " execution with status '" (str_append status "'")))

unfoldable pub cancel_execution : Clock → String → Action System Execution
unfolding ExecutionRepository.get_by_id ExecutionRepository.update status_enum
cancel_execution clock id = do
  execution ← ExecutionRepository.get_by_id id
  elim (status_enum execution) [
    | ExecutionStatus.pending ↦ ExecutionRepository.update (mark_cancelled clock execution)
    | ExecutionStatus.queued ↦ ExecutionRepository.update (mark_cancelled clock execution)
    | ExecutionStatus.running ↦ ExecutionRepository.update (mark_cancelled clock execution)
    | _ ↦ throw (bad_request (cannot "cancel" execution.status))
  ]

abbrev pub is_retriable : ExecutionStatus → Bool
is_retriable ExecutionStatus.failed = true
is_retriable ExecutionStatus.timeout = true
is_retriable ExecutionStatus.cancelled = true
is_retriable _ = false

-- `reparse` is serde_json: the text of the value that a text holds, if it holds one. `show` writes
-- a number.
abbrev pub retry_input : (String → Option String) → Option String → Option String
retry_input reparse none = none
retry_input reparse (some text) = reparse text

abbrev pub retry_of : (String → Option String) → Clock → String → Execution → Execution
retry_of reparse clock new_id execution =
    record (Execution.new clock new_id execution.job_id
      (retry_input reparse execution.input_data)) { retry_count = execution.retry_count +ℤ pos 1 }

abbrev pub exhausted : (ℤ → String) → Job → String
exhausted show job =
    str_append "Execution has reached maximum retry count (" (str_append (show job.max_retries) ")")

module _ (reparse : String → Option String) (show : ℤ → String) where
  unfoldable pub retry_execution : Clock → String → String → Action System Execution
  unfolding ExecutionRepository.get_by_id ExecutionRepository.create JobRepository.get_by_id
      status_enum
  retry_execution clock new_id id = do
    execution ← ExecutionRepository.get_by_id id
    if not (is_retriable (status_enum execution))
        then throw (bad_request (cannot "retry" execution.status))
        else (do
          job ← JobRepository.get_by_id execution.job_id
          if leb_ℤ job.max_retries execution.retry_count
              then throw (bad_request (exhausted show job))
              else ExecutionRepository.create (retry_of reparse clock new_id execution))

unfoldable pub delete_execution : String → Action System Unit
unfolding ExecutionRepository.delete
delete_execution id = ExecutionRepository.delete id

unfoldable pub delete_executions : List String → Action System ℕ
unfolding ExecutionRepository.delete_bulk
delete_executions ids = ExecutionRepository.delete_bulk ids

-- The page that a listing asks the table for.
abbrev pub page_limit : ℤ → ℤ
page_limit limit = clamp_ℤ limit (pos 1) (pos 100)

abbrev pub page_offset : ℤ → ℤ
page_offset offset = max_ℤ offset (pos 0)
