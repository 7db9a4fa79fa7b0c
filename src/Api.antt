-- ===== src/Api.antt =====
-- The handlers of api/executions.rs that combine services. Cancelling also signals the process,
-- which changes no table; the response is the value of the action.
use serverust_less.Prelude.{String, Option, none, some, ℤ, pos, str_append}
use serverust_less.Action.{Action, AppError, internal, pure, throw, map_err, ◌>>=◌, ◌>>◌, try_or}
use serverust_less.Model.Clock.{Clock}
use serverust_less.Model.Execution.{Execution}
use serverust_less.Db.{System}
use serverust_less.Db.JobRepository
use serverust_less.Queue.{QueueManager, enqueue, remove, item_of, unwrap_or}
use serverust_less.Executions
use serverust_less.Executions.{create_execution}
pub mod Cancel
pub mod Execute
pub mod Packages
pub mod Venvs
pub mod Jobs

-- The handler's errors are ignored once the execution is cancelled.
unfoldable pub cancel_execution : Clock → String → Action System Execution
unfolding Executions.cancel_execution remove
cancel_execution clock id = do
  execution ← Executions.cancel_execution clock id
  try_or (remove id) (λ _. pure execution) (λ _. pure execution)

-- `message` is the `Display` of an error.
module _ (message : AppError → String) (qm : QueueManager) where
  abbrev pub failed_to : String → AppError → AppError
  failed_to what e = internal (str_append what (message e))

  unfoldable pub execute_job :
      Clock → String → String → String → Option ℤ → Option String → Action System Execution
  unfolding create_execution JobRepository.get_by_id enqueue
  execute_job clock id entry_id job_id priority input_data = do
    execution ← create_execution clock id job_id input_data
    job ← JobRepository.get_by_id job_id
    map_err (failed_to "Failed to enqueue execution: ")
        (enqueue qm clock entry_id (item_of execution job (unwrap_or priority (pos 0))))
    pure execution

  unfoldable pub retry_execution :
      (String → Option String)
      → (ℤ → String)
      → Clock
      → String
      → String
      → String
      → Action System Execution
  unfolding Executions.retry_execution JobRepository.get_by_id enqueue
  retry_execution reparse show clock new_id entry_id id = do
    execution ← Executions.retry_execution reparse show clock new_id id
    job ← JobRepository.get_by_id execution.job_id
    map_err (failed_to "Failed to enqueue retry: ")
        (enqueue qm clock entry_id (item_of execution job job.priority))
    pure execution
