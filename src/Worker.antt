-- ===== src/Worker.antt =====
-- worker/pool.rs: one turn of a worker's loop, split where the Python process runs. The process
-- itself is outside: its result is an argument. Log rows, whose errors the loop ignores, are left
-- out, and the registration with the ProcessManager changes no table.
pub mod Results
pub mod History
pub mod Keeps
pub mod Turns
pub mod Retries
pub mod Cancelled
pub mod Selected
pub mod Runner
pub mod Executor
use serverust_less.Prelude.{
  Bool, true, false, String, Option, none, some, ℤ, pos, ◌==◌, str_append, if◌then◌else◌,
}
use serverust_less.Action.{Action, Result, ok, err, pure, ◌>>=◌, ◌>>◌, try_or}
use serverust_less.Model.Clock.{Clock}
use serverust_less.Model.ExecutionStatus.{ExecutionStatus, as_str}
use serverust_less.Model.Execution.{Execution}
use serverust_less.Model.QueueItem.{QueueItem}
use serverust_less.Db.{System}
use serverust_less.Db.ExecutionRepository
use serverust_less.Db.JobRepository
use serverust_less.Queue.{
  QueueManager, dequeue, mark_execution_completed, mark_execution_failed, mark_failed_with_retry,
}

-- ExecutionResult of worker/python_runner.rs; `exit_code` is the text that `{:?}` gives.
pub record ExecutionResult : Type 0 where
  pub success : Bool
  pub stdout : String
  pub stderr : String
  pub exit_code : String
  pub duration_ms : ℤ
  pub timed_out : Bool
  pub memory_exceeded : Bool

-- What the cancel branch of `select!` reports.
abbrev pub cancelled_result : ExecutionResult
cancelled_result = record {
  success = false;
  stdout = "";
  stderr = "Execution was cancelled";
  exit_code = "None";
  duration_ms = pos 0;
  timed_out = false;
  memory_exceeded = false;
}

abbrev pub run_as : Clock → String → Execution → Execution
run_as clock worker e = record e {
  status = as_str ExecutionStatus.running;
  started_at = some clock.rfc3339;
  worker_id = some worker;
}

unfoldable pub set_execution_running : Clock → String → String → Action System Unit
unfolding ExecutionRepository.get_by_id ExecutionRepository.update
set_execution_running clock exec_id worker = do
  execution ← ExecutionRepository.get_by_id exec_id
  ExecutionRepository.update (run_as clock worker execution) >> pure tt

abbrev pub finish_as :
    Clock → ExecutionStatus → Option String → Option String → ℤ → Execution → Execution
finish_as clock status error_msg output duration_ms e = record e {
  status = as_str status;
  completed_at = some clock.rfc3339;
  duration_ms = some duration_ms;
  output_data = output;
  error_message = error_msg;
}

unfoldable pub finalize_execution :
    Clock → String → ExecutionStatus → Option String → Option String → ℤ → Action System Unit
unfolding ExecutionRepository.get_by_id ExecutionRepository.update
finalize_execution clock exec_id status error_msg output duration_ms = do
  execution ← ExecutionRepository.get_by_id exec_id
  ExecutionRepository.update (finish_as clock status error_msg output duration_ms execution)
      >> pure tt

-- The final status and the error message.
unfoldable pub outcome : ExecutionResult → ExecutionStatus × Option String
outcome r =
    if r.timed_out
    then (ExecutionStatus.timeout, some "Execution timed out")
    else if r.memory_exceeded
    then (ExecutionStatus.failed, some "Memory limit exceeded")
    else if r.success
    then (ExecutionStatus.success, none)
    else (
      ExecutionStatus.failed,
      some (if r.stderr == "" then str_append "Exit code: " r.exit_code else r.stderr),
    )

-- Errors that the loop only logs.
abbrev pub ignore {ℓ} : {A : Type ℓ} → (System → Result A × System) → System → System
ignore m s = (m s).1

abbrev pub is_success : ExecutionStatus → Bool
is_success ExecutionStatus.success = true
is_success _ = false

-- The first half: dequeue and mark as running. `none` is "no work", or a turn given up.
unfoldable pub start : Clock → String → Action System (Option QueueItem)
unfolding dequeue set_execution_running mark_execution_failed
start clock worker =
    try_or (dequeue clock)
      (λ found. elim found [
        | none ↦ pure none
        | some item ↦
            try_or (set_execution_running clock item.execution_id worker) (λ _. pure (some item))
              (λ _.
                try_or (mark_execution_failed clock item.execution_id) (λ _. pure none)
                  (λ _. pure none))
      ])
      (λ _. pure none)

-- A result is not written over an execution that was cancelled meanwhile.
unfoldable pub write_result : Clock → String → ExecutionResult → System → System
unfolding ExecutionRepository.get_by_id finalize_execution outcome
write_result clock exec_id r s =
    let (status, error_msg) = outcome r in
    let written =
      ignore
        (finalize_execution clock exec_id status error_msg
          (if r.success then some r.stdout else none) r.duration_ms)
        s in
    elim (ExecutionRepository.get_by_id exec_id s).0 [
      | err _ ↦ written
      | ok current ↦ if current.status == as_str ExecutionStatus.cancelled then s else written
    ]

unfoldable pub retry_count_of : String → System → ℤ
unfolding ExecutionRepository.get_by_id
retry_count_of exec_id s = elim (ExecutionRepository.get_by_id exec_id s).0 [
  | err _ ↦ pos 0
  | ok exec ↦ exec.retry_count
]

unfoldable pub max_retries_of : String → System → Option ℤ
unfolding ExecutionRepository.get_by_id JobRepository.get_by_id
max_retries_of exec_id s = elim (ExecutionRepository.get_by_id exec_id s).0 [
  | err _ ↦ none
  | ok exec ↦ elim (JobRepository.get_by_id exec.job_id s).0 [
    | err _ ↦ none
    | ok job ↦ some job.max_retries
  ]
]

module _ (qm : QueueManager) where
  -- For failures: re-queue after a delay, or move to the dead letter queue.
  unfoldable pub update_queue_entry : Clock → String → ExecutionResult → System → System
  unfolding outcome mark_execution_completed mark_failed_with_retry retry_count_of max_retries_of
  update_queue_entry clock exec_id r s =
      if is_success (outcome r).0
      then ignore (mark_execution_completed clock exec_id) s
      else ignore
          (mark_failed_with_retry qm clock exec_id (retry_count_of exec_id s)
            (max_retries_of exec_id s))
          s

  -- The second half. `on_complete` is the DAG engine's callback, if there is an engine.
  unfoldable pub finish :
      Option (String → Action System Unit) → Clock → String → ExecutionResult → System → System
  unfolding write_result update_queue_entry
  finish on_complete clock exec_id r s =
      let s' = update_queue_entry clock exec_id r (write_result clock exec_id r s) in
      elim on_complete [ none ↦ s' | some callback ↦ ignore (callback exec_id) s' ]
