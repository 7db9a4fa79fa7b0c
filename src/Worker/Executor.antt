-- ===== src/Worker/Executor.antt =====
-- worker/executor.rs: the environment and the limits of an item that is run.
use serverust_less.Prelude.{ℕ, ◌-◌, ◌^◌, String, Option, ℤ, pos, negsuc, str_append, if◌then◌else◌}
use serverust_less.Model.QueueItem.{QueueItem}
use serverust_less.Worker.{ExecutionResult}
use serverust_less.Worker.Runner
use serverust_less.Worker.Runner.{Host}

pub record JobExecutor : Type 0 where
  pub runner : Host
  pub main_venv_path : String
  pub custom_venv_base_path : String

abbrev pub get_venv_path : JobExecutor → QueueItem → String
get_venv_path executor item =
    if item.use_custom_venv
    then str_append executor.custom_venv_base_path (str_append "/job-" item.job_id)
    else executor.main_venv_path

-- `as u64`
abbrev pub as_u64 : ℤ → ℕ
as_u64 (pos n) = n
as_u64 (negsuc n) = 2 ^ 64 - 1 - n

module _ (decimal : ℕ → String) (duration_ms : ℤ) (executor : JobExecutor) where
  unfoldable pub execute : QueueItem → ExecutionResult
  unfolding Runner.execute
  execute item =
      Runner.execute decimal duration_ms executor.runner (get_venv_path executor item)
        item.python_code item.input_data (as_u64 item.timeout_seconds) (as_u64 item.memory_limit_mb)

  unfoldable pub execute_with_pid : QueueItem → Option ℕ × ExecutionResult
  unfolding Runner.execute_with_pid
  execute_with_pid item =
      Runner.execute_with_pid decimal duration_ms executor.runner (get_venv_path executor item)
        item.python_code item.input_data (as_u64 item.timeout_seconds) (as_u64 item.memory_limit_mb)
