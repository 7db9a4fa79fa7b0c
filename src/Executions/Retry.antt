-- ===== src/Executions/Retry.antt =====
-- Which executions can be retried by hand, and how often.
use serverust_less.Prelude.{ℤ, leb_ℤ, Bool, not, ◌&&◌, String, Option}
use serverust_less.Model.Clock.{Clock}
use serverust_less.Model.Job.{Job}
use serverust_less.Model.Execution.{Execution, status_enum}
use serverust_less.Executions.{is_retriable}

module _ (reparse : String → Option String) (show : ℤ → String) where
  abbrev pub may_retry : Execution → Job → Bool
  may_retry e j = is_retriable (status_enum e) && not (leb_ℤ j.max_retries e.retry_count)
