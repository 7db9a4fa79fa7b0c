-- ===== src/Api/Execute.antt =====
-- A request to execute a job, from the handler to the queue.
use serverust_less.Prelude.{ℤ, pos, String, Option}
use serverust_less.Model.Clock.{Clock}
use serverust_less.Model.Job.{Job}
use serverust_less.Model.Execution.{Execution}
use serverust_less.Model.Execution
use serverust_less.Model.QueueEntry.{QueueEntry}
use serverust_less.Model.QueueEntry
use serverust_less.Model.QueueItem.{QueueItem}
use serverust_less.Queue.{item_of, unwrap_or}
use serverust_less.Executions.Create.{enable}

abbrev pub fresh_item : Clock → String → String → Option ℤ → Option String → Job → QueueItem
fresh_item clock id job_id priority input j =
    item_of (Execution.new clock id job_id input) (enable clock j) (unwrap_or priority (pos 0))
