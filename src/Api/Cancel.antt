-- ===== src/Api/Cancel.antt =====
-- After a cancellation, no worker gets the execution from the queue.
use serverust_less.Prelude.{◌≡◌, Bool, false, String, All, ◌==◌}
use serverust_less.Model.Clock.{Clock}
use serverust_less.Model.Execution.{Execution}
use serverust_less.Model.QueueItem.{QueueItem}
use serverust_less.Model.QueueEntry.{QueueEntry}
use serverust_less.Db.{System}
use serverust_less.Db.QueueRepository.{entry_of}
use serverust_less.Executions

abbrev is_item_of : String → QueueItem → Bool
is_item_of id i = i.execution_id == id

-- Nothing in the queue is of the execution.
record Gone (id : String) (s : System) : Type 0 where
  memory : All (λ i. is_item_of id i ≡ false) s.memory_queue
  table : All (λ e. entry_of id e ≡ false) s.job_queue
