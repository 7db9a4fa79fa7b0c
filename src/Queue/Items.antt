-- ===== src/Queue/Items.antt =====
-- What an item is made of, and what the queue's operations leave as it was.
use serverust_less.Prelude.{
  ◌≡◌, String, some, List, [], find, arith, ℤ, ap, map, find-update, Option-cases, inl, inr,
}
use mathlib.Core.Option
use serverust_less.Db.QueueRepository.{entry_of, write_entry}
use serverust_less.Model.Clock.{Clock}
use serverust_less.Model.Execution.{Execution}
use serverust_less.Model.Job.{Job}
use serverust_less.Model.QueueEntry.{QueueEntry}
use serverust_less.Db.{System}
use serverust_less.Db.ExecutionRepository.{execution_named}
use serverust_less.Db.JobRepository.{job_named}
use serverust_less.Queue.{dequeue, dequeue_overflow, load_item, item_of, mark}
use serverust_less.Queue.Heap.{pop, pop-nil}

-- The rows of an execution and of its job.
pub record Known (s : System) (id : String) (x : Execution) (j : Job) : Type 0 where
  pub execution : find (execution_named id) s.executions ≡ some x
  pub job : find (job_named x.job_id) s.jobs ≡ some j

pub load_item-Known :
    {s : System} {id : String} {x : Execution} {j : Job} (priority : Job → ℤ)
    → Known s id x j
    → load_item id priority s ≡ some (item_of x j (priority j))
unfolding load_item
load_item-Known {s} {id} {x} {j} priority known = ground (arith, known.execution, known.job)

pub dequeue_empty :
    (clock : Clock) (s : System) → s.memory_queue ≡ [] → dequeue clock s ≡ dequeue_overflow clock s
unfolding dequeue
dequeue_empty clock s empty = ground (arith, pop-nil, ap pop empty)

pub mark-executions :
    (change : QueueEntry → QueueEntry) (id : String) (s : System)
    → ((mark change id s).1.executions ≡ s.executions) × ((mark change id s).1.jobs ≡ s.jobs)
unfolding mark
mark-executions change id s = (ground arith, ground arith)

pub dequeue_overflow-memory :
    (clock : Clock) (s : System) → (dequeue_overflow clock s).1.memory_queue ≡ s.memory_queue
unfolding dequeue_overflow
dequeue_overflow-memory clock s = ground arith

-- Dequeueing writes neither executions nor jobs.
pub dequeue-executions :
    (clock : Clock) (s : System)
    → ((dequeue clock s).1.executions ≡ s.executions) × ((dequeue clock s).1.jobs ≡ s.jobs)
unfolding dequeue dequeue_overflow mark
dequeue-executions clock s = (ground arith, ground arith)

-- Writing the entry of an execution back changes what is found under that execution.
find-write_entry :
    (id : String) (x : QueueEntry) (rows : List QueueEntry)
    → find (entry_of id) (map (write_entry x) rows)
      ≡ Option.map (write_entry x) (find (entry_of id) rows)
find-write_entry id x rows =
    find-update (λ e. e.execution_id) (write_entry x) (λ e. ground arith) id rows

-- A change that keeps the id and writes only the columns that an update writes.
pub find-mark :
    (change : QueueEntry → QueueEntry) (id : String) (s : System)
    → ((e : QueueEntry) → write_entry (change e) e ≡ change e)
    → find (entry_of id) (mark change id s).1.job_queue
      ≡ Option.map change (find (entry_of id) s.job_queue)
unfolding mark
find-mark change id s columns = elim (Option-cases (find (entry_of id) s.job_queue)) [
  | inl missing ↦ ground arith
  | inr (entry, found) ↦
      ground (arith, find-write_entry id (change entry) s.job_queue, columns entry)
]
