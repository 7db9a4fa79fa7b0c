-- ===== src/Queue/Races.antt =====
-- The task that puts a failed execution back: other workers run between its two steps.
use serverust_less.Prelude.{◌<◌, ◌≡◌, some, [], head?, arith, String, refl, ◌∙◌}
use serverust_less.Action.{ok}
use serverust_less.Model.Clock.{Clock}
use serverust_less.Model.Execution.{Execution}
use serverust_less.Model.Job.{Job}
use serverust_less.Model.QueueEntry.{QueueEntry}
use serverust_less.Db.{System, Retry}
use serverust_less.Db.QueueRepository.{queued_rows}
use serverust_less.Queue.{
  QueueManager, dequeue, retry_requeue, retry_push, item_of, reconstruct_item, mark,
}
use serverust_less.Queue.Heap.{pop-one}
use serverust_less.Queue.Items.{
  Known, load_item-Known, dequeue_empty, dequeue-executions, dequeue_overflow-memory,
}
use serverust_less.Queue.Order.{dequeue-TakesNext}

-- The entry is reset.
abbrev pub after_requeue : Retry → System → System
after_requeue r s = (retry_requeue r s).1

-- Then a worker dequeues.
abbrev pub after_dequeue : Clock → Retry → System → System
after_dequeue clock r s = (dequeue clock (after_requeue r s)).1

-- Then the item is pushed.
abbrev pub after_push : QueueManager → Clock → Retry → System → System
after_push qm clock r s = (retry_push qm r (after_dequeue clock r s)).1

after_requeue-Known :
    (r : Retry) (s : System) {x : Execution} {j : Job}
    → Known s r.exec_id x j
    → Known (after_requeue r s) r.exec_id x j
unfolding retry_requeue
after_requeue-Known r s known = record { execution = known.execution; job = known.job }

after_dequeue-Known :
    (clock : Clock) (s : System) {id : String} {x : Execution} {j : Job}
    → Known s id x j
    → Known (dequeue clock s).1 id x j
after_dequeue-Known clock s known = record {
  execution = ground (arith, dequeue-executions clock s, known.execution);
  job = ground (arith, dequeue-executions clock s, known.job);
}

requeue-memory : (r : Retry) (s : System) → (after_requeue r s).memory_queue ≡ s.memory_queue
unfolding retry_requeue
requeue-memory r s = refl

-- A push into an empty queue, and what is dequeued next.
pub push_dequeue :
    (qm : QueueManager) (clock : Clock) (r : Retry) (s : System) {x : Execution} {j : Job}
    → 0 < qm.max_memory_size
    → s.memory_queue ≡ []
    → Known s r.exec_id x j
    → (dequeue clock (retry_push qm r s).1).0 ≡ ok (some (item_of x j j.priority))
unfolding retry_push dequeue mark
push_dequeue qm clock r s {x} {j} room empty known =
    ground (arith, load_item-Known (λ job. job.priority) known, pop-one (item_of x j j.priority))

-- An execution, whose rows exist, is put back while nothing is in memory, with room for an item, and
-- its entry comes first in the table. Then a worker that dequeues before the item is pushed gets an
-- item of the execution from the table, and the dequeue after the push gets one again.
pub retry-taken_twice :
    (qm : QueueManager) (clock : Clock) (r : Retry) (s : System) (e : QueueEntry) (x : Execution)
    (j : Job)
    → 0 < qm.max_memory_size
    → s.memory_queue ≡ []
    → Known s r.exec_id x j
    → head? (queued_rows (after_requeue r s).job_queue) ≡ some e
    → e.execution_id ≡ r.exec_id
    → ((dequeue clock (after_requeue r s)).0 ≡ ok (some (item_of x j e.priority)))
      × ((dequeue clock (after_push qm clock r s)).0 ≡ ok (some (item_of x j j.priority)))
unfolding reconstruct_item
retry-taken_twice qm clock r s e x j room empty known head same =
    let empty' = requeue-memory r s ∙ empty in
    let known' = after_requeue-Known r s known in
    let first = dequeue-TakesNext clock (after_requeue r s) e empty' head in
    (
      ground
          (arith, first.returned, load_item-Known {s = after_requeue r s} (λ _. e.priority) known'),
      push_dequeue qm clock r (after_dequeue clock r s) room
          (ground (
            arith,
            empty',
            dequeue_empty clock (after_requeue r s) empty',
            dequeue_overflow-memory clock (after_requeue r s),
          ))
          (after_dequeue-Known clock (after_requeue r s) known'),
    )
