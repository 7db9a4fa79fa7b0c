-- ===== src/Queue/Bounds.antt =====
-- The in-memory queue never holds more than `max_memory_size` items.
use serverust_less.Prelude.{
  ◌≤◌, ℤ, ◌≡◌, String, Option, List, [], ◌∷◌, length, arith, length-filter-le, Option-cases, inl,
  inr, ◌==◌, not,
}
use serverust_less.Model.Clock.{Clock}
use serverust_less.Model.QueueItem.{QueueItem}
use serverust_less.Model.QueueEntry.{QueueEntry}
use serverust_less.Db.{System, Retry}
use serverust_less.Queue.{
  QueueManager, enqueue, dequeue, remove, mark, mark_execution_completed, mark_execution_failed,
  mark_failed_with_retry, move_to_dead_letter, retry_requeue, retry_push, retry_dead_letter,
  cleanup, recover, reconstruct_item, refill,
}
use serverust_less.Queue.Items.{dequeue_overflow-memory}
use serverust_less.Queue.Heap.{pop, length-pop}
use serverust_less.Queue.History.{
  Event, enqueues, dequeues, removes, completes, fails_with_retry, recovers, pushes,
  retries_dead_letter, step, run,
}

abbrev pub IsBounded : QueueManager → System → Type 0
IsBounded qm s = length s.memory_queue ≤ qm.max_memory_size

memory-mark :
    (change : QueueEntry → QueueEntry) (id : String) (s : System)
    → (mark change id s).1.memory_queue ≡ s.memory_queue
unfolding mark
memory-mark change id s = ground arith

module _ (qm : QueueManager) (clock : Clock) where
  enqueue-IsBounded :
      (id : String) (item : QueueItem) (s : System)
      → IsBounded qm s
      → IsBounded qm (enqueue qm clock id item s).1
  unfolding enqueue
  enqueue-IsBounded id item s h = ground arith

  dequeue-IsBounded : (s : System) → IsBounded qm s → IsBounded qm (dequeue clock s).1
  unfolding dequeue
  dequeue-IsBounded s h = elim (Option-cases (pop s.memory_queue)) [
    | inl empty ↦ ground (arith, dequeue_overflow-memory clock s)
    | inr ((item, rest), popped) ↦ ground (arith, length-pop s.memory_queue popped)
  ]

  retry_push-IsBounded :
      (r : Retry) (s : System) → IsBounded qm s → IsBounded qm (retry_push qm r s).1
  unfolding retry_push
  retry_push-IsBounded r s h = ground arith

  retry_dead_letter-IsBounded :
      (id : String) (s : System) → IsBounded qm s → IsBounded qm (retry_dead_letter qm id s).1
  unfolding retry_dead_letter
  retry_dead_letter-IsBounded id s h = ground arith

  mark_failed_with_retry-memory :
      (id : String) (count : ℤ) (limit : Option ℤ) (s : System)
      → (mark_failed_with_retry qm clock id count limit s).1.memory_queue ≡ s.memory_queue
  unfolding mark_failed_with_retry
  mark_failed_with_retry-memory id count limit s = ground arith

  refill-IsBounded :
      (entries : List QueueEntry) (s : System)
      → IsBounded qm s
      → IsBounded qm (refill qm entries s).1
  unfolding refill
  refill-IsBounded [] s h = h
  refill-IsBounded (e ∷ es) s h = elim (Option-cases (reconstruct_item e s)) [
    | inl missing ↦ ground (arith, refill-IsBounded es s)
    | inr (i, found) ↦
        ground (arith, refill-IsBounded es (record s { memory_queue = i ∷ s.memory_queue }))
  ]

  recover-IsBounded : (s : System) → IsBounded qm s → IsBounded qm (recover qm s).1
  unfolding recover
  recover-IsBounded s h = refill-IsBounded _ _ h

  -- One event keeps the bound.
  step-IsBounded : (e : Event) (s : System) → IsBounded qm s → IsBounded qm (step qm clock e s)
  unfolding step remove cleanup retry_requeue mark_execution_completed mark_execution_failed
      move_to_dead_letter
  step-IsBounded (enqueues id item) s h = enqueue-IsBounded id item s h
  step-IsBounded dequeues s h = dequeue-IsBounded s h
  step-IsBounded (removes id) s h =
      omega (arith, length-filter-le (λ i. not (i.execution_id == id)) s.memory_queue)
  step-IsBounded (fails_with_retry id count limit) s h =
      ground (arith, mark_failed_with_retry-memory id count limit s)
  step-IsBounded (pushes r) s h = retry_push-IsBounded r s h
  step-IsBounded (retries_dead_letter id) s h = retry_dead_letter-IsBounded id s h
  step-IsBounded recovers s h = recover-IsBounded s h
  step-IsBounded (completes id) s h = ground arith
  step-IsBounded e s h = ground arith

-- A history of calls, of any kind and in any order, that starts with at most max_memory_size items in
-- memory keeps it so.
pub run-IsBounded :
    (qm : QueueManager) (events : List (Clock × Event)) (s : System)
    → IsBounded qm s
    → IsBounded qm (run qm events s)
unfolding run
run-IsBounded qm [] s h = h
run-IsBounded qm ((clock, e) ∷ events) s h =
    run-IsBounded qm events (step qm clock e s) (step-IsBounded qm clock e s h)
