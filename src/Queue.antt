-- ===== src/Queue.antt =====
-- queue/manager.rs: QueueManager, which coordinates the in-memory priority queue with the table
-- `job_queue`. Each method is an action on the shared state. The mutex is held for the whole of
-- `enqueue`, `dequeue` and `remove`; the task that sleeps before a retry is split where it lets
-- others run, into `retry_requeue` and `retry_push`.
pub mod Heap
pub mod History
pub mod Bounds
pub mod Items
pub mod Order
pub mod Races
pub mod Recovery
pub mod Submit
pub mod Service
use serverust_less.Prelude.{
  ℕ, ◌+◌, ◌-◌, Bool, true, false, not, String, Option, none, some, List, [], ◌∷◌, map, filter,
  length, ltb, leb, ltb_ℤ, ℤ, ◌==◌, if◌then◌else◌,
}
use serverust_less.Action.{Action, ok, err, validation, pure, throw, gets, ◌>>=◌, ◌>>◌, try_or}
use serverust_less.Model.Clock.{Clock}
use serverust_less.Model.Execution.{Execution}
use serverust_less.Model.Job.{Job}
use serverust_less.Model.QueueEntry.{
  QueueEntry, mark_processing, mark_completed, mark_failed, mark_dead_letter,
}
use serverust_less.Model.QueueEntry
use serverust_less.Model.QueueItem.{QueueItem}
use serverust_less.Db.{System, Retry}
use serverust_less.Db.QueueRepository
use serverust_less.Db.ExecutionRepository
use serverust_less.Db.JobRepository
use Heap.{push, pop}

-- The configuration; the queue itself and the repositories are the state.
pub record QueueManager : Type 0 where
  pub max_memory_size : ℕ
  pub max_retries : ℤ
  pub retry_delay_seconds : ℕ

-- A queue item from the rows of the execution and its job.
abbrev pub item_of : Execution → Job → ℤ → QueueItem
item_of exec job priority = record {
  execution_id = exec.id;
  job_id = job.id;
  priority = priority;
  python_code = job.python_code;
  timeout_seconds = job.timeout_seconds;
  memory_limit_mb = job.memory_limit_mb;
  input_data = exec.input_data;
  use_custom_venv = job.use_custom_venv;
}

-- Reads two tables; rows that are missing are logged, and give no item.
unfoldable pub load_item : String → (Job → ℤ) → System → Option QueueItem
unfolding ExecutionRepository.get_by_id JobRepository.get_by_id
load_item execution_id priority s = elim (ExecutionRepository.get_by_id execution_id s).0 [
  | err _ ↦ none
  | ok exec ↦ elim (JobRepository.get_by_id exec.job_id s).0 [
    | err _ ↦ none
    | ok job ↦ some (item_of exec job (priority job))
  ]
]

unfoldable pub reconstruct_item : QueueEntry → System → Option QueueItem
unfolding load_item
reconstruct_item entry = load_item entry.execution_id (λ _. entry.priority)

module _ (qm : QueueManager) where
  -- `if queue.len() < self.max_memory_size { queue.push(item) }`
  abbrev pub push_if_space : QueueItem → Action System Unit
  push_if_space item s = (
    ok tt,
    if ltb (length s.memory_queue) qm.max_memory_size
        then record s { memory_queue = push item s.memory_queue }
        else s,
  )

  -- The persistent entry is created first.
  unfoldable pub enqueue : Clock → String → QueueItem → Action System Unit
  unfolding QueueRepository.enqueue
  enqueue clock entry_id item = do
    QueueRepository.enqueue
        (QueueEntry.new clock entry_id item.execution_id item.job_id item.priority)
    push_if_space item

-- The read, change and write of one entry; nothing where the execution has none.
unfoldable pub mark : (QueueEntry → QueueEntry) → String → Action System Unit
unfolding QueueRepository.get_by_execution QueueRepository.update
mark change execution_id = do
  found ← QueueRepository.get_by_execution execution_id
  elim found [ none ↦ pure tt | some entry ↦ QueueRepository.update (change entry) >> pure tt ]

-- The slow path: an entry that cannot be made into an item is marked as failed.
unfoldable pub dequeue_overflow : Clock → Action System (Option QueueItem)
unfolding QueueRepository.dequeue_atomic QueueRepository.update
dequeue_overflow clock = do
  taken ← QueueRepository.dequeue_atomic clock
  elim taken [
    | none ↦ pure none
    | some entry ↦ do
      item ← gets (reconstruct_item entry)
      elim item [
        | some i ↦ pure (some i)
        | none ↦ QueueRepository.update (mark_failed clock entry) >> pure none
      ]
  ]

unfoldable pub dequeue : Clock → Action System (Option QueueItem)
unfolding mark dequeue_overflow
dequeue clock s = elim (pop s.memory_queue) [
  | some (item, rest) ↦
      (mark (mark_processing clock) item.execution_id >> pure (some item))
        (record s { memory_queue = rest })
  | none ↦ dequeue_overflow clock s
]

unfoldable pub remove : String → Action System Unit
unfolding QueueRepository.remove_by_execution
remove execution_id s =
    QueueRepository.remove_by_execution execution_id (record s {
      memory_queue = filter (λ i. not (i.execution_id == execution_id)) s.memory_queue;
    })

unfoldable pub mark_execution_completed : Clock → String → Action System Unit
unfolding mark
mark_execution_completed clock = mark (mark_completed clock)

unfoldable pub mark_execution_failed : Clock → String → Action System Unit
unfolding mark
mark_execution_failed clock = mark (mark_failed clock)

unfoldable pub memory_queue_size : Action System ℕ
memory_queue_size = gets (λ s. length s.memory_queue)

-- `i64::saturating_sub` of counts: the result may be negative, and no count nears the bounds.
unfoldable pub overflow_queue_size : Action System ℤ
unfolding QueueRepository.count_queued memory_queue_size
overflow_queue_size = do
  total ← QueueRepository.count_queued
  memory_size ← memory_queue_size
  pure (serverust_less.Prelude.sub_ℕ total memory_size)

unfoldable pub cleanup : String → Action System ℕ
unfolding QueueRepository.cleanup_old
cleanup cutoff = QueueRepository.cleanup_old cutoff

unfoldable pub move_to_dead_letter : Clock → String → Action System Unit
unfolding mark
move_to_dead_letter clock = mark (mark_dead_letter clock)

unfoldable pub dead_letter_count : Action System ℕ
unfolding QueueRepository.count_dead_letter
dead_letter_count = QueueRepository.count_dead_letter

unfoldable pub get_dead_letter_entries : Action System (List QueueEntry)
unfolding QueueRepository.get_dead_letter_entries
get_dead_letter_entries = QueueRepository.get_dead_letter_entries

-- `tokio::spawn`: the task sleeps until its delay has passed.
abbrev spawn : Retry → Action System Unit
spawn r s = (ok tt, record s { retries = r ∷ s.retries })

abbrev pub unwrap_or : Option ℤ → ℤ → ℤ
unwrap_or none d = d
unwrap_or (some n) d = n

-- The task after its sleep: the entry is reset, which frees it for any worker; then the lock is
-- taken and the item is pushed.
unfoldable pub retry_requeue : Retry → Action System Unit
unfolding QueueRepository.requeue
retry_requeue r = QueueRepository.requeue r.entry_id

-- The retries are exhausted, or the execution has no entry.
abbrev pub give_up : Clock → String → Action System Bool
give_up clock execution_id = move_to_dead_letter clock execution_id >> pure false

module _ (qm : QueueManager) where
  unfoldable pub mark_failed_with_retry : Clock → String → ℤ → Option ℤ → Action System Bool
  unfolding move_to_dead_letter QueueRepository.get_by_execution
  mark_failed_with_retry clock execution_id retry_count max_retries_override =
      if ltb_ℤ retry_count (unwrap_or max_retries_override qm.max_retries)
      then (do
        found ← QueueRepository.get_by_execution execution_id
        elim found [
          | none ↦ give_up clock execution_id
          | some entry ↦ spawn (record { entry_id = entry.id; exec_id = execution_id }) >> pure true
        ])
      else give_up clock execution_id

  unfoldable pub retry_push : Retry → Action System Unit
  retry_push r = do
    item ← gets (load_item r.exec_id (λ job. job.priority))
    elim item [ none ↦ pure tt | some i ↦ push_if_space qm i ]

  unfoldable pub retry_dead_letter : String → Action System Unit
  unfolding QueueRepository.get_by_execution QueueRepository.requeue
  retry_dead_letter execution_id = do
    found ← QueueRepository.get_by_execution execution_id
    elim found [
      | none ↦ pure tt
      | some entry ↦
          if not (entry.status == "dead_letter")
          then throw (validation "Entry is not in dead letter queue")
          else do
            QueueRepository.requeue entry.id
            item ← gets (reconstruct_item entry)
            elim item [ none ↦ pure tt | some i ↦ push_if_space qm i ]
    ]

  -- The loop of `recover`, with the number of items recovered.
  unfoldable pub refill : List QueueEntry → System → ℕ × System
  refill [] s = (0, s)
  refill (entry ∷ entries) s =
      let more : ℕ × System = elim (reconstruct_item entry s) [
        | none ↦ refill entries s
        | some i ↦
            let (n, s') = refill entries (record s { memory_queue = push i s.memory_queue }) in
            (n + 1, s')
      ] in
      if leb qm.max_memory_size (length s.memory_queue) then (0, s) else more

  unfoldable pub recover : Action System ℕ
  unfolding QueueRepository.reset_processing_to_queued QueueRepository.get_all_queued refill
  recover = do
    QueueRepository.reset_processing_to_queued
    entries ← QueueRepository.get_all_queued
    λ s. (ok (length entries), (refill entries s).1)
