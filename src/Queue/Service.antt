-- ===== src/Queue/Service.antt =====
-- services/queue_service.rs: QueueService, the same table without the queue in memory. The cutoffs of
-- the times are arguments.
use serverust_less.Prelude.{ℕ, ℤ, sub_ℕ, Bool, false, String, Option, none, some, List, map, ◌==◌}
use serverust_less.Action.{Action, pure, ◌>>=◌, ◌>>◌}
use serverust_less.Model.Clock.{Clock}
use serverust_less.Model.QueueEntry
use serverust_less.Model.QueueEntry.{QueueEntry}
use serverust_less.Model.QueueStatus
use serverust_less.Db.{System}
use serverust_less.Db.QueueRepository

unfoldable pub enqueue : Clock → String → String → String → ℤ → Action System QueueEntry
unfolding QueueRepository.enqueue
enqueue clock id execution_id job_id priority =
    QueueRepository.enqueue (QueueEntry.new clock id execution_id job_id priority)

unfoldable pub dequeue : Clock → Action System (Option QueueEntry)
unfolding QueueRepository.dequeue QueueRepository.update
dequeue clock = QueueRepository.dequeue >>= λ entry. elim entry [
  | none ↦ pure none
  | some e ↦
      QueueRepository.update (QueueEntry.mark_processing clock e) >>= λ updated. pure (some updated)
]

-- Changes the entry of an execution, if there is one.
abbrev change_entry : (QueueEntry → QueueEntry) → String → Action System Unit
change_entry f execution_id = QueueRepository.get_by_execution execution_id >>= λ entry.
    elim entry [ none ↦ pure tt | some e ↦ QueueRepository.update (f e) >> pure tt ]

unfoldable pub mark_completed : Clock → String → Action System Unit
unfolding QueueRepository.get_by_execution QueueRepository.update
mark_completed clock execution_id = change_entry (QueueEntry.mark_completed clock) execution_id

unfoldable pub mark_failed : Clock → String → Action System Unit
unfolding QueueRepository.get_by_execution QueueRepository.update
mark_failed clock execution_id = change_entry (QueueEntry.mark_failed clock) execution_id

unfoldable pub remove : String → Action System Unit
unfolding QueueRepository.remove_by_execution
remove execution_id = QueueRepository.remove_by_execution execution_id

pub record PriorityCount : Type 0 where
  pub priority : ℤ
  pub count : ℕ

pub record QueueStatusResponse : Type 0 where
  pub total_queued : ℕ
  pub processing : ℕ
  pub completed_last_hour : ℕ
  pub failed_last_hour : ℕ
  pub dead_letter_count : ℕ
  pub by_priority : List PriorityCount
  pub in_memory_size : ℕ
  pub overflow_size : ℤ

-- The overflow is negative where the memory holds more items than the table has queued entries.
unfoldable pub get_status : String → ℕ → Action System QueueStatusResponse
unfolding QueueRepository.count_queued QueueRepository.count_processing
    QueueRepository.count_completed_last_hour QueueRepository.count_failed_last_hour
    QueueRepository.count_dead_letter QueueRepository.get_depth_by_priority
get_status an_hour_ago in_memory_size = do
  total_queued ← QueueRepository.count_queued
  processing ← QueueRepository.count_processing
  completed ← QueueRepository.count_completed_last_hour an_hour_ago
  failed ← QueueRepository.count_failed_last_hour an_hour_ago
  dead ← QueueRepository.count_dead_letter
  depth ← QueueRepository.get_depth_by_priority
  pure (record {
    total_queued = total_queued;
    processing = processing;
    completed_last_hour = completed;
    failed_last_hour = failed;
    dead_letter_count = dead;
    by_priority = map (λ d. record { priority = d.0; count = d.1 }) depth;
    in_memory_size = in_memory_size;
    overflow_size = sub_ℕ total_queued in_memory_size;
  })

unfoldable pub is_queued : String → Action System Bool
unfolding QueueRepository.get_by_execution
is_queued execution_id = QueueRepository.get_by_execution execution_id >>= λ entry.
    pure (elim entry [ none ↦ false | some e ↦ e.status == QueueStatus.as_str QueueStatus.queued ])

unfoldable pub cleanup : String → Action System ℕ
unfolding QueueRepository.cleanup_old
cleanup cutoff = QueueRepository.cleanup_old cutoff
