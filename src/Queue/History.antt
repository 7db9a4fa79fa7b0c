-- ===== src/Queue/History.antt =====
-- Histories of the queue: any sequence of its operations, from any task, with writes of the other
-- services to the tables of jobs and executions between them.
use serverust_less.Prelude.{String, Option, List, [], ◌∷◌, ℤ}
use serverust_less.Model.Clock.{Clock}
use serverust_less.Model.Job.{Job}
use serverust_less.Model.Execution.{Execution}
use serverust_less.Model.QueueItem.{QueueItem}
use serverust_less.Db.{System, Retry}
use serverust_less.Db.ExecutionRepository
use serverust_less.Queue.{
  QueueManager, enqueue, dequeue, remove, mark_execution_completed, mark_execution_failed,
  mark_failed_with_retry, move_to_dead_letter, retry_requeue, retry_push, retry_dead_letter,
  cleanup, recover,
}

pub data Event : Type 0 where
  enqueues : String → QueueItem → Event
  dequeues : Event
  removes : String → Event
  completes : String → Event
  fails : String → Event
  fails_with_retry : String → ℤ → Option ℤ → Event
  dead_letters : String → Event
  requeues : Retry → Event
  pushes : Retry → Event
  retries_dead_letter : String → Event
  cleans : String → Event
  recovers : Event
  deletes : String → Event
  writes : List Job → List Execution → Event

module _ (qm : QueueManager) where
  -- The state after an event; an error is logged by the caller and changes nothing more.
  unfoldable pub step : Clock → Event → System → System
  unfolding enqueue dequeue remove mark_execution_completed mark_execution_failed
      mark_failed_with_retry move_to_dead_letter retry_requeue retry_push retry_dead_letter cleanup
      recover ExecutionRepository.delete
  step clock (enqueues entry_id item) s = (enqueue qm clock entry_id item s).1
  step clock dequeues s = (dequeue clock s).1
  step clock (removes id) s = (remove id s).1
  step clock (completes id) s = (mark_execution_completed clock id s).1
  step clock (fails id) s = (mark_execution_failed clock id s).1
  step clock (fails_with_retry id count limit) s =
      (mark_failed_with_retry qm clock id count limit s).1
  step clock (dead_letters id) s = (move_to_dead_letter clock id s).1
  step clock (requeues r) s = (retry_requeue r s).1
  step clock (pushes r) s = (retry_push qm r s).1
  step clock (retries_dead_letter id) s = (retry_dead_letter qm id s).1
  step clock (cleans cutoff) s = (cleanup cutoff s).1
  step clock recovers s = (recover qm s).1
  step clock (deletes id) s = (ExecutionRepository.delete id s).1
  step clock (writes jobs executions) s = record s {
    db = record s.db { jobs = jobs; executions = executions };
  }

  unfoldable pub run : List (Clock × Event) → System → System
  unfolding step
  run [] s = s
  run ((clock, e) ∷ events) s = run events (step clock e s)
