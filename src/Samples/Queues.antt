-- ===== src/Samples/Queues.antt =====
-- The queue of queue/manager.rs at the samples.
use serverust_less.Prelude.{All, false, some, List, [], ◌∷◌, ◌≡◌, ◌≢◌, refl, head?, arith, order_by}
use serverust_less.Model.Clock.{Clock}
use serverust_less.Model.QueueItem.{QueueItem}
use serverust_less.Db.QueueRepository.{queued_rows}
use serverust_less.Queue.History.{Event, enqueues, dequeues, recovers, run}
use serverust_less.Action.{ok}
use serverust_less.Model.QueueEntry.{mark_processing}
use serverust_less.Db.QueueRepository.{has_status}
use serverust_less.Db.{System}
use serverust_less.Queue.{recover, reconstruct_item}
use serverust_less.Queue.Recovery.{reset_rows, recover-restores}
use serverust_less.Queue.Bounds.{IsBounded, run-IsBounded}
use serverust_less.Queue.Order.{TakesGreatest, dequeue-TakesGreatest, TakesNext, dequeue-TakesNext}
use serverust_less.Samples.{noon, entry, item, waiting, loaded, manager}

abbrev history : List (Clock × Event)
history = (noon, recovers) ∷ (noon, enqueues "q2" item) ∷ (noon, dequeues) ∷ []

run-IsBounded_example : IsBounded manager (run manager history waiting)
run-IsBounded_example = run-IsBounded manager history waiting (omega arith)

loaded-holds_item : loaded.memory_queue ≢ []
loaded-holds_item e = cc

dequeue-TakesGreatest_example : (i : QueueItem) × TakesGreatest noon loaded i
dequeue-TakesGreatest_example = dequeue-TakesGreatest noon loaded loaded-holds_item

waiting-head : head? (queued_rows waiting.job_queue) ≡ some entry
unfolding order_by
waiting-head = refl

dequeue-TakesNext_example : TakesNext noon waiting entry
dequeue-TakesNext_example = dequeue-TakesNext noon waiting entry refl waiting-head

-- The entry was processing when the process stopped.
abbrev crashed : System
crashed = record waiting { db = record waiting.db { job_queue = mark_processing noon entry ∷ [] } }

recover-restores_example :
    ((recover manager crashed).0 ≡ ok 1)
    × ((recover manager crashed).1.job_queue ≡ reset_rows crashed)
    × All (λ e. has_status "processing" e ≡ false) (recover manager crashed).1.job_queue
    × ((recover manager crashed).1.memory_queue ≡ item ∷ [])
unfolding order_by reconstruct_item
recover-restores_example = recover-restores manager crashed refl
