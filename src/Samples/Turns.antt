-- ===== src/Samples/Turns.antt =====
-- The turns of worker/pool.rs at the samples.
use serverust_less.Prelude.{
  some, List, [], ◌∷◌, pos, false, ◌≡◌, refl, head?, arith, order_by, find,
}
use serverust_less.Db.QueueRepository.{queued_rows}
use serverust_less.Action.{ok}
use serverust_less.Db.ExecutionRepository.{execution_named}
use serverust_less.Db.QueueRepository.{entry_of}
use serverust_less.Queue.{item_of, dequeue, retry_requeue, retry_push}
use serverust_less.Queue.Races.{after_requeue, after_push, retry-taken_twice}
use serverust_less.Worker.{
  ExecutionResult, write_result, update_queue_entry, start, run_as, outcome,
}
use serverust_less.Worker.Results.{recorded, write_result-Records}
use serverust_less.Worker.History.{Turn, starts, finishes, requeues, pushes}
use serverust_less.Worker.Retries.{update_queue_entry-Settles}
use serverust_less.Worker.Cancelled.{cancelled-runs_again}
use serverust_less.Samples.{
  noon, job, execution, entry, item, waiting, manager, retry, known, cancelled_execution, cancelled,
  cancelled-Known,
}

-- What the process reported, and the systems in which it ended.
abbrev pub crash : ExecutionResult
crash = record {
  success = false;
  stdout = "";
  stderr = "boom";
  exit_code = "Some(1)";
  duration_ms = pos 12;
  timed_out = false;
  memory_exceeded = false;
}

write_result-Records_example :
    find (execution_named "e1") (write_result noon "e1" crash waiting).executions
    ≡ some (recorded noon crash execution)
write_result-Records_example = write_result-Records noon "e1" crash waiting execution refl "e1"

update_queue_entry-Settles_example :
    (find (entry_of "e1") (update_queue_entry manager noon "e1" crash waiting).job_queue
      ≡ some entry)
    × ((update_queue_entry manager noon "e1" crash waiting).retries ≡ retry ∷ [])
unfolding outcome
update_queue_entry-Settles_example =
    update_queue_entry-Settles manager noon "e1" crash waiting known refl

-- Two failures of the execution, and the retry between them.
abbrev failures : List Turn
failures =
    starts noon "worker-0"
    ∷ finishes noon "e1" crash
    ∷ requeues retry
    ∷ pushes retry
    ∷ starts noon "worker-0"
    ∷ finishes noon "e1" crash
    ∷ []

requeued-head : head? (queued_rows (after_requeue retry waiting).job_queue) ≡ some entry
unfolding order_by retry_requeue
requeued-head = refl

retry-taken_twice_example :
    ((dequeue noon (after_requeue retry waiting)).0 ≡ ok (some item))
    × ((dequeue noon (after_push manager noon retry waiting)).0
        ≡ ok (some (item_of execution job (pos 7))))
retry-taken_twice_example =
    retry-taken_twice manager noon retry waiting entry execution job (omega arith) refl known
      requeued-head refl

cancelled-runs_again_example :
    ((start noon "worker-0" (retry_push manager retry cancelled).1).0
      ≡ ok (some (item_of cancelled_execution job (pos 7))))
    × (find
          (execution_named "e1")
          (start noon "worker-0" (retry_push manager retry cancelled).1).1.executions
        ≡ some (run_as noon "worker-0" cancelled_execution))
cancelled-runs_again_example =
    cancelled-runs_again manager noon "worker-0" retry cancelled (omega arith) refl cancelled-Known
