-- ===== src/Worker/History.antt =====
-- Histories of the workers: turns of any worker and the tasks that put executions back, in any order.
use serverust_less.Prelude.{String, none, List, [], ◌∷◌}
use serverust_less.Model.Clock.{Clock}
use serverust_less.Db.{System, Retry}
use serverust_less.Queue.{QueueManager, retry_requeue, retry_push}
use serverust_less.Worker.{ExecutionResult, start, finish}

pub data Turn : Type 0 where
  starts : Clock → String → Turn
  finishes : Clock → String → ExecutionResult → Turn
  requeues : Retry → Turn
  pushes : Retry → Turn

module _ (qm : QueueManager) where
  -- Without a DAG engine.
  unfoldable pub turn : Turn → System → System
  unfolding start finish retry_requeue retry_push
  turn (starts clock worker) s = (start clock worker s).1
  turn (finishes clock id r) s = finish qm none clock id r s
  turn (requeues r) s = (retry_requeue r s).1
  turn (pushes r) s = (retry_push qm r s).1

  unfoldable pub turns : List Turn → System → System
  unfolding turn
  turns [] s = s
  turns (t ∷ ts) s = turns ts (turn t s)
