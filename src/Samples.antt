-- ===== src/Samples.antt =====
-- A small system: a job, an execution and its queue entry. The child modules say what the theorems
-- state of it.
pub mod Queues
pub mod Turns
pub mod Requests
pub mod Flows
pub mod Runs
pub mod Processes
pub mod Schedules
pub mod Packages
pub mod Venvs
pub mod Runner
use serverust_less.Prelude.{
  String, ℕ, if◌then◌else◌, none, some, List, [], ◌∷◌, pos, true, false, ◌≡◌, ◌≢◌, refl, head?,
  arith, order_by, find, extract_max, ◌==◌,
}
use serverust_less.Model.Clock.{Clock}
use serverust_less.Model.Job.{Job}
use serverust_less.Model.Execution.{Execution}
use serverust_less.Model.Execution
use serverust_less.Model.QueueEntry.{QueueEntry}
use serverust_less.Model.QueueEntry
use serverust_less.Model.QueueItem.{QueueItem}
use serverust_less.Db.{System, empty_db}
use serverust_less.Db.QueueRepository.{queued_rows}
use serverust_less.Action.{ok, err, validation}
use serverust_less.Model.Dag.{DagEdge, new_edge, new_dag}
use serverust_less.Dags.{validate_no_cycles, finished, add_edge, cycle}
use serverust_less.Dags.Acyclic.{
  Iterates, IsAcyclic, Topological, finished-ends, validate_no_cycles-Topological,
  validate_no_cycles-IsAcyclic,
}
use serverust_less.Dags.Edges.{DagIsAcyclic, add_edge-DagIsAcyclic}
use serverust_less.Model.ExecutionStatus
use serverust_less.Model.ExecutionStatus.{from_str}
use serverust_less.Model.QueueStatus
use serverust_less.Model.Text.{lowercase_eq}
use serverust_less.Model.Statuses.{from_str-as_str}
use serverust_less.Model.Execution.{mark_cancelled, status_enum}
use serverust_less.Db.ExecutionRepository.{execution_named}
use serverust_less.Db.QueueRepository.{entry_of}
use serverust_less.Db.{Retry}
use serverust_less.Queue.{QueueManager, item_of, dequeue, retry_requeue, retry_push}
use serverust_less.Queue.Heap.{pop}
use serverust_less.Queue.Items.{Known}
use serverust_less.Queue.Races.{after_requeue, after_push, retry-taken_twice}
use serverust_less.Worker.{
  ExecutionResult, write_result, update_queue_entry, start, run_as, outcome,
}
use serverust_less.Worker.Results.{recorded, write_result-Records}
use serverust_less.Worker.History.{Turn, starts, finishes, requeues, pushes, turns}
use serverust_less.Worker.Retries.{update_queue_entry-Settles}
use serverust_less.Worker.Cancelled.{cancelled-runs_again}
use serverust_less.Executions
use serverust_less.Executions.{retry_of}
use serverust_less.Api
use serverust_less.Api.{execute_job}
use serverust_less.Queue.Submit.{Submitted}
use serverust_less.Api.Execute.{fresh_item}
use serverust_less.Queue.History.{Event, enqueues, dequeues, recovers, run}
use serverust_less.Queue.Bounds.{IsBounded, run-IsBounded}
use serverust_less.Queue.Order.{TakesGreatest, dequeue-TakesGreatest, TakesNext, dequeue-TakesNext}

abbrev pub noon : Clock
noon = record {
  rfc3339 = "2026-01-01T12:00:00+00:00";
  datetime = "2026-01-01 12:00:00";
  since = λ _. some (pos 5);
}

abbrev pub job : Job
job = record {
  id = "j1";
  name = "hello";
  description = none;
  python_code = "print(1)";
  timeout_seconds = pos 30;
  memory_limit_mb = pos 128;
  use_custom_venv = false;
  venv_id = none;
  priority = pos 7;
  max_retries = pos 2;
  created_at = "2026-01-01T00:00:00+00:00";
  updated_at = "2026-01-01T00:00:00+00:00";
  enabled = true;
}

abbrev pub execution : Execution
execution = Execution.new noon "e1" "j1" none

abbrev pub entry : QueueEntry
entry = QueueEntry.new noon "q1" "e1" "j1" (pos 3)

abbrev pub item : QueueItem
item = item_of execution job (pos 3)

-- One queued entry, and nothing in memory.
abbrev pub waiting : System
waiting = record {
  db = record empty_db { jobs = job ∷ []; executions = execution ∷ []; job_queue = entry ∷ [] };
  memory_queue = [];
  retries = [];
}

-- The same with the item in memory.
abbrev pub loaded : System
loaded = record waiting { memory_queue = item ∷ [] }

abbrev pub manager : QueueManager
manager = record { max_memory_size = 1; max_retries = pos 3; retry_delay_seconds = 5 }

abbrev pub retry : Retry
retry = record { entry_id = "q1"; exec_id = "e1" }

pub known : Known waiting "e1" execution job
known = record { execution = refl; job = refl }

-- The execution was cancelled while its retry slept.
abbrev pub cancelled_execution : Execution
cancelled_execution = mark_cancelled noon execution

abbrev pub cancelled : System
cancelled = record waiting {
  db = record empty_db { jobs = job ∷ []; executions = cancelled_execution ∷ [] };
}

pub cancelled-Known : Known cancelled "e1" cancelled_execution job
cancelled-Known = record { execution = refl; job = refl }
