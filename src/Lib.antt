-- ===== src/Lib.antt =====
-- Verification of serverust-less, a self-hosted platform that runs Python jobs.
--
-- An HTTP request creates an execution of a job and enqueues it; a worker dequeues it, runs the
-- Python process and writes the result; a failure is tried again later or ends in the dead letter
-- queue. The parts share the SQLite tables and the queue in memory, one value of `Db.System` here,
-- and each method is an action on it (`Action`): a result or an error, with the state after it.
--
-- Prelude: numbers, lists, comparison functions, ORDER BY.
-- Action: src/error.rs, and the actions.
-- Model: src/models/*.rs. A status is a text in a row, as in the source.
-- Db: src/db/*.rs, the tables and their statements, with migrations/*.sql for the constraints.
-- Queue: src/queue/manager.rs. Queue.Heap is the binary heap, Queue.History any sequence of calls.
-- Queue.Service: src/services/queue_service.rs.
-- Worker: src/worker/pool.rs, a worker's turn in two halves around the process.
-- Worker.Runner: src/worker/python_runner.rs on Unix, with the process as a parameter; Worker.Executor:
-- src/worker/executor.rs. Processes: src/worker/process_manager.rs; Worker.Selected is the worker's
-- wait for its process.
-- Executions: src/services/execution_service.rs. Api: the handlers of src/api/executions.rs that
-- combine services: execute, retry, cancel.
-- Dags: src/services/dag_service.rs. Dags.Counts, Dags.Invariant and Dags.Sweep carry the proof about
-- Kahn's algorithm that Dags.Acyclic and Dags.Edges state; the loop runs one turn for each node.
-- Dags.Requests creates and changes DAGs, Dags.Rows and Dags.WellFormed are about their table.
-- Engine: src/dag/engine.rs, on the tables of db/dags.rs; it is the callback of a worker.
-- Jobs: src/services/job_service.rs. Api.Jobs: the bulk handlers of src/api/jobs.rs.
-- Schedules: src/services/schedule_service.rs, with the cron crate as a parameter.
-- Pip: src/worker/package_manager.rs, with what pip answers as a parameter.
-- Packages: src/services/package_service.rs. Api.Packages: the handlers of src/api/packages.rs.
-- Venvs: src/services/venv_service.rs, on the table of db/venvs.rs; Venvs.Python is the choice of an
-- executable in src/worker/venv_manager.rs. Api.Venvs: the handlers of src/api/venvs.rs.
-- Scheduler: src/scheduler/mod.rs, one tick over the schedules that are due.
-- Audit: src/services/audit_service.rs and src/db/audit.rs.
-- Samples: a small system, and the theorems at it.
--
-- Choices. Identifiers and times are texts that are arguments (`Clock`, fresh ids). An i32 is an
-- integer without wrap-around: the sums are of counters that stay far from the bounds. A table is
-- the list of its rows in insertion order, ORDER BY is a stable sort of it, a statement is atomic,
-- UNIQUE and FOREIGN KEY failures and cascades among these tables are modelled (jobs.venv_id is not
-- checked on a write, and is cleared when its environment goes), failures of the disk are not. The heap
-- is a list from which a greatest item is taken. The mutex of the queue is held for a whole method,
-- so a method is one step; the task that sleeps before a retry is two steps. Sleeping, tracing and
-- log rows are left out. Lower-casing is that of ASCII.
--
-- Not modelled: HTTP routing and JSON, the Python process, the environments on disk,
-- execution logs, configuration.
mod Prelude
pub mod Samples
pub mod Action
pub mod Model
pub mod Db
pub mod Queue
pub mod Processes
pub mod Worker
pub mod Executions
pub mod Api
pub mod Dags
pub mod Jobs
pub mod Engine
pub mod Schedules
pub mod Scheduler
pub mod Pip
pub mod Venvs
pub mod Packages
pub mod Audit
