-- ===== src/Db/State.antt =====
-- The tables and the process state around them.
use serverust_less.Prelude.{String, List, []}
use serverust_less.Model.Job.{Job}
use serverust_less.Model.Execution.{Execution}
use serverust_less.Model.QueueEntry.{QueueEntry}
use serverust_less.Model.QueueItem.{QueueItem}
use serverust_less.Model.Dag.{Dag, DagEdge, DagRun, DagNodeExecution}
use serverust_less.Model.Schedule.{JobSchedule}
use serverust_less.Model.Package.{PythonPackage, JobDependency, PackageCache}
use serverust_less.Model.Venv.{Venv}

pub record Db : Type 0 where
  pub jobs : List Job
  pub executions : List Execution
  pub job_queue : List QueueEntry
  pub dags : List Dag
  pub dag_edges : List DagEdge
  pub dag_runs : List DagRun
  pub dag_node_executions : List DagNodeExecution
  pub job_schedules : List JobSchedule
  pub python_packages : List PythonPackage
  pub job_dependencies : List JobDependency
  pub package_cache : List PackageCache
  pub venvs : List Venv

-- A task spawned by `mark_failed_with_retry`, with what it captured.
pub record Retry : Type 0 where
  pub entry_id : String
  pub exec_id : String

pub record System : Type 0 where
  pub db : Db
  pub open db use *
  pub memory_queue : List QueueItem
  pub retries : List Retry

abbrev pub empty_db : Db
empty_db = record {
  jobs = [];
  executions = [];
  job_queue = [];
  dags = [];
  dag_edges = [];
  dag_runs = [];
  dag_node_executions = [];
  job_schedules = [];
  python_packages = [];
  job_dependencies = [];
  package_cache = [];
  venvs = [];
}
