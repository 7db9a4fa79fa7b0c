-- ===== src/Engine.antt =====
-- dag/engine.rs: DagEngine. The fresh identifiers of a call are the argument `Ids`: one for the run, one
-- for the node of a job, one for the execution and one for the queue entry of a node.
pub mod Advance
pub mod Marking
pub mod Trigger
pub mod Cancel
mod Ready
pub use Ready.*
use serverust_less.Prelude.{
  ℕ, zero, suc, ℤ, pos, pos_part, ◌+ℤ◌, ◌-ℤ◌, leb_ℤ, max_ℤ, Bool, true, false, not, ◌||◌, ◌&&◌,
  String, Option, none, some, List, [], ◌∷◌, filter, length, any, all, ◌==◌, if◌then◌else◌, elem,
  str_append,
}
use serverust_less.Action.{
  Action, Result, ok, err, bad_request, pure, throw, lift, ◌>>=◌, ◌>>◌, try_or, for_each,
}
use serverust_less.Model.Clock.{Clock}
use serverust_less.Model.Execution.{Execution}
use serverust_less.Model.Job.{Job}
use serverust_less.Model.Dag.{Dag, DagEdge, DagRun, DagNodeExecution, new_run, new_node}
use serverust_less.Db.{System}
use serverust_less.Db.DagRepository
use serverust_less.Db.JobRepository
use serverust_less.Db.ExecutionRepository
use serverust_less.Queue.{QueueManager, enqueue, item_of}
use serverust_less.Executions.{create_execution}
use serverust_less.Dags.{graph_of, validate_no_cycles}

pub record Ids : Type 0 where
  pub run : String
  pub node : String → String
  pub execution : String → String
  pub entry : String → String

-- A node whose job or execution is missing fails.
abbrev pub fail_node : Clock → DagNodeExecution → Action System Unit
fail_node clock node =
    DagRepository.update_node_execution
      (record node { status = "failed"; completed_at = some clock.rfc3339 })
    >> pure tt

abbrev pub run_node : Clock → Execution → DagNodeExecution → DagNodeExecution
run_node clock execution node = record node {
  execution_id = some execution.id;
  status = "running";
  started_at = some clock.rfc3339;
}

module _ (qm : QueueManager) (ids : Ids) (clock : Clock) where
  -- The body of the loop over the ready nodes.
  unfoldable pub start_node : DagNodeExecution → Action System Unit
  unfolding JobRepository.get_by_id create_execution DagRepository.update_node_execution enqueue
  start_node node =
      try_or (JobRepository.get_by_id node.job_id)
        (λ job.
          try_or (create_execution clock (ids.execution node.id) node.job_id none)
            (λ execution.
              DagRepository.update_node_execution (run_node clock execution node)
              >> try_or (enqueue qm clock (ids.entry node.id) (item_of execution job job.priority))
                  (λ _. pure tt) (λ _. pure tt))
            (λ _. fail_node clock node))
        (λ _. fail_node clock node)

  unfoldable pub advance_dag_run : String → List DagEdge → Dag → Action System Unit
  unfolding DagRepository.get_node_executions_by_run_id for_each start_node
  advance_dag_run dag_run_id edges dag = do
    nodes ← DagRepository.get_node_executions_by_run_id dag_run_id
    if leb_ℤ (available_slots dag nodes) (pos 0)
        then pure tt
        else for_each start_node (newly_ready dag edges nodes)

  abbrev pub create_node : String → String → Action System Unit
  create_node run_id job_id =
      DagRepository.create_node_execution (new_node clock (ids.node job_id) run_id job_id)
      >> pure tt

  abbrev pub mark_root : List String → DagNodeExecution → Action System Unit
  mark_root roots node =
      if elem node.job_id roots
      then DagRepository.update_node_execution (record node { status = "ready" }) >> pure tt
      else pure tt

  abbrev pub running_run : String → String → List String → DagRun
  running_run dag_id trigger_type job_ids =
      record (new_run clock ids.run dag_id trigger_type (pos (length job_ids))) {
        status = "running";
        started_at = some clock.rfc3339;
      }

  abbrev pub refuse_disabled : Dag → Action System Unit
  refuse_disabled dag =
      if not dag.enabled
      then throw (bad_request (str_append "DAG '" (str_append dag.name "' is disabled")))
      else pure tt

  abbrev pub refuse_empty : List DagEdge → Action System Unit
  refuse_empty [] = throw (bad_request "DAG has no edges — nothing to execute")
  refuse_empty (e ∷ edges) = pure tt

  unfoldable pub trigger_dag : (List String → List String) → String → String → Action System DagRun
  unfolding DagRepository.get_by_id DagRepository.get_edges_by_dag_id validate_no_cycles
      DagRepository.create_run DagRepository.create_node_execution
      DagRepository.update_node_execution DagRepository.get_node_executions_by_run_id
      DagRepository.get_run_by_id for_each advance_dag_run
  trigger_dag order dag_id trigger_type = do
    dag ← DagRepository.get_by_id dag_id
    refuse_disabled dag
    edges ← DagRepository.get_edges_by_dag_id dag_id
    refuse_empty edges
    lift (validate_no_cycles order edges)
    run ←
        DagRepository.create_run
          (running_run dag_id trigger_type (order (graph_of edges).all_nodes))
    for_each (create_node run.id) (order (graph_of edges).all_nodes)
    nodes ← DagRepository.get_node_executions_by_run_id run.id
    for_each (mark_root (find_root_nodes edges (order (graph_of edges).all_nodes))) nodes
    advance_dag_run run.id edges dag
    DagRepository.get_run_by_id run.id

  abbrev pub node_status : String → String
  node_status status =
      if status == "success"
      then "success"
      else if status == "cancelled"
      then "cancelled"
      else "failed"

  abbrev pub is_failure : String → Bool
  is_failure status = status == "failed" || status == "cancelled"

  abbrev pub count_node : String → DagRun → DagRun
  count_node status run = record run {
    completed_nodes = run.completed_nodes +ℤ pos 1;
    failed_nodes = if is_failure status then run.failed_nodes +ℤ pos 1 else run.failed_nodes;
  }

  -- A node that has not started is closed with a status.
  abbrev pub close_node : (DagNodeExecution → Bool) → String → DagNodeExecution → Action System Unit
  close_node which status node =
      if which node
      then DagRepository.update_node_execution
          (record node { status = status; completed_at = some clock.rfc3339 })
        >> pure tt
      else pure tt

  abbrev pub not_started : DagNodeExecution → Bool
  not_started n = node_with "waiting" n || node_with "ready" n

  abbrev pub is_open : DagNodeExecution → Bool
  is_open n = node_with "waiting" n || node_with "ready" n || node_with "running" n

  -- on_failure = "stop": the nodes that have not started are skipped, and the run fails once no node
  -- is running.
  unfoldable pub stop_run : String → Action System Unit
  unfolding DagRepository.get_node_executions_by_run_id DagRepository.update_node_execution
      DagRepository.get_run_by_id DagRepository.update_run for_each
  stop_run run_id = do
    all_nodes ← DagRepository.get_node_executions_by_run_id run_id
    for_each (close_node not_started "skipped") all_nodes
    if any (node_with "running") all_nodes then pure tt else (do
      final_run ← DagRepository.get_run_by_id run_id
      refreshed ← DagRepository.get_node_executions_by_run_id run_id
      DagRepository.update_run (record final_run {
        status = "failed";
        completed_at = some clock.rfc3339;
        completed_nodes = pos (length (filter (λ n. not (is_open n)) refreshed));
      })
      pure tt)

  abbrev pub final_status : List DagNodeExecution → String
  final_status nodes =
      if any (λ n. is_failure n.status) nodes
      then (if any (node_with "skipped") nodes then "partial" else "failed")
      else "success"

  -- The run is completed once every node has a terminal status.
  unfoldable pub complete_run : String → Action System Unit
  unfolding DagRepository.get_node_executions_by_run_id DagRepository.get_run_by_id
      DagRepository.update_run
  complete_run run_id = do
    all_nodes ← DagRepository.get_node_executions_by_run_id run_id
    if not (all (λ n. is_terminal_status n.status) all_nodes) then pure tt else (do
      final_run ← DagRepository.get_run_by_id run_id
      DagRepository.update_run (record final_run {
        status = final_status all_nodes;
        completed_at = some clock.rfc3339;
        completed_nodes = pos (length all_nodes);
      })
      pure tt)

  -- The part of `on_execution_complete` after the node was found.
  unfoldable pub node_complete : DagNodeExecution → Execution → Action System Unit
  unfolding DagRepository.update_node_execution DagRepository.get_run_by_id DagRepository.update_run
      DagRepository.get_by_id DagRepository.get_edges_by_dag_id stop_run advance_dag_run
      complete_run
  node_complete node execution = do
    DagRepository.update_node_execution
        (record node { status = node_status execution.status; completed_at = some clock.rfc3339 })
    run ← DagRepository.get_run_by_id node.dag_run_id
    DagRepository.update_run (count_node (node_status execution.status) run)
    dag ← DagRepository.get_by_id run.dag_id
    edges ← DagRepository.get_edges_by_dag_id run.dag_id
    if is_failure (node_status execution.status) && dag.on_failure == "stop"
        then stop_run run.id
        else (do advance_dag_run run.id edges dag; complete_run run.id)

  unfoldable pub on_execution_complete : String → Action System Unit
  unfolding DagRepository.find_node_by_execution_id ExecutionRepository.get_by_id node_complete
  on_execution_complete execution_id = do
    found ← DagRepository.find_node_by_execution_id execution_id
    elim found [
      | none ↦ pure tt
      | some node ↦ ExecutionRepository.get_by_id execution_id >>= node_complete node
    ]

  abbrev pub cannot_cancel : String → String
  cannot_cancel status = str_append "Cannot cancel DAG run in '" (str_append status "' status")

  unfoldable pub cancel_dag_run : String → Action System DagRun
  unfolding DagRepository.get_run_by_id DagRepository.get_node_executions_by_run_id
      DagRepository.update_node_execution DagRepository.update_run for_each
  cancel_dag_run run_id = do
    run ← DagRepository.get_run_by_id run_id
    if not (run.status == "running") && not (run.status == "pending")
        then throw (bad_request (cannot_cancel run.status))
        else (do
          nodes ← DagRepository.get_node_executions_by_run_id run_id
          for_each (close_node is_open "cancelled") nodes
          DagRepository.update_run
              (record run { status = "cancelled"; completed_at = some clock.rfc3339 }))
