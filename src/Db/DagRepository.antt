-- ===== src/Db/DagRepository.antt =====
-- db/dags.rs: the tables of DAGs, edges, runs and node executions.
use serverust_less.Prelude.{
  Bool, ◌&&◌, ◌||◌, not, String, Option, List, [], ◌∷◌, ◌++◌, map, find, any, filter, ◌==◌,
  str_append, if◌then◌else◌, order_by, compare_text, none, some, false,
}
use serverust_less.Action.{Action, ok, err, ok_or, not_found, db_error, conflict}
use serverust_less.Model.Dag.{Dag, DagEdge, DagRun, DagNodeExecution}
use serverust_less.Db.State.{System}

unfoldable pub get_by_id : String → Action System Dag
get_by_id id s =
    (ok_or (find (λ d. d.id == id) s.dags) (not_found (str_append "DAG not found: " id)), s)

unfoldable pub get_edge_by_id : String → Action System DagEdge
get_edge_by_id id s =
    (ok_or (find (λ e. e.id == id) s.dag_edges) (not_found (str_append "Edge not found: " id)), s)

abbrev pub edges_of : String → List DagEdge → List DagEdge
edges_of dag_id edges =
    order_by (λ a b. compare_text a.created_at b.created_at)
      (filter (λ e. e.dag_id == dag_id) edges)

unfoldable pub get_edges_by_dag_id : String → Action System (List DagEdge)
get_edges_by_dag_id dag_id s = (ok (edges_of dag_id s.dag_edges), s)

abbrev pub same_edge : DagEdge → DagEdge → Bool
same_edge a b =
    a.dag_id == b.dag_id
    && a.upstream_job_id == b.upstream_job_id
    && a.downstream_job_id == b.downstream_job_id

-- The triple (dag, upstream, downstream) is unique; the DAG and both jobs must exist.
unfoldable pub create_edge : DagEdge → Action System DagEdge
unfolding get_edge_by_id
create_edge edge s =
    if any (λ e. e.id == edge.id || same_edge e edge) s.dag_edges
    then (err (conflict "Edge already exists between these jobs in this DAG"), s)
    else if any (λ d. d.id == edge.dag_id) s.dags
        && any (λ j. j.id == edge.upstream_job_id) s.jobs
        && any (λ j. j.id == edge.downstream_job_id) s.jobs
    then get_edge_by_id edge.id
        (record s { db = record s.db { dag_edges = s.dag_edges ++ edge ∷ [] } })
    else (err (db_error "FOREIGN KEY constraint failed"), s)

unfoldable pub delete_edge : String → Action System Unit
delete_edge id s =
    if any (λ e. e.id == id) s.dag_edges
    then (
      ok tt,
      record s { db = record s.db { dag_edges = filter (λ e. not (e.id == id)) s.dag_edges } },
    )
    else (err (not_found (str_append "Edge not found: " id)), s)

unfoldable pub get_run_by_id : String → Action System DagRun
get_run_by_id id s =
    (ok_or (find (λ r. r.id == id) s.dag_runs) (not_found (str_append "DAG run not found: " id)), s)

unfoldable pub create_run : DagRun → Action System DagRun
unfolding get_run_by_id
create_run run s =
    if any (λ r. r.id == run.id) s.dag_runs
    then (err (db_error "UNIQUE constraint failed: dag_runs.id"), s)
    else if any (λ d. d.id == run.dag_id) s.dags
    then get_run_by_id run.id (record s { db = record s.db { dag_runs = s.dag_runs ++ run ∷ [] } })
    else (err (db_error "FOREIGN KEY constraint failed"), s)

-- The statement writes the status, the times and the counters of finished nodes.
abbrev pub write_run : DagRun → DagRun → DagRun
write_run run row =
    if row.id == run.id
    then record row {
      status = run.status;
      started_at = run.started_at;
      completed_at = run.completed_at;
      completed_nodes = run.completed_nodes;
      failed_nodes = run.failed_nodes;
    }
    else row

unfoldable pub update_run : DagRun → Action System DagRun
unfolding get_run_by_id
update_run run s =
    get_run_by_id run.id
      (record s { db = record s.db { dag_runs = map (write_run run) s.dag_runs } })

abbrev pub node_not_found : String → String
node_not_found id = str_append "Node execution not found: " id

unfoldable pub get_node_execution_by_id : String → Action System DagNodeExecution
get_node_execution_by_id id s =
    (ok_or (find (λ n. n.id == id) s.dag_node_executions) (not_found (node_not_found id)), s)

unfoldable pub create_node_execution : DagNodeExecution → Action System DagNodeExecution
unfolding get_node_execution_by_id
create_node_execution node s =
    if any (λ n. n.id == node.id) s.dag_node_executions
    then (err (db_error "UNIQUE constraint failed: dag_node_executions.id"), s)
    else if any (λ r. r.id == node.dag_run_id) s.dag_runs && any (λ j. j.id == node.job_id) s.jobs
    then get_node_execution_by_id node.id
        (record s { db = record s.db { dag_node_executions = s.dag_node_executions ++ node ∷ [] } })
    else (err (db_error "FOREIGN KEY constraint failed"), s)

-- The statement writes the execution, the status and the two times.
abbrev pub write_node : DagNodeExecution → DagNodeExecution → DagNodeExecution
write_node node row =
    if row.id == node.id
    then record row {
      execution_id = node.execution_id;
      status = node.status;
      started_at = node.started_at;
      completed_at = node.completed_at;
    }
    else row

unfoldable pub update_node_execution : DagNodeExecution → Action System DagNodeExecution
unfolding get_node_execution_by_id
update_node_execution node s = get_node_execution_by_id node.id (record s {
  db = record s.db { dag_node_executions = map (write_node node) s.dag_node_executions };
})

abbrev pub nodes_of : String → List DagNodeExecution → List DagNodeExecution
nodes_of run_id nodes =
    order_by (λ a b. compare_text a.created_at b.created_at)
      (filter (λ n. n.dag_run_id == run_id) nodes)

unfoldable pub get_node_executions_by_run_id : String → Action System (List DagNodeExecution)
get_node_executions_by_run_id run_id s = (ok (nodes_of run_id s.dag_node_executions), s)

abbrev has_execution : String → DagNodeExecution → Bool
has_execution execution_id n = elim n.execution_id [ none ↦ false | some e ↦ e == execution_id ]

unfoldable pub find_node_by_execution_id : String → Action System (Option DagNodeExecution)
find_node_by_execution_id execution_id s =
    (ok (find (has_execution execution_id) s.dag_node_executions), s)
