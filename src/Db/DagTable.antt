-- ===== src/Db/DagTable.antt =====
-- db/dags.rs: the statements on the table `dags`, whose ids and names are unique.
use serverust_less.Prelude.{
  Bool, ◌&&◌, ◌||◌, not, String, List, [], ◌∷◌, ◌++◌, map, any, filter, ◌==◌, str_append,
  if◌then◌else◌, order_by, compare_text,
}
use serverust_less.Action.{Action, ok, err, not_found, db_error}
use serverust_less.Model.Dag.{Dag, DagRun, DagNodeExecution}
use serverust_less.Db.State.{System}
use serverust_less.Db.DagRepository.{get_by_id}

abbrev pub dag_named : String → Dag → Bool
dag_named id d = d.id == id

abbrev pub titled : String → Dag → Bool
titled name d = d.name == name

-- The tables with the rows of DAGs replaced.
abbrev pub with_dags : List Dag → System → System
with_dags rows s = record s { db = record s.db { dags = rows } }

unfoldable pub create : Dag → Action System Dag
unfolding get_by_id
create dag s =
    if any (dag_named dag.id) s.dags || any (titled dag.name) s.dags
    then (err (db_error "UNIQUE constraint failed: dags.name"), s)
    else get_by_id dag.id (with_dags (s.dags ++ dag ∷ []) s)

abbrev pub write_dag : Dag → Dag → Dag
write_dag dag row =
    if row.id == dag.id
    then record row {
      name = dag.name;
      description = dag.description;
      enabled = dag.enabled;
      max_concurrent_nodes = dag.max_concurrent_nodes;
      on_failure = dag.on_failure;
      updated_at = dag.updated_at;
    }
    else row

-- Another row has the name.
abbrev pub name_clash : Dag → Dag → Bool
name_clash dag row = titled dag.name row && not (row.id == dag.id)

-- Without a row of the id, no row changes, and the read fails.
unfoldable pub update : Dag → Action System Dag
unfolding get_by_id
update dag s =
    if any (dag_named dag.id) s.dags && any (name_clash dag) s.dags
    then (err (db_error "UNIQUE constraint failed: dags.name"), s)
    else get_by_id dag.id (with_dags (map (write_dag dag) s.dags) s)

-- The run is one of the DAG.
abbrev run_of : String → List DagRun → DagNodeExecution → Bool
run_of id runs n = any (λ r. r.dag_id == id && r.id == n.dag_run_id) runs

-- The edges and the runs of the DAG go with it, and the nodes with their run.
unfoldable pub delete : String → Action System Unit
delete id s =
    if any (dag_named id) s.dags
    then (
      ok tt,
      record s {
        db = record s.db {
          dags = filter (λ d. not (d.id == id)) s.dags;
          dag_edges = filter (λ e. not (e.dag_id == id)) s.dag_edges;
          dag_runs = filter (λ r. not (r.dag_id == id)) s.dag_runs;
          dag_node_executions = filter (λ n. not (run_of id s.dag_runs n)) s.dag_node_executions;
        };
      },
    )
    else (err (not_found (str_append "DAG not found: " id)), s)

-- The total beside the rows is their number.
unfoldable pub list_all : Action System (List Dag)
list_all s = (ok (order_by (λ a b. compare_text b.created_at a.created_at) s.dags), s)
