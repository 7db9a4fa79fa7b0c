-- ===== src/Samples/Runs.antt =====
-- A run of a DAG at a sample.
use serverust_less.Prelude.{
  false, some, String, List, [], ◌∷◌, ◌≡◌, refl, length, str_append, order_by, map, none, pos,
  leb_ℤ, nat_eq, filter, All, ◌+◌, ◌&&◌, ◌||◌, true,
}
use serverust_less.Samples.{noon, manager}
use serverust_less.Samples.Flows.{flow, chain, as_is}
use serverust_less.Db.{System}
use serverust_less.Action.{ok}
use serverust_less.Engine.{Ids, trigger_dag, node_with, is_node_ready, newly_ready}
use serverust_less.Engine.Marking.{Quiet, of_run}
use serverust_less.Engine.{cancel_dag_run, is_open}
use serverust_less.Engine.Cancel.{cancel_dag_run-Ended}
use serverust_less.Model.Dag.{DagRun, new_run}
use serverust_less.Engine.Trigger.{trigger_dag-Quiet}
use serverust_less.Engine.Advance.{newly_ready-Fits}
use serverust_less.Model.Dag.{Dag, DagNodeExecution, new_dag, new_node}

abbrev ids : Ids
ids = record {
  run = "r1";
  node = str_append "n-";
  execution = str_append "e-";
  entry = str_append "q-";
}

abbrev triggered : System
triggered = (trigger_dag manager ids noon as_is "d1" "manual" flow).1

triggered-statuses :
    map (λ n. n.status) triggered.dag_node_executions ≡ "ready" ∷ "waiting" ∷ "waiting" ∷ []
unfolding trigger_dag order_by
triggered-statuses = refl

triggered-executions : triggered.executions ≡ flow.executions
unfolding trigger_dag order_by
triggered-executions = refl

abbrev flow_dag : Dag
flow_dag = new_dag noon "d1" "flow" none (pos 4) "stop"

abbrev node : String → String → DagNodeExecution
node job_id status = record (new_node noon (str_append "n-" job_id) "r1" job_id) { status = status }

-- The root has succeeded: its successor can start.
abbrev progressed : List DagNodeExecution
progressed = node "a" "success" ∷ node "b" "waiting" ∷ node "c" "waiting" ∷ []

newly_ready-Fits_example :
    All
      (λ n. (node_with "waiting" n && is_node_ready n.job_id chain progressed) ≡ true)
      (newly_ready flow_dag chain progressed)
    × ((leb_ℤ
            (pos (
              length (filter (node_with "running") progressed)
              + length (newly_ready flow_dag chain progressed)))
            (pos 4)
          || nat_eq (length (newly_ready flow_dag chain progressed)) 0)
        ≡ true)
newly_ready-Fits_example = newly_ready-Fits flow_dag chain progressed

trigger_dag-Quiet_example : Quiet flow (trigger_dag manager ids noon as_is "d1" "manual" flow).1
trigger_dag-Quiet_example = trigger_dag-Quiet manager ids noon as_is flow refl "d1" "manual"

-- The run as triggered, and its row.
abbrev stopped_run : DagRun
stopped_run = record (new_run noon "r1" "d1" "manual" (pos 3)) {
  status = "cancelled";
  started_at = some noon.rfc3339;
  completed_at = some noon.rfc3339;
}

triggered-cancelled : (cancel_dag_run manager ids noon "r1" triggered).0 ≡ ok stopped_run
unfolding cancel_dag_run trigger_dag order_by
triggered-cancelled = refl

cancel_dag_run-Ended_example :
    All
      (λ x. (of_run "r1" x && is_open manager ids noon x) ≡ false)
      (cancel_dag_run manager ids noon "r1" triggered).1.dag_node_executions
    × (stopped_run.status ≡ "cancelled")
cancel_dag_run-Ended_example =
    cancel_dag_run-Ended manager ids noon "r1" triggered {run = stopped_run} triggered-cancelled
