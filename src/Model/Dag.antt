-- ===== src/Model/Dag.antt =====
-- Dag, DagEdge, DagRun and DagNodeExecution of models/dag.rs.
use serverust_less.Prelude.{Bool, true, String, Option, none, ℤ, pos}
use serverust_less.Model.Clock.{Clock}

pub record Dag : Type 0 where
  pub id : String
  pub name : String
  pub description : Option String
  pub enabled : Bool
  pub max_concurrent_nodes : ℤ
  pub on_failure : String
  pub created_at : String
  pub updated_at : String

pub record DagEdge : Type 0 where
  pub id : String
  pub dag_id : String
  pub upstream_job_id : String
  pub downstream_job_id : String
  pub condition : String
  pub created_at : String

pub record DagRun : Type 0 where
  pub id : String
  pub dag_id : String
  pub status : String
  pub trigger_type : String
  pub started_at : Option String
  pub completed_at : Option String
  pub total_nodes : ℤ
  pub completed_nodes : ℤ
  pub failed_nodes : ℤ
  pub created_at : String

pub record DagNodeExecution : Type 0 where
  pub id : String
  pub dag_run_id : String
  pub job_id : String
  pub execution_id : Option String
  pub status : String
  pub started_at : Option String
  pub completed_at : Option String
  pub created_at : String

-- The fresh identifiers are arguments.
abbrev pub new_dag : Clock → String → String → Option String → ℤ → String → Dag
new_dag clock id name description max_concurrent_nodes on_failure = record {
  id = id;
  name = name;
  description = description;
  enabled = true;
  max_concurrent_nodes = max_concurrent_nodes;
  on_failure = on_failure;
  created_at = clock.rfc3339;
  updated_at = clock.rfc3339;
}

abbrev pub new_edge : Clock → String → String → String → String → String → DagEdge
new_edge clock id dag_id upstream_job_id downstream_job_id condition = record {
  id = id;
  dag_id = dag_id;
  upstream_job_id = upstream_job_id;
  downstream_job_id = downstream_job_id;
  condition = condition;
  created_at = clock.rfc3339;
}

abbrev pub new_run : Clock → String → String → String → ℤ → DagRun
new_run clock id dag_id trigger_type total_nodes = record {
  id = id;
  dag_id = dag_id;
  status = "pending";
  trigger_type = trigger_type;
  started_at = none;
  completed_at = none;
  total_nodes = total_nodes;
  completed_nodes = pos 0;
  failed_nodes = pos 0;
  created_at = clock.rfc3339;
}

abbrev pub new_node : Clock → String → String → String → DagNodeExecution
new_node clock id dag_run_id job_id = record {
  id = id;
  dag_run_id = dag_run_id;
  job_id = job_id;
  execution_id = none;
  status = "waiting";
  started_at = none;
  completed_at = none;
  created_at = clock.rfc3339;
}
