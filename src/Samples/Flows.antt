-- ===== src/Samples/Flows.antt =====
-- The DAG of services/dag_service.rs at a sample.
use serverust_less.Prelude.{
  String, ℕ, some, negsuc, if◌then◌else◌, none, List, [], ◌∷◌, pos, ◌≡◌, refl, arith, ◌==◌,
}
use serverust_less.Model.Job.{Job}
use serverust_less.Db.{System, empty_db}
use serverust_less.Action.{ok, err, validation}
use serverust_less.Model.Dag.{DagEdge, new_edge, new_dag}
use serverust_less.Dags.{validate_no_cycles, finished, add_edge, cycle}
use serverust_less.Dags.Acyclic.{
  Iterates, IsAcyclic, Topological, finished-ends, validate_no_cycles-Topological,
  validate_no_cycles-IsAcyclic,
}
use serverust_less.Dags.Requests.{CreateDagRequest, UpdateDagRequest}
use serverust_less.Dags.Rows.{IsSound}
use serverust_less.Dags.WellFormed.{creates, updates, serve, serve-IsSound}
use serverust_less.Dags.Edges.{DagIsAcyclic, add_edge-DagIsAcyclic}
use serverust_less.Samples.{noon, job, waiting}

-- Three jobs in a row, and the order of keys that a map happens to give.
abbrev edge : String → String → String → DagEdge
edge id up down = new_edge noon id "d1" up down "success"

abbrev pub chain : List DagEdge
chain = edge "x1" "a" "b" ∷ edge "x2" "b" "c" ∷ []

abbrev pub as_is : List String → List String
as_is nodes = nodes

as_is-Iterates : Iterates as_is
as_is-Iterates = record { nodup = λ xs h. h; same = λ x xs. refl }

chain-accepted : validate_no_cycles as_is chain ≡ ok ("a" ∷ "b" ∷ "c" ∷ [])
unfolding validate_no_cycles
chain-accepted = refl

cycle-refused : validate_no_cycles as_is (edge "x3" "c" "a" ∷ chain) ≡ err (validation cycle)
unfolding validate_no_cycles
cycle-refused = refl

abbrev chain_rank : String → ℕ
chain_rank w = if w == "a" then 0 else if w == "b" then 1 else 2

chain-IsAcyclic : IsAcyclic chain
chain-IsAcyclic = (chain_rank, (omega arith, (omega arith, tt)))

finished-ends_example : (finished as_is chain).queue ≡ []
finished-ends_example = finished-ends as_is as_is-Iterates chain

validate_no_cycles-Topological_example : Topological chain ("a" ∷ "b" ∷ "c" ∷ [])
validate_no_cycles-Topological_example =
    validate_no_cycles-Topological as_is as_is-Iterates chain ("a" ∷ "b" ∷ "c" ∷ []) chain-accepted

validate_no_cycles-IsAcyclic_example :
    (sorted : List String) × (validate_no_cycles as_is chain ≡ ok sorted)
validate_no_cycles-IsAcyclic_example =
    validate_no_cycles-IsAcyclic as_is as_is-Iterates chain chain-IsAcyclic

abbrev named : String → Job
named id = record job { id = id }

-- The chain as a DAG in the tables.
abbrev pub flow : System
flow = record waiting {
  db = record empty_db {
    jobs = named "a" ∷ named "b" ∷ named "c" ∷ [];
    dags = new_dag noon "d1" "flow" none (pos 4) "stop" ∷ [];
    dag_edges = chain;
  };
}

flow-DagIsAcyclic : DagIsAcyclic "d1" flow.dag_edges
flow-DagIsAcyclic = (chain_rank, ((λ _. omega arith), ((λ _. omega arith), tt)))

add_edge-DagIsAcyclic_example :
    DagIsAcyclic "d1" (add_edge as_is noon "x4" "d1" "a" "c" "always" flow).1.dag_edges
add_edge-DagIsAcyclic_example =
    add_edge-DagIsAcyclic as_is as_is-Iterates noon "x4" "d1" "a" "c" "always" flow "d1"
      flow-DagIsAcyclic

-- No DAG yet, then one, and an update of it.
abbrev nightly : CreateDagRequest
nightly = record {
  name = " nightly ";
  description = none;
  max_concurrent_nodes = negsuc 4;
  on_failure = "stop";
}

abbrev bounded : UpdateDagRequest
bounded = record {
  name = some "hourly";
  description = none;
  enabled = none;
  max_concurrent_nodes = some (pos 0);
  on_failure = some "retry";
}

abbrev created : System
created = serve (creates noon "d2" nightly) waiting

created-IsSound : IsSound created.dags
created-IsSound =
    serve-IsSound (creates noon "d2" nightly) waiting
      (record { dags = tt; ids = λ id. tt; names = λ name. tt })

serve-IsSound_example : IsSound (serve (updates noon "d2" bounded) created).dags
serve-IsSound_example = serve-IsSound (updates noon "d2" bounded) created created-IsSound
