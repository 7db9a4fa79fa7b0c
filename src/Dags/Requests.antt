-- ===== src/Dags/Requests.antt =====
-- services/dag_service.rs: the creation and update of a DAG, and what the service tells of its edges.
use serverust_less.Prelude.{
  ℕ, Bool, true, false, not, ◌||◌, String, Option, none, some, ℤ, pos, max_ℤ, List, [], ◌∷◌, length,
  ◌==◌, str_append, if◌then◌else◌,
}
use mathlib.Core.Option.{get_or}
use serverust_less.Action.{
  Action, Result, ok, err, AppError, not_found, bad_request, validation, db_error, internal,
  conflict, pure, throw, lift, ◌>>=◌, ◌>>◌,
}
use serverust_less.Model.Clock.{Clock}
use serverust_less.Model.Text.{trim}
use serverust_less.Model.Dag.{Dag, DagEdge, new_dag}
use serverust_less.Db.{System}
use serverust_less.Db.DagRepository
use serverust_less.Db.DagTable
use serverust_less.Dags.{topological_levels, sum_lengths}

pub record CreateDagRequest : Type 0 where
  pub name : String
  pub description : Option String
  pub max_concurrent_nodes : ℤ
  pub on_failure : String

pub record UpdateDagRequest : Type 0 where
  pub name : Option String
  pub description : Option String
  pub enabled : Option Bool
  pub max_concurrent_nodes : Option ℤ
  pub on_failure : Option String

abbrev pub is_on_failure : String → Bool
is_on_failure s = s == "stop" || s == "continue" || s == "retry"

abbrev pub empty_name : AppError
empty_name = validation "DAG name cannot be empty"

abbrev pub bad_on_failure : AppError
bad_on_failure = validation "on_failure must be one of: stop, continue, retry"

unfoldable pub create_dag : Clock → String → CreateDagRequest → Action System Dag
unfolding DagTable.create
create_dag clock id req =
    if trim req.name == ""
    then throw empty_name
    else if not (is_on_failure req.on_failure)
    then throw bad_on_failure
    else DagTable.create (
        new_dag clock id (trim req.name) req.description (max_ℤ req.max_concurrent_nodes (pos 1))
          req.on_failure)

abbrev pub rename : Option String → Dag → Result Dag
rename none dag = ok dag
rename (some name) dag =
    if trim name == "" then err empty_name else ok (record dag { name = trim name })

abbrev pub settle_failures : Option String → Dag → Result Dag
settle_failures none dag = ok dag
settle_failures (some s) dag =
    if is_on_failure s then ok (record dag { on_failure = s }) else err bad_on_failure

abbrev given : Option String → Option String → Option String
given none old = old
given (some new) old = some new

-- The fields that need no check.
abbrev pub apply_settings : UpdateDagRequest → Dag → Dag
apply_settings req dag = record dag {
  description = given req.description dag.description;
  enabled = get_or req.enabled dag.enabled;
  max_concurrent_nodes = elim req.max_concurrent_nodes [
    | none ↦ dag.max_concurrent_nodes
    | some n ↦ max_ℤ n (pos 1)
  ];
}

unfoldable pub update_dag : Clock → String → UpdateDagRequest → Action System Dag
unfolding DagRepository.get_by_id DagTable.update
update_dag clock id req = do
  dag ← DagRepository.get_by_id id
  renamed ← lift (rename req.name dag)
  settled ← lift (settle_failures req.on_failure (apply_settings req renamed))
  DagTable.update (record settled { updated_at = clock.rfc3339 })

unfoldable pub delete_dag : String → Action System Unit
unfolding DagTable.delete
delete_dag id = DagTable.delete id

unfoldable pub get_dag_detail : String → Action System (Dag × List DagEdge)
unfolding DagRepository.get_by_id DagRepository.get_edges_by_dag_id
get_dag_detail id = do
  dag ← DagRepository.get_by_id id
  edges ← DagRepository.get_edges_by_dag_id id
  pure (dag, edges)

pub record TopologyResponse : Type 0 where
  pub levels : List (List String)
  pub total_nodes : ℕ

pub record DagValidationResponse : Type 0 where
  pub valid : Bool
  pub total_nodes : ℕ
  pub total_edges : ℕ
  pub levels : List (List String)
  pub errors : List String

-- The `Display` of an error.
abbrev pub display : AppError → String
display (not_found m) = str_append "Not found: " m
display (bad_request m) = str_append "Bad request: " m
display (validation m) = str_append "Validation error: " m
display (db_error m) = str_append "Database error: " m
display (internal m) = str_append "Internal error: " m
display (conflict m) = str_append "Conflict: " m

abbrev no_edges : DagValidationResponse
no_edges = record {
  valid = true;
  total_nodes = 0;
  total_edges = 0;
  levels = [];
  errors = "DAG has no edges defined" ∷ [];
}

abbrev pub report : ℕ → Result (List (List String)) → DagValidationResponse
report total_edges (ok levels) = record {
  valid = true;
  total_nodes = sum_lengths levels;
  total_edges = total_edges;
  levels = levels;
  errors = [];
}
report total_edges (err e) = record {
  valid = false;
  total_nodes = 0;
  total_edges = total_edges;
  levels = [];
  errors = str_append "Cycle detected: " (display e) ∷ [];
}

module _ (order : List String → List String) where
  abbrev report_edges : List DagEdge → DagValidationResponse
  report_edges [] = no_edges
  report_edges (edge ∷ edges) =
      report (length (edge ∷ edges)) (topological_levels order (edge ∷ edges))

  -- The DAG itself is not read.
  unfoldable pub get_topology : String → Action System TopologyResponse
  unfolding DagRepository.get_edges_by_dag_id topological_levels
  get_topology dag_id = do
    edges ← DagRepository.get_edges_by_dag_id dag_id
    levels ← lift (topological_levels order edges)
    pure (record { levels = levels; total_nodes = sum_lengths levels })

  unfoldable pub validate_dag : String → Action System DagValidationResponse
  unfolding DagRepository.get_by_id DagRepository.get_edges_by_dag_id topological_levels
  validate_dag dag_id = do
    DagRepository.get_by_id dag_id
    edges ← DagRepository.get_edges_by_dag_id dag_id
    pure (report_edges edges)
