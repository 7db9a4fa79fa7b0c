-- ===== src/Engine/Ready.antt =====
-- dag/engine.rs: which nodes of a run may start, from the statuses of the others.
use serverust_less.Prelude.{
  ℕ, zero, suc, ℤ, pos, pos_part, ◌-ℤ◌, max_ℤ, Bool, false, not, ◌||◌, ◌&&◌, String, Option, none,
  some, List, [], ◌∷◌, filter, length, any, all, ◌==◌, if◌then◌else◌,
}
use serverust_less.Model.Dag.{Dag, DagEdge, DagNodeExecution}

-- The map from jobs to statuses: the last node of a job counts.
abbrev pub status_of : String → List DagNodeExecution → Option String
status_of job_id [] = none
status_of job_id (n ∷ nodes) = elim (status_of job_id nodes) [
  | some status ↦ some status
  | none ↦ if n.job_id == job_id then some n.status else none
]

abbrev pub is_terminal_status : String → Bool
is_terminal_status status =
    status == "success" || status == "failed" || status == "skipped" || status == "cancelled"

-- Whether an upstream status satisfies the condition of an edge.
abbrev pub satisfies : String → String → Bool
satisfies condition status =
    if condition == "success"
    then status == "success"
    else if condition == "failure"
    then status == "failed"
    else if condition == "always"
    then is_terminal_status status
    else if condition == "skipped"
    then status == "skipped"
    else status == "success"

abbrev pub edge_satisfied : List DagNodeExecution → DagEdge → Bool
edge_satisfied nodes e = elim (status_of e.upstream_job_id nodes) [
  | none ↦ false
  | some status ↦ satisfies e.condition status
]

abbrev pub is_node_ready : String → List DagEdge → List DagNodeExecution → Bool
is_node_ready job_id edges nodes =
    all (edge_satisfied nodes) (filter (λ e. e.downstream_job_id == job_id) edges)

abbrev pub find_root_nodes : List DagEdge → List String → List String
find_root_nodes edges job_ids =
    filter (λ id. not (any (λ e. e.downstream_job_id == id) edges)) job_ids

abbrev pub node_with : String → DagNodeExecution → Bool
node_with status n = n.status == status

abbrev pub available_slots : Dag → List DagNodeExecution → ℤ
available_slots dag nodes =
    max_ℤ (dag.max_concurrent_nodes -ℤ pos (length (filter (node_with "running") nodes))) (pos 0)

-- The waiting nodes that are ready, until the slots are filled.
abbrev pub pick : (DagNodeExecution → Bool) → ℕ → List DagNodeExecution → List DagNodeExecution
pick ready zero nodes = []
pick ready (suc slots) [] = []
pick ready (suc slots) (n ∷ nodes) =
    let skipped = pick ready (suc slots) nodes in
    let taken = n ∷ pick ready slots nodes in
    if node_with "waiting" n && ready n then taken else skipped

abbrev pub newly_ready : Dag → List DagEdge → List DagNodeExecution → List DagNodeExecution
newly_ready dag edges nodes =
    pick (λ n. is_node_ready n.job_id edges nodes) (pos_part (available_slots dag nodes)) nodes
