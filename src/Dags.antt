-- ===== src/Dags.antt =====
-- services/dag_service.rs: DagService, its edges and its checks of them. The maps of the algorithms are
-- functions, with the keys in the list of nodes. The order in which a HashMap gives its keys is not
-- specified: it is the argument `order`.
pub mod Counts
pub mod Invariant
pub mod Sweep
pub mod Acyclic
pub mod Edges
pub mod Levels
pub mod Requests
pub mod Rows
pub mod WellFormed
use serverust_less.Prelude.{
  ℕ, zero, suc, ◌+◌, ◌-◌, nat_eq, Bool, true, false, not, ◌||◌, String, Option, none, some, List,
  [], ◌∷◌, ◌++◌, filter, length, ◌==◌, if◌then◌else◌, elem,
}
use mathlib.Core.Option.{get_or}
use serverust_less.Action.{
  Action, Result, ok, err, validation, not_found, pure, throw, lift, ◌>>=◌, ◌>>◌,
}
use serverust_less.Model.Clock.{Clock}
use serverust_less.Model.Dag.{Dag, DagEdge, new_edge}
use serverust_less.Db.{System}
use serverust_less.Db.DagRepository

pub record Graph : Type 0 where
  pub all_nodes : List String
  pub in_degree : String → Option ℕ
  pub adj : String → Option (List String)

abbrev pub put {ℓ} : {A : Type ℓ} → String → A → (String → Option A) → String → Option A
put key value entries k = if k == key then some value else entries k

abbrev pub insert : String → List String → List String
insert node nodes = if elem node nodes then nodes else nodes ++ node ∷ []

-- `*in_degree.entry(node).or_insert(0) += n`
abbrev pub bump : String → (ℕ → ℕ) → (String → Option ℕ) → String → Option ℕ
bump node change degrees = put node (change (get_or (degrees node) 0)) degrees

-- The body of the loop over the edges.
abbrev pub insert_edge : DagEdge → Graph → Graph
insert_edge edge g = record {
  all_nodes = insert edge.downstream_job_id (insert edge.upstream_job_id g.all_nodes);
  in_degree = bump edge.upstream_job_id (λ n. n) (bump edge.downstream_job_id suc g.in_degree);
  adj =
      put edge.upstream_job_id
        (get_or (g.adj edge.upstream_job_id) [] ++ edge.downstream_job_id ∷ []) g.adj;
}

unfoldable pub build : List DagEdge → Graph → Graph
build [] g = g
build (edge ∷ edges) g = build edges (insert_edge edge g)

abbrev pub empty : Graph
empty = record { all_nodes = []; in_degree = λ _. none; adj = λ _. none }

abbrev pub graph_of : List DagEdge → Graph
graph_of edges = build edges empty

-- The state of the loop over the queue.
pub record Progress : Type 0 where
  pub degrees : String → Option ℕ
  pub queue : List String
  pub sorted : List String

-- One neighbour: its count is lowered, and it is queued at 0.
abbrev pub lower_one : String → Progress → Progress
lower_one neighbor k = elim (k.degrees neighbor) [
  | none ↦ k
  | some degree ↦ record k {
    degrees = put neighbor (degree - 1) k.degrees;
    queue = if nat_eq (degree - 1) 0 then k.queue ++ neighbor ∷ [] else k.queue;
  }
]

unfoldable pub lower_all : List String → Progress → Progress
lower_all [] k = k
lower_all (neighbor ∷ neighbors) k = lower_all neighbors (lower_one neighbor k)

-- One turn: the front of the queue is sorted, and its neighbours are lowered.
abbrev pub turn_at : (String → Option (List String)) → List String → Progress → Progress
turn_at adj [] k = k
turn_at adj (node ∷ queue) k =
    lower_all (get_or (adj node) []) (record k { queue = queue; sorted = k.sorted ++ node ∷ [] })

unfoldable pub sweep : (String → Option (List String)) → ℕ → Progress → Progress
unfolding lower_all
sweep adj zero k = k
sweep adj (suc n) k = sweep adj n (turn_at adj k.queue k)

abbrev pub is_root : (String → Option ℕ) → String → Bool
is_root degrees node = elim (degrees node) [ none ↦ false | some degree ↦ nat_eq degree 0 ]

abbrev pub cycle : String
cycle = "DAG contains a cycle — cannot add this edge"

module _ (order : List String → List String) where
  abbrev pub initial : Graph → Progress
  initial g = record {
    degrees = g.in_degree;
    queue = filter (is_root g.in_degree) (order g.all_nodes);
    sorted = [];
  }

  -- A turn for each node: the queue is empty then.
  abbrev pub finished : List DagEdge → Progress
  finished edges = let g = graph_of edges in sweep g.adj (length g.all_nodes) (initial g)

  unfoldable pub validate_no_cycles : List DagEdge → Result (List String)
  unfolding build sweep
  validate_no_cycles edges =
      let sorted = (finished edges).sorted in
      if nat_eq (length sorted) (length (graph_of edges).all_nodes)
      then ok sorted
      else err (validation cycle)

-- The loop over the levels: as many turns as the queue is long at the start of a level.
unfoldable pub levels_from : (String → Option (List String)) → ℕ → Progress → List (List String)
unfolding sweep
levels_from adj zero k = []
levels_from adj (suc fuel) k =
    let next = sweep adj (length k.queue) (record k { sorted = [] }) in
    elim k.queue [ [] ↦ [] | node ∷ queue ↦ next.sorted ∷ levels_from adj fuel next ]

abbrev pub sum_lengths : List (List String) → ℕ
sum_lengths [] = 0
sum_lengths (level ∷ levels) = length level + sum_lengths levels

module _ (order : List String → List String) where
  -- A level for each node is enough, since no level is empty.
  abbrev pub all_levels : List DagEdge → List (List String)
  all_levels edges =
      let g = graph_of edges in levels_from g.adj (length g.all_nodes) (initial order g)

  unfoldable pub topological_levels : List DagEdge → Result (List (List String))
  unfolding build levels_from
  topological_levels [] = ok []
  topological_levels (edge ∷ edges) =
      if nat_eq (sum_lengths (all_levels (edge ∷ edges)))
        (length (graph_of (edge ∷ edges)).all_nodes)
      then ok (all_levels (edge ∷ edges))
      else err (validation "DAG contains a cycle")

abbrev pub is_condition : String → Bool
is_condition c = c == "success" || c == "failure" || c == "always" || c == "skipped"

module _ (order : List String → List String) where
  -- The fresh identifier and the fields of the request are arguments.
  unfoldable pub add_edge :
      Clock → String → String → String → String → String → Action System DagEdge
  unfolding DagRepository.get_by_id DagRepository.get_edges_by_dag_id DagRepository.create_edge
      validate_no_cycles
  add_edge clock id dag_id upstream downstream condition = do
    DagRepository.get_by_id dag_id
    if upstream == downstream
        then throw (validation "A job cannot depend on itself")
        else if not (is_condition condition)
        then throw (validation "condition must be one of: success, failure, always, skipped")
        else (do
          edges ← DagRepository.get_edges_by_dag_id dag_id
          lift (
              validate_no_cycles order
                (edges ++ new_edge clock id dag_id upstream downstream condition ∷ []))
          DagRepository.create_edge (new_edge clock id dag_id upstream downstream condition))

unfoldable pub delete_edge : String → String → Action System Unit
unfolding DagRepository.get_edge_by_id DagRepository.delete_edge
delete_edge dag_id edge_id = do
  edge ← DagRepository.get_edge_by_id edge_id
  if not (edge.dag_id == dag_id)
      then throw (not_found "Edge not found in this DAG")
      else DagRepository.delete_edge edge_id
