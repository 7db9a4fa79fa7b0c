-- ===== src/Engine/Advance.antt =====
-- Which nodes a run starts, and how many.
use serverust_less.Prelude.{
  ◌≡◌, refl, sym, subst, ℕ, zero, suc, ◌+◌, ◌≤◌, ℤ, pos, negsuc, pos_part, max_ℤ, ◌-ℤ◌, Bool, true,
  false, not, ◌&&◌, ◌||◌, String, some, List, [], ◌∷◌, length, filter, All, any, all, arith, ◌==◌,
  Bool-cases, Option-cases, inl, inr, eq_iff, leb_ℤ, nat_eq,
}
use serverust_less.Action.{ok, for_each}
use serverust_less.Model.Clock.{Clock}
use serverust_less.Model.Dag.{Dag, DagEdge, DagNodeExecution}
use serverust_less.Db.{System}
use serverust_less.Db.DagRepository.{nodes_of}
use serverust_less.Queue.{QueueManager}
use serverust_less.Engine.{
  Ids, advance_dag_run, pick, newly_ready, is_node_ready, edge_satisfied, satisfies, status_of,
  node_with, available_slots,
}

length-pick :
    (ready : DagNodeExecution → Bool) (slots : ℕ) (nodes : List DagNodeExecution)
    → length (pick ready slots nodes) ≤ slots
length-pick ready zero nodes = omega arith
length-pick ready (suc slots) [] = omega arith
length-pick ready (suc slots) (n ∷ nodes) =
    ground (arith, length-pick ready slots nodes, length-pick ready (suc slots) nodes)

All-pick :
    (ready : DagNodeExecution → Bool) (slots : ℕ) (nodes : List DagNodeExecution)
    → All (λ n. (node_with "waiting" n && ready n) ≡ true) (pick ready slots nodes)
All-pick ready zero nodes = tt
All-pick ready (suc slots) [] = tt
All-pick ready (suc slots) (n ∷ nodes) =
    ground (arith, All-pick ready slots nodes, All-pick ready (suc slots) nodes)

-- As many more as there are slots stay within the limit.
slots_lem :
    (m : ℤ) (r k : ℕ)
    → k ≤ pos_part (max_ℤ (m -ℤ pos r) (pos 0))
    → (leb_ℤ (pos (r + k)) m || nat_eq k 0) ≡ true
slots_lem (pos m) r k h = ground arith
slots_lem (negsuc m) r k h = ground arith

-- The nodes that a step of a run starts were waiting, and the status of every upstream node satisfies
-- the condition of its edge. Together with the running nodes they are at most as many as the DAG's
-- limit, or none is started.
pub newly_ready-Fits :
    (dag : Dag) (edges : List DagEdge) (nodes : List DagNodeExecution)
    → All
        (λ n. (node_with "waiting" n && is_node_ready n.job_id edges nodes) ≡ true)
        (newly_ready dag edges nodes)
      × (leb_ℤ
            (pos
              (length (filter (node_with "running") nodes) + length (newly_ready dag edges nodes)))
            dag.max_concurrent_nodes
          || nat_eq (length (newly_ready dag edges nodes)) 0)
        ≡ true
newly_ready-Fits dag edges nodes = (
  All-pick _ _ nodes,
  slots_lem dag.max_concurrent_nodes (length (filter (node_with "running") nodes)) _
      (length-pick _ _ nodes),
)

-- Nothing is picked where no waiting node is ready.
pick-none :
    (ready : DagNodeExecution → Bool) (slots : ℕ) (nodes : List DagNodeExecution)
    → All (λ n. (node_with "waiting" n && ready n) ≡ false) nodes
    → pick ready slots nodes ≡ []
pick-none ready zero nodes h = refl
pick-none ready (suc slots) [] h = refl
pick-none ready (suc slots) (n ∷ nodes) h =
    ground (arith, h.0, pick-none ready (suc slots) nodes h.1)

-- A node that has not finished: waiting, or ready.
abbrev pub is_unstarted : DagNodeExecution → Bool
is_unstarted n = node_with "waiting" n || node_with "ready" n

status_of-unstarted :
    (job_id : String) (nodes : List DagNodeExecution) {status : String}
    → All (λ n. is_unstarted n ≡ true) nodes
    → status_of job_id nodes ≡ some status
    → (status == "waiting" || status == "ready") ≡ true
status_of-unstarted job_id [] h found = ground (arith, found)
status_of-unstarted job_id (n ∷ nodes) {status} h found =
    elim (Option-cases (status_of job_id nodes)) [
      | inl missing ↦ ground (arith, found, missing, h.0)
      | inr (later, there) ↦
          ground (arith, found, there, status_of-unstarted job_id nodes h.1 there)
    ]

-- No condition is satisfied by a node that has not started.
satisfies-unstarted :
    (condition status : String)
    → (status == "waiting" || status == "ready") ≡ true
    → satisfies condition status ≡ false
satisfies-unstarted condition status h = elim (Bool-cases (status == "waiting")) [
  | inl waits ↦
      subst (λ t. satisfies condition t ≡ false) (sym ((eq_iff status "waiting").0 waits))
        (ground arith)
  | inr other ↦
      let ready : (status == "ready") ≡ true = ground (arith, h, other) in
      subst (λ t. satisfies condition t ≡ false) (sym ((eq_iff status "ready").0 ready))
        (ground arith)
]

edge-unsatisfied :
    (nodes : List DagNodeExecution) (e : DagEdge)
    → All (λ n. is_unstarted n ≡ true) nodes
    → edge_satisfied nodes e ≡ false
edge-unsatisfied nodes e h = elim (Option-cases (status_of e.upstream_job_id nodes)) [
  | inl missing ↦ ground (arith, missing)
  | inr (status, found) ↦ ground (
    arith,
    found,
    satisfies-unstarted e.condition status (status_of-unstarted e.upstream_job_id nodes h found),
  )
]

filtered_all_lem :
    (p q : DagEdge → Bool) (es : List DagEdge)
    → ((e : DagEdge) → q e ≡ false)
    → any p es ≡ true
    → all q (filter p es) ≡ false
filtered_all_lem p q [] h some_pass = ground (arith, some_pass)
filtered_all_lem p q (e ∷ es) h some_pass =
    ground (arith, filtered_all_lem p q es h, h e, some_pass)

-- Whether an edge leads to the node.
abbrev pub has_upstream : List DagEdge → DagNodeExecution → Bool
has_upstream edges n = any (λ e. e.downstream_job_id == n.job_id) edges

module _ (edges : List DagEdge) (all_nodes : List DagNodeExecution)
    (unstarted : All (λ n. is_unstarted n ≡ true) all_nodes) where
  none_ready :
      (nodes : List DagNodeExecution)
      → All (λ n. (node_with "waiting" n && not (has_upstream edges n)) ≡ false) nodes
      → All (λ n. (node_with "waiting" n && is_node_ready n.job_id edges all_nodes) ≡ false) nodes
  none_ready [] h = tt
  none_ready (n ∷ nodes) h = (
    elim (Bool-cases (has_upstream edges n)) [
      | inl fed ↦ ground (
        arith,
        filtered_all_lem (λ e. e.downstream_job_id == n.job_id) (edge_satisfied all_nodes) edges
            (λ e. edge-unsatisfied all_nodes e unstarted) fed,
      )
      | inr root ↦ ground (arith, root, h.0)
    ],
    none_ready nodes h.1,
  )

-- A run all of whose nodes are waiting or ready, with an edge into every waiting one, does not move:
-- the step succeeds and changes nothing, so it starts no node.
pub advance_dag_run-stalls :
    (qm : QueueManager) (ids : Ids) (clock : Clock) (run_id : String) (edges : List DagEdge)
    (dag : Dag) (s : System)
    → All (λ n. is_unstarted n ≡ true) (nodes_of run_id s.dag_node_executions)
    → All
        (λ n. (node_with "waiting" n && not (has_upstream edges n)) ≡ false)
        (nodes_of run_id s.dag_node_executions)
    → advance_dag_run qm ids clock run_id edges dag s ≡ (ok tt, s)
unfolding advance_dag_run for_each
advance_dag_run-stalls qm ids clock run_id edges dag s unstarted fed =
    let nodes = nodes_of run_id s.dag_node_executions in
    ground (
      arith,
      pick-none (λ n. is_node_ready n.job_id edges nodes) (pos_part (available_slots dag nodes))
          nodes (none_ready edges nodes unstarted nodes fed),
    )
