-- ===== src/Engine/Trigger.antt =====
-- Triggering a DAG starts none of its nodes.
use serverust_less.Prelude.{
  ◌≡◌, refl, sym, subst, true, false, String, List, [], ◌∷◌, any, find, All, elem, arith, ◌==◌,
  eq_iff, eq_refl, find-eq-some, Option-cases, inl, inr, ◌++◌,
}
use serverust_less.Action.{Action, Result, ok, lift, for_each, ◌>>=◌, ◌>>◌}
use serverust_less.Action.Post.{Post, bind-Post, always-Post, result-Post, state-Post}
use serverust_less.Model.Clock.{Clock}
use serverust_less.Model.Dag.{Dag, DagEdge, DagRun, DagNodeExecution}
use serverust_less.Db.{System}
use serverust_less.Db.DagRepository.{
  get_by_id, get_edges_by_dag_id, create_run, get_run_by_id, get_node_executions_by_run_id,
  nodes_of, edges_of,
}
use serverust_less.Queue.{QueueManager}
use serverust_less.Dags.{graph_of, validate_no_cycles}
use serverust_less.Engine.{
  Ids, trigger_dag, refuse_disabled, refuse_empty, running_run, advance_dag_run, create_node,
  mark_root, find_root_nodes,
}
use serverust_less.Engine.Marking.{
  Quiet, of_run, fits, Created, Marked, created, marked, created-Marked, advance-idle,
}

-- Neither is started, nor is there a new node.
record Untouched (s t : System) : Type 0 where
  quiet : Quiet s t
  rows : t.dag_node_executions ≡ s.dag_node_executions

Quiet-refl : (s : System) → Quiet s s
Quiet-refl s = record { executions = refl; job_queue = refl; memory = refl }

fits-All :
    (run_id : String) (edges : List DagEdge) (job_ids : List String) (rows : List DagNodeExecution)
    → any (of_run run_id) rows ≡ false
    → All (λ n. fits run_id edges job_ids n ≡ true) rows
fits-All run_id edges job_ids [] h = tt
fits-All run_id edges job_ids (n ∷ rows) h =
    (ground (arith, h), fits-All run_id edges job_ids rows (ground (arith, h)))

elem-All :
    (xs ys : List String)
    → ((x : String) → elem x xs ≡ true → elem x ys ≡ true)
    → All (λ x. elem x ys ≡ true) xs
elem-All [] ys h = tt
elem-All (x ∷ xs) ys h =
    (h x (ground (arith, eq_refl x)), elem-All xs ys (λ z there. h z (ground (arith, there))))

run-id : (run r : DagRun) (s : System) → (create_run r s).0 ≡ ok run → run.id ≡ r.id
unfolding create_run
run-id run r s done = elim (Option-cases (find (λ x. x.id == r.id) (s.dag_runs ++ r ∷ []))) [
  | inl missing ↦ ground (arith, done, missing)
  | inr (x, found) ↦ ground (
    arith,
    done,
    found,
    (eq_iff x.id r.id).0 (find-eq-some (λ x. x.id == r.id) (s.dag_runs ++ r ∷ []) found),
  )
]

-- What follows the creation of the run.
module _ (qm : QueueManager) (ids : Ids) (clock : Clock) (order : List String → List String)
    (edges : List DagEdge) (dag : Dag) (run : DagRun) where
  abbrev job_ids : List String
  job_ids = order (graph_of edges).all_nodes

  abbrev conclude : Action System DagRun
  conclude = advance_dag_run qm ids clock run.id edges dag >> get_run_by_id run.id

  abbrev launch : Action System DagRun
  launch =
      for_each (create_node qm ids clock run.id) job_ids
      >> (get_node_executions_by_run_id run.id >>= λ nodes.
          for_each (mark_root qm ids clock (find_root_nodes edges job_ids)) nodes >> conclude)

module _ (qm : QueueManager) (ids : Ids) (clock : Clock) (order : List String → List String)
    (s : System) (fresh : any (of_run ids.run) s.dag_node_executions ≡ false) where
  -- The prefix reads, or is refused.
  disabled-same : (dag : Dag) (t : System) → (refuse_disabled qm ids clock dag t).1 ≡ t
  disabled-same dag t = ground arith

  empty-same : (edges : List DagEdge) (t : System) → (refuse_empty qm ids clock edges t).1 ≡ t
  empty-same [] t = refl
  empty-same (e ∷ edges) t = refl

  step_lem :
      {A : Type 0} (x : Result A × System) (t : System)
      → x.1 ≡ t
      → Untouched s t
      → Post (Quiet s) (λ _. Untouched s) x
  step_lem x t same u =
      let v : Untouched s x.1 = subst (Untouched s) (sym same) u in
      always-Post (Quiet s) (Untouched s) x v.quiet v

  create_run-Untouched : (r : DagRun) (t : System) → Untouched s t → Untouched s (create_run r t).1
  unfolding create_run
  create_run-Untouched r t u = record {
    quiet = record {
      executions = ground (arith, u.quiet.executions);
      job_queue = ground (arith, u.quiet.job_queue);
      memory = ground (arith, u.quiet.memory);
    };
    rows = ground (arith, u.rows);
  }

  module _ (edges : List DagEdge) (dag : Dag) (run : DagRun) (named : run.id ≡ ids.run) where
    first :
        (t : System)
        → Untouched s t
        → Created run.id edges
            (job_ids qm ids clock order edges dag run)
            s
            (job_ids qm ids clock order edges dag run)
            t
    first t u = record {
      quiet = u.quiet;
      fit =
          subst (All (λ n. fits run.id edges (job_ids qm ids clock order edges dag run) n ≡ true))
            (sym u.rows)
            (fits-All run.id edges (job_ids qm ids clock order edges dag run) s.dag_node_executions
              (subst (λ r. any (of_run r) s.dag_node_executions ≡ false) (sym named) fresh));
      jobs =
          elem-All (job_ids qm ids clock order edges dag run)
            (job_ids qm ids clock order edges dag run) (λ x h. h);
    }

    conclude-Quiet :
        (t : System)
        → Marked run.id edges (job_ids qm ids clock order edges dag run) s [] t
        → Post (Quiet s) (λ _. Quiet s) (conclude qm ids clock order edges dag run t)
    unfolding get_run_by_id
    conclude-Quiet t m =
        bind-Post (Quiet s) (λ _. Quiet s) (λ _. Quiet s)
          (advance_dag_run qm ids clock run.id edges dag) (λ _. get_run_by_id run.id) t
          (subst (Post (Quiet s) (λ _. Quiet s))
            (sym (
              advance-idle run.id edges (job_ids qm ids clock order edges dag run) qm ids clock s
                dag t m))
            m.quiet)
          (λ _ t' q. always-Post (Quiet s) (Quiet s) (get_run_by_id run.id t') q q)

    launch-Quiet :
        (t : System)
        → Untouched s t
        → Post (Quiet s) (λ _. Quiet s) (launch qm ids clock order edges dag run t)
    unfolding get_node_executions_by_run_id
    launch-Quiet t u =
        bind-Post (Quiet s)
          (λ _. Created run.id edges (job_ids qm ids clock order edges dag run) s []) (λ _. Quiet s)
          (for_each (create_node qm ids clock run.id) (job_ids qm ids clock order edges dag run))
          (λ _. get_node_executions_by_run_id run.id >>= λ nodes.
            for_each
              (mark_root qm ids clock
                (find_root_nodes edges (job_ids qm ids clock order edges dag run)))
              nodes
            >> conclude qm ids clock order edges dag run)
          t
          (created run.id edges (job_ids qm ids clock order edges dag run) qm ids clock s
            (job_ids qm ids clock order edges dag run) t (first t u))
          (λ _ t1 c.
            bind-Post (Quiet s)
              (λ _. Marked run.id edges (job_ids qm ids clock order edges dag run) s [])
              (λ _. Quiet s)
              (for_each
                (mark_root qm ids clock
                  (find_root_nodes edges (job_ids qm ids clock order edges dag run)))
                (nodes_of run.id t1.dag_node_executions))
              (λ _. conclude qm ids clock order edges dag run) t1
              (marked run.id edges (job_ids qm ids clock order edges dag run) qm ids clock s _ t1 (
                created-Marked run.id edges (job_ids qm ids clock order edges dag run) qm ids clock
                  s t1 c))
              (λ _ t2 m. conclude-Quiet t2 m))

  launched :
      (edges : List DagEdge) (dag : Dag) (dag_id trigger_type : String) (t : System)
      → Untouched s t
      → Post
          (Quiet s)
          (λ _. Quiet s)
          ((create_run
                (running_run qm ids clock dag_id trigger_type (order (graph_of edges).all_nodes))
              >>= λ run. launch qm ids clock order edges dag run)
            t)
  launched edges dag dag_id trigger_type t u =
      bind-Post (Quiet s) (λ run t'. Untouched s t' × (run.id ≡ ids.run)) (λ _. Quiet s)
        (create_run
          (running_run qm ids clock dag_id trigger_type (order (graph_of edges).all_nodes)))
        (λ run. launch qm ids clock order edges dag run) t
        (result-Post (Quiet s) (λ run t'. Untouched s t' × (run.id ≡ ids.run)) _
          (create_run-Untouched _ t u).quiet
          (λ run done. (create_run-Untouched _ t u, run-id run _ t done)))
        (λ run t' h. launch-Quiet edges dag run h.1 t' h.0)

  -- Triggering a DAG starts none of its nodes, whether it succeeds or fails: provided that no node has
  -- the identifier of the new run yet, the executions, the queue entries and the in-memory queue are
  -- as they were.
  pub trigger_dag-Quiet :
      (dag_id trigger_type : String)
      → Quiet s (trigger_dag qm ids clock order dag_id trigger_type s).1
  unfolding trigger_dag get_by_id get_edges_by_dag_id
  trigger_dag-Quiet dag_id trigger_type =
      state-Post (Quiet s) (trigger_dag qm ids clock order dag_id trigger_type s) (
        bind-Post (Quiet s) (λ _. Untouched s) (λ _. Quiet s) (get_by_id dag_id) _ s
          (step_lem (get_by_id dag_id s) s refl (record { quiet = Quiet-refl s; rows = refl }))
          (λ dag t u.
            bind-Post (Quiet s) (λ _. Untouched s) (λ _. Quiet s) (refuse_disabled qm ids clock dag)
              _ t (step_lem _ t (disabled-same dag t) u)
              (λ _ t1 u1.
                let edges = edges_of dag_id t1.dag_edges in
                bind-Post (Quiet s) (λ _. Untouched s) (λ _. Quiet s)
                  (refuse_empty qm ids clock edges) _ t1 (step_lem _ t1 (empty-same edges t1) u1)
                  (λ _ t2 u2.
                    bind-Post (Quiet s) (λ _. Untouched s) (λ _. Quiet s)
                      (lift (validate_no_cycles order edges)) _ t2 (step_lem _ t2 refl u2)
                      (λ _ t3 u3. launched edges dag dag_id trigger_type t3 u3)))))
