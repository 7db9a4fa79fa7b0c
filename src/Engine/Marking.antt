-- ===== src/Engine/Marking.antt =====
-- The two loops of trigger_dag: the nodes that it creates, and the roots that it marks as ready.
use serverust_less.Prelude.{
  ◌≡◌, sym, subst, ◌∙◌, Bool, true, false, not, ◌&&◌, ◌||◌, String, List, [], ◌∷◌, ◌++◌, map,
  filter, any, All, All-map, All-weaken, All-combine, filter-guarded, All-append, any-filter,
  any_self, any-order_by, order_by-fails, elem, elem-filter, arith, ◌==◌, if◌then◌else◌, Bool-cases,
  inl, inr, eq_refl, differs, compare_text, ◌⊎◌,
}
use serverust_less.Action.{ok, for_each}
use serverust_less.Action.Post.{Post, for_each-Post, always-Post}
use serverust_less.Model.Clock.{Clock}
use serverust_less.Model.Dag.{Dag, DagEdge, DagNodeExecution, new_node}
use serverust_less.Db.{System}
use serverust_less.Db.DagRepository.{
  nodes_of, write_node, create_node_execution, update_node_execution,
}
use serverust_less.Queue.{QueueManager}
use serverust_less.Engine.{Ids, create_node, mark_root, find_root_nodes, advance_dag_run, node_with}
use serverust_less.Engine.Advance.{is_unstarted, has_upstream, advance_dag_run-stalls}

-- Nothing is started: the executions, the queue and its entries are as they were.
pub record Quiet (s t : System) : Type 0 where
  pub executions : t.executions ≡ s.executions
  pub job_queue : t.job_queue ≡ s.job_queue
  pub memory : t.memory_queue ≡ s.memory_queue

abbrev pub of_run : String → DagNodeExecution → Bool
of_run run_id n = n.dag_run_id == run_id

module _ (run_id : String) (edges : List DagEdge) (job_ids : List String) where
  -- A node of the run is of one of the jobs, and has not started.
  abbrev pub fits : DagNodeExecution → Bool
  fits n = not (of_run run_id n) || (is_unstarted n && elem n.job_id job_ids)

  abbrev roots : List String
  roots = find_root_nodes edges job_ids

  -- A node that a step of the run would start.
  abbrev waiting_root : DagNodeExecution → Bool
  waiting_root n = of_run run_id n && (node_with "waiting" n && not (has_upstream edges n))

  -- One of the nodes still to be marked has the id of the row, and is a root.
  abbrev marks : DagNodeExecution → DagNodeExecution → Bool
  marks x n = n.id == x.id && elem n.job_id roots

  pub record Created (s : System) (todo : List String) (t : System) : Type 0 where
    pub quiet : Quiet s t
    pub fit : All (λ n. fits n ≡ true) t.dag_node_executions
    pub jobs : All (λ j. elem j job_ids ≡ true) todo

  pub record Marked (s : System) (todo : List DagNodeExecution) (t : System) : Type 0 where
    pub quiet : Quiet s t
    pub fit : All (λ n. fits n ≡ true) t.dag_node_executions
    pub marked :
        All (λ x. (not (waiting_root x) || any (marks x) todo) ≡ true) t.dag_node_executions

  roots-elem :
      (job_id : String)
      → elem job_id roots
        ≡ (not (any (λ e. e.downstream_job_id == job_id) edges) && elem job_id job_ids)
  roots-elem job_id =
      elem-filter (λ id. not (any (λ e. e.downstream_job_id == id) edges)) job_id job_ids

  module _ (qm : QueueManager) (ids : Ids) (clock : Clock) where
    create_node-rows :
        (job_id : String) (t : System)
        → ((create_node qm ids clock run_id job_id t).1.dag_node_executions ≡ t.dag_node_executions)
          ⊎ ((create_node qm ids clock run_id job_id t).1.dag_node_executions
              ≡ t.dag_node_executions ++ new_node clock (ids.node job_id) run_id job_id ∷ [])
    unfolding create_node_execution
    create_node-rows job_id t = ground arith

    create_node-Quiet :
        (s t : System) (job_id : String)
        → Quiet s t
        → Quiet s (create_node qm ids clock run_id job_id t).1
    unfolding create_node_execution
    create_node-Quiet s t job_id q = record {
      executions = ground (arith, q.executions);
      job_queue = ground (arith, q.job_queue);
      memory = ground (arith, q.memory);
    }

    create_node-fit :
        (job_id : String) (t : System)
        → elem job_id job_ids ≡ true
        → All (λ n. fits n ≡ true) t.dag_node_executions
        → All (λ n. fits n ≡ true) (create_node qm ids clock run_id job_id t).1.dag_node_executions
    create_node-fit job_id t known h = elim (create_node-rows job_id t) [
      | inl same ↦ subst (All (λ n. fits n ≡ true)) (sym same) h
      | inr more ↦
          subst (All (λ n. fits n ≡ true)) (sym more)
            (All-append (λ n. fits n ≡ true) t.dag_node_executions _ h (ground (arith, known), tt))
    ]

    pub created :
        (s : System) (items : List String) (t : System)
        → Created s items t
        → Post (Quiet s) (λ _. Created s []) (for_each (create_node qm ids clock run_id) items t)
    created s items t start =
        for_each-Post (Quiet s) (Created s) (create_node qm ids clock run_id)
          (λ job_id todo u c.
            always-Post (Quiet s) (Created s todo) _ (create_node-Quiet s u job_id c.quiet)
              (record {
                quiet = create_node-Quiet s u job_id c.quiet;
                fit = create_node-fit job_id u c.jobs.0 c.fit;
                jobs = c.jobs.1;
              }))
          items t start

    abbrev ready_node : DagNodeExecution → DagNodeExecution
    ready_node n = record n { status = "ready" }

    mark_root-rows :
        (n : DagNodeExecution) (t : System)
        → (mark_root qm ids clock roots n t).1.dag_node_executions ≡ (
            if elem n.job_id roots
            then map (write_node (ready_node n)) t.dag_node_executions
            else t.dag_node_executions)
    unfolding update_node_execution
    mark_root-rows n t = ground arith

    mark_root-Quiet :
        (s t : System) (n : DagNodeExecution)
        → Quiet s t
        → Quiet s (mark_root qm ids clock roots n t).1
    unfolding update_node_execution
    mark_root-Quiet s t n q = record {
      executions = ground (arith, q.executions);
      job_queue = ground (arith, q.job_queue);
      memory = ground (arith, q.memory);
    }

    abbrev readied : DagNodeExecution → DagNodeExecution → DagNodeExecution
    readied n x = record x {
      execution_id = n.execution_id;
      status = "ready";
      started_at = n.started_at;
      completed_at = n.completed_at;
    }

    write-same :
        (n x : DagNodeExecution) → (x.id == n.id) ≡ true → write_node (ready_node n) x ≡ readied n x
    write-same n x same = ground arith

    write-other :
        (n x : DagNodeExecution) → (x.id == n.id) ≡ false → write_node (ready_node n) x ≡ x
    write-other n x other = ground arith

    write-fits :
        (n x : DagNodeExecution) → fits x ≡ true → fits (write_node (ready_node n) x) ≡ true
    write-fits n x h = elim (Bool-cases (x.id == n.id)) [
      | inl same ↦ subst (λ y. fits y ≡ true) (sym (write-same n x same)) (ground (arith, h))
      | inr other ↦ subst (λ y. fits y ≡ true) (sym (write-other n x other)) h
    ]

    abbrev is_marked : List DagNodeExecution → DagNodeExecution → Bool
    is_marked todo x = not (waiting_root x) || any (marks x) todo

    write-marks :
        (n x : DagNodeExecution) (todo : List DagNodeExecution)
        → is_marked (n ∷ todo) x ≡ true
        → is_marked todo (write_node (ready_node n) x) ≡ true
    write-marks n x todo h = elim (Bool-cases (x.id == n.id)) [
      | inl same ↦ subst (λ y. is_marked todo y ≡ true) (sym (write-same n x same)) (ground arith)
      | inr other ↦
          subst (λ y. is_marked todo y ≡ true) (sym (write-other n x other))
            (ground (arith, h, differs x.id n.id other))
    ]

    mark_root-Marked :
        (s : System) (n : DagNodeExecution) (todo : List DagNodeExecution) (t : System)
        → Marked s (n ∷ todo) t
        → Marked s todo (mark_root qm ids clock roots n t).1
    mark_root-Marked s n todo t m = elim (Bool-cases (elem n.job_id roots)) [
      | inl root ↦
          let rows : (mark_root qm ids clock roots n t).1.dag_node_executions
              ≡ map (write_node (ready_node n)) t.dag_node_executions =
            ground (arith, mark_root-rows n t, root) in
          record {
            quiet = mark_root-Quiet s t n m.quiet;
            fit = subst (All (λ x. fits x ≡ true)) (sym rows) (
                All-map (λ x. fits x ≡ true) (λ x. fits x ≡ true) _ (λ x h. write-fits n x h) _
                  m.fit);
            marked = subst (All (λ x. is_marked todo x ≡ true)) (sym rows) (
                All-map (λ x. is_marked (n ∷ todo) x ≡ true) (λ x. is_marked todo x ≡ true) _
                  (λ x h. write-marks n x todo h) _ m.marked);
          }
      | inr inner ↦
          let rows : (mark_root qm ids clock roots n t).1.dag_node_executions
              ≡ t.dag_node_executions =
            ground (arith, mark_root-rows n t, inner) in
          record {
            quiet = mark_root-Quiet s t n m.quiet;
            fit = subst (All (λ x. fits x ≡ true)) (sym rows) m.fit;
            marked = subst (All (λ x. is_marked todo x ≡ true)) (sym rows) (
                All-weaken (λ x. is_marked (n ∷ todo) x ≡ true) (λ x. is_marked todo x ≡ true)
                  (λ x h. ground (arith, h, inner)) _ m.marked);
          }
    ]

    pub marked :
        (s : System) (items : List DagNodeExecution) (t : System)
        → Marked s items t
        → Post (Quiet s) (λ _. Marked s []) (for_each (mark_root qm ids clock roots) items t)
    marked s items t start =
        for_each-Post (Quiet s) (Marked s) (mark_root qm ids clock roots)
          (λ n todo u m.
            always-Post (Quiet s) (Marked s todo) _ (mark_root-Quiet s u n m.quiet)
              (mark_root-Marked s n todo u m))
          items t start

    abbrev early : DagNodeExecution → DagNodeExecution → Bool
    early x n = of_run run_id n && marks x n

    early_self : (x : DagNodeExecution) → (waiting_root x && fits x) ≡ true → early x x ≡ true
    early_self x h = ground (arith, h, eq_refl x.id, roots-elem x.job_id)

    any-nodes :
        (x : DagNodeExecution) (rows : List DagNodeExecution)
        → any (marks x) (nodes_of run_id rows) ≡ any (early x) rows
    any-nodes x rows =
        any-order_by (λ a b. compare_text a.created_at b.created_at) (marks x)
          (filter (of_run run_id) rows)
        ∙ any-filter (marks x) (of_run run_id) rows

    -- Between the loops: every root of the run is still to be marked.
    pub created-Marked :
        (s t : System) → Created s [] t → Marked s (nodes_of run_id t.dag_node_executions) t
    created-Marked s t c =
        let rows = t.dag_node_executions in
        record {
          quiet = c.quiet;
          fit = c.fit;
          marked =
              All-combine (λ x. fits x ≡ true)
                (λ x. (not (waiting_root x && fits x) || any (early x) rows) ≡ true)
                (λ x. is_marked (nodes_of run_id rows) x ≡ true)
                (λ x fit h. ground (arith, fit, h, any-nodes x rows)) rows c.fit
                (any_self (λ x. waiting_root x && fits x) early early_self rows rows (λ x h. h));
        }

    -- What fails on every row of the run fails on its nodes.
    nodes-fail :
        (p : DagNodeExecution → Bool) (rows : List DagNodeExecution)
        → All (λ n. (of_run run_id n && p n) ≡ false) rows
        → All (λ n. p n ≡ false) (nodes_of run_id rows)
    nodes-fail p rows h =
        order_by-fails (λ a b. compare_text a.created_at b.created_at) p _
          (filter-guarded p (of_run run_id) rows h)

    pub advance-idle :
        (s : System) (dag : Dag) (t : System)
        → Marked s [] t
        → advance_dag_run qm ids clock run_id edges dag t ≡ (ok tt, t)
    advance-idle s dag t m =
        advance_dag_run-stalls qm ids clock run_id edges dag t
          (All-weaken (λ n. not (is_unstarted n) ≡ false) (λ n. is_unstarted n ≡ true)
            (λ n h. ground (arith, h)) _
            (nodes-fail (λ n. not (is_unstarted n)) t.dag_node_executions
              (All-weaken (λ n. fits n ≡ true)
                (λ n. (of_run run_id n && not (is_unstarted n)) ≡ false) (λ n h. ground (arith, h))
                _ m.fit)))
          (nodes-fail (λ n. node_with "waiting" n && not (has_upstream edges n))
            t.dag_node_executions
            (All-weaken (λ x. is_marked [] x ≡ true) (λ n. waiting_root n ≡ false)
              (λ n h. ground (arith, h)) _ m.marked))
