-- ===== src/Engine/Cancel.antt =====
-- Cancelling a run closes all of its nodes.
use serverust_less.Prelude.{
  ◌≡◌, refl, sym, subst, ◌∙◌, Bool, true, false, not, ◌&&◌, ◌||◌, String, some, List, [], ◌∷◌, map,
  filter, any, find, All, All-map, All-weaken, any-filter, any_self, any-order_by, arith, ◌==◌,
  if◌then◌else◌, Bool-cases, Option-cases, inl, inr, eq_refl, differs, find-update, find-eq-some,
  compare_text,
}
use serverust_less.Action.{ok, throw, bad_request, for_each, ◌>>=◌, ◌>>◌}
use serverust_less.Action.Post.{
  Post, bind-Post, for_each-Post, always-Post, weaken-Post, result-Post, done-Post,
}
use serverust_less.Model.Clock.{Clock}
use serverust_less.Model.Dag.{DagRun, DagNodeExecution}
use serverust_less.Db.{System}
use serverust_less.Db.DagRepository.{
  nodes_of, write_node, update_node_execution, update_run, get_run_by_id,
  get_node_executions_by_run_id, write_run,
}
use serverust_less.Queue.{QueueManager}
use serverust_less.Engine.{Ids, cancel_dag_run, close_node, is_open, cannot_cancel}
use serverust_less.Engine.Marking.{of_run}

module _ (qm : QueueManager) (ids : Ids) (clock : Clock) (run_id : String) where
  abbrev open_node : DagNodeExecution → Bool
  open_node = is_open qm ids clock

  -- One of the nodes still to be closed has the id of the row.
  abbrev closes : DagNodeExecution → DagNodeExecution → Bool
  closes x n = n.id == x.id && open_node n

  abbrev is_left : List DagNodeExecution → DagNodeExecution → Bool
  is_left todo x = not (of_run run_id x && open_node x) || any (closes x) todo

  abbrev Left : List DagNodeExecution → System → Type 0
  Left todo t = All (λ x. is_left todo x ≡ true) t.dag_node_executions

  abbrev closed : DagNodeExecution → DagNodeExecution
  closed n = record n { status = "cancelled"; completed_at = some clock.rfc3339 }

  close_node-rows :
      (n : DagNodeExecution) (t : System)
      → (close_node qm ids clock open_node "cancelled" n t).1.dag_node_executions ≡ (
          if open_node n
          then map (write_node (closed n)) t.dag_node_executions
          else t.dag_node_executions)
  unfolding update_node_execution
  close_node-rows n t = ground arith

  write-same :
      (n x : DagNodeExecution)
      → (x.id == n.id) ≡ true
      → write_node (closed n) x ≡ record x {
        execution_id = n.execution_id;
        status = "cancelled";
        started_at = n.started_at;
        completed_at = some clock.rfc3339;
      }
  write-same n x same = ground arith

  write-other : (n x : DagNodeExecution) → (x.id == n.id) ≡ false → write_node (closed n) x ≡ x
  write-other n x other = ground arith

  write-left :
      (n x : DagNodeExecution) (todo : List DagNodeExecution)
      → is_left (n ∷ todo) x ≡ true
      → is_left todo (write_node (closed n) x) ≡ true
  write-left n x todo h = elim (Bool-cases (x.id == n.id)) [
    | inl same ↦ subst (λ y. is_left todo y ≡ true) (sym (write-same n x same)) (ground arith)
    | inr other ↦
        subst (λ y. is_left todo y ≡ true) (sym (write-other n x other))
          (ground (arith, h, differs x.id n.id other))
  ]

  close_node-Left :
      (n : DagNodeExecution) (todo : List DagNodeExecution) (t : System)
      → Left (n ∷ todo) t
      → Left todo (close_node qm ids clock open_node "cancelled" n t).1
  close_node-Left n todo t h = elim (Bool-cases (open_node n)) [
    | inl live ↦
        let rows : (close_node qm ids clock open_node "cancelled" n t).1.dag_node_executions
            ≡ map (write_node (closed n)) t.dag_node_executions =
          ground (arith, close_node-rows n t, live) in
        subst (All (λ x. is_left todo x ≡ true)) (sym rows) (
          All-map (λ x. is_left (n ∷ todo) x ≡ true) (λ x. is_left todo x ≡ true) _
            (λ x g. write-left n x todo g) _ h)
    | inr over ↦
        let rows : (close_node qm ids clock open_node "cancelled" n t).1.dag_node_executions
            ≡ t.dag_node_executions =
          ground (arith, close_node-rows n t, over) in
        subst (All (λ x. is_left todo x ≡ true)) (sym rows) (
          All-weaken (λ x. is_left (n ∷ todo) x ≡ true) (λ x. is_left todo x ≡ true)
            (λ x g. ground (arith, g, over)) _ h)
  ]

  start-Left : (t : System) → Left (nodes_of run_id t.dag_node_executions) t
  start-Left t =
      let rows = t.dag_node_executions in
      All-weaken
        (λ x.
          (not (of_run run_id x && open_node x) || any (λ n. of_run run_id n && closes x n) rows)
          ≡ true)
        (λ x. is_left (nodes_of run_id rows) x ≡ true)
        (λ x h. ground (
          arith,
          h,
          any-order_by (λ a b. compare_text a.created_at b.created_at) (closes x)
              (filter (of_run run_id) rows),
          any-filter (closes x) (of_run run_id) rows,
        ))
        rows
        (any_self (λ x. of_run run_id x && open_node x) (λ x n. of_run run_id n && closes x n)
          (λ x h. ground (arith, h, eq_refl x.id)) rows rows (λ x h. h))

  abbrev NoneOpen : System → Type 0
  NoneOpen t = All (λ x. (of_run run_id x && open_node x) ≡ false) t.dag_node_executions

  closed_all :
      (t : System)
      → Post
          (λ _. Unit)
          (λ _. NoneOpen)
          (for_each
            (close_node qm ids clock open_node "cancelled")
            (nodes_of run_id t.dag_node_executions)
            t)
  closed_all t =
      weaken-Post (λ _. Unit) (λ (_ : Unit {0}). Left []) (λ _. NoneOpen)
        (for_each (close_node qm ids clock open_node "cancelled")
          (nodes_of run_id t.dag_node_executions) t)
        (λ _ u h.
          All-weaken (λ x. is_left [] x ≡ true) (λ x. (of_run run_id x && open_node x) ≡ false)
            (λ x g. ground (arith, g)) _ h)
        (for_each-Post (λ _. Unit) Left (close_node qm ids clock open_node "cancelled")
          (λ n todo u h. always-Post (λ _. Unit) (Left todo) _ tt (close_node-Left n todo u h))
          (nodes_of run_id t.dag_node_executions) t (start-Left t))

  run-status : (r run : DagRun) (t : System) → (update_run r t).0 ≡ ok run → run.status ≡ r.status
  unfolding update_run
  run-status r run t done = elim (Option-cases (find (λ x. x.id == r.id) t.dag_runs)) [
    | inl missing ↦ ground (
      arith,
      done,
      missing,
      find-update (λ x. x.id) (write_run r) (λ a. ground arith) r.id t.dag_runs,
    )
    | inr (x, found) ↦ ground (
      arith,
      done,
      found,
      find-eq-some (λ x. x.id == r.id) t.dag_runs found,
      find-update (λ x. x.id) (write_run r) (λ a. ground arith) r.id t.dag_runs,
    )
  ]

  abbrev Ended : DagRun → System → Type 0
  Ended run t = NoneOpen t × (run.status ≡ "cancelled")

  update-Ended :
      (r : DagRun) (t : System)
      → r.status ≡ "cancelled"
      → NoneOpen t
      → Post (λ _. Unit) Ended (update_run r t)
  unfolding update_run get_run_by_id
  update-Ended r t over h =
      result-Post (λ _. Unit) Ended (update_run r t) tt
        (λ run done. (h, run-status r run t done ∙ over))

  cancel-Ended : (s : System) → Post (λ _. Unit) Ended (cancel_dag_run qm ids clock run_id s)
  unfolding cancel_dag_run get_run_by_id get_node_executions_by_run_id
  cancel-Ended s =
      bind-Post (λ _. Unit) (λ _ _. Unit) Ended (get_run_by_id run_id) _ s
        (always-Post (λ _. Unit) (λ _. Unit) _ tt tt)
        (λ run t u.
          elim (not (run.status == "running") && not (run.status == "pending"))
            as (λ b.
              Post (λ _. Unit) Ended
                ((if b
                    then throw (bad_request (cannot_cancel qm ids clock run.status))
                    else (get_node_executions_by_run_id run_id >>= λ nodes.
                        for_each (close_node qm ids clock open_node "cancelled") nodes
                        >> update_run (record run {
                          status = "cancelled";
                          completed_at = some clock.rfc3339;
                        })))
                  t)) [
                    | true ↦ tt
                    | false ↦
                        bind-Post (λ _. Unit) (λ _. NoneOpen) Ended
                          (for_each (close_node qm ids clock open_node "cancelled")
                            (nodes_of run_id t.dag_node_executions))
                          (λ _. update_run (record run {
                            status = "cancelled";
                            completed_at = some clock.rfc3339;
                          }))
                          t (closed_all t)
                          (λ _ v none_open.
                            update-Ended
                              (record run {
                                status = "cancelled";
                                completed_at = some clock.rfc3339;
                              })
                              v refl none_open)
                  ])

  -- When the cancellation of a run succeeds, the run that it returns is cancelled, and no node of the
  -- run is waiting, ready or running.
  pub cancel_dag_run-Ended :
      (s : System) {run : DagRun}
      → (cancel_dag_run qm ids clock run_id s).0 ≡ ok run
      → All
          (λ x. (of_run run_id x && is_open qm ids clock x) ≡ false)
          (cancel_dag_run qm ids clock run_id s).1.dag_node_executions
        × (run.status ≡ "cancelled")
  cancel_dag_run-Ended s done =
      done-Post (λ _. Unit) Ended (cancel_dag_run qm ids clock run_id s) done (cancel-Ended s)
