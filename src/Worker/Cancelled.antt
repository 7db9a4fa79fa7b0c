-- ===== src/Worker/Cancelled.antt =====
-- A retry that sleeps while its execution is cancelled.
use serverust_less.Prelude.{
  ◌<◌, ◌≡◌, ◌∙◌, ◌==◌, refl, String, some, [], find, map, arith, ap, eq_refl,
}
use serverust_less.Action.{ok}
use serverust_less.Model.Clock.{Clock}
use serverust_less.Model.Job.{Job}
use serverust_less.Model.Execution.{Execution}
use serverust_less.Db.{System, Retry}
use serverust_less.Db.ExecutionRepository.{execution_named, write_execution}
use serverust_less.Queue.{QueueManager, retry_push, dequeue, item_of}
use serverust_less.Queue.Items.{Known, dequeue-executions}
use serverust_less.Queue.Races.{push_dequeue}
use serverust_less.Worker.{start, run_as, set_execution_running}
use serverust_less.Worker.Results.{any-find, found-id, lookup-write}
use serverust_less.Worker.Turns.{set_execution_running-executions}

retry_push-executions :
    (qm : QueueManager) (r : Retry) (s : System) → (retry_push qm r s).1.executions ≡ s.executions
unfolding retry_push
retry_push-executions qm r s = ground arith

start-run :
    (clock : Clock) (worker : String) (s : System) (x : Execution) (j : Job)
    → find (execution_named x.id) s.executions ≡ some x
    → (dequeue clock s).0 ≡ ok (some (item_of x j j.priority))
    → ((start clock worker s).0 ≡ ok (some (item_of x j j.priority)))
      × ((start clock worker s).1.executions
          ≡ map (write_execution (run_as clock worker x)) s.executions)
unfolding start set_execution_running
start-run clock worker s x j found taken =
    let same = dequeue-executions clock s in
    let t = (dequeue clock s).1 in
    let there : find (execution_named x.id) t.executions ≡ some x =
      ap (find (execution_named x.id)) same.0 ∙ found in
    (
      ground (
        arith,
        taken,
        there,
        any-find x.id t.executions there,
        lookup-write (run_as clock worker x) x x.id x.id t.executions there refl
            (ground (arith, eq_refl x.id)),
        eq_refl x.id,
      ),
      ground (
        arith,
        taken,
        there,
        same.0,
        any-find x.id t.executions there,
        set_execution_running-executions clock x.id worker t there,
        ap (map (write_execution (run_as clock worker x))) same.0,
      ),
    )

-- A retry that wakes up pushes its execution whatever the execution's status is, cancelled
-- included: with nothing in memory, and room for one item, the next worker takes it, and its row is
-- overwritten as running.
pub cancelled-runs_again :
    (qm : QueueManager) (clock : Clock) (worker : String) (r : Retry) (s : System) {x : Execution}
    {j : Job}
    → 0 < qm.max_memory_size
    → s.memory_queue ≡ []
    → Known s r.exec_id x j
    → ((start clock worker (retry_push qm r s).1).0 ≡ ok (some (item_of x j j.priority)))
      × (find (execution_named r.exec_id) (start clock worker (retry_push qm r s).1).1.executions
          ≡ some (run_as clock worker x))
cancelled-runs_again qm clock worker r s {x} {j} room empty known =
    let t = (retry_push qm r s).1 in
    let same = found-id r.exec_id s.executions known.execution in
    let there : find (execution_named x.id) t.executions ≡ some x =
      ground (arith, retry_push-executions qm r s, known.execution, same) in
    let run = start-run clock worker t x j there (push_dequeue qm clock r s room empty known) in
    (
      run.0,
      ground (
        arith,
        ap (find (execution_named r.exec_id)) run.1,
        same,
        lookup-write (run_as clock worker x) x x.id r.exec_id t.executions there refl
            (ground (arith, eq_refl x.id)),
        ap
            (λ i.
              find (execution_named i) (map (write_execution (run_as clock worker x)) t.executions))
            same,
        eq_refl r.exec_id,
        ap (λ i. r.exec_id == i) same,
      ),
    )
