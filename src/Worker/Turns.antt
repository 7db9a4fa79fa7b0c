-- ===== src/Worker/Turns.antt =====
-- One turn, and any history of turns, keeps what the workers never change.
use serverust_less.Prelude.{
  ◌≡◌, refl, ap, true, false, String, Option, none, some, List, [], ◌∷◌, map, any, find, arith, ℤ,
  Option-cases, Bool-cases, inl, inr, eq_iff, ◌==◌, if◌then◌else◌, eq_refl, ltb_ℤ, subst,
}
use serverust_less.Model.Clock.{Clock}
use serverust_less.Model.Execution.{Execution}
use serverust_less.Model.QueueEntry.{mark_failed, mark_completed, mark_dead_letter}
use serverust_less.Model.QueueItem.{QueueItem}
use serverust_less.Db.{System, Retry}
use serverust_less.Db.ExecutionRepository.{execution_named, write_execution}
use serverust_less.Db.QueueRepository.{entry_of}
use serverust_less.Queue.{
  mark_failed_with_retry, mark_execution_failed, mark_execution_completed, move_to_dead_letter,
  give_up, unwrap_or, QueueManager, mark, dequeue,
}
use serverust_less.Action.{Action, Result, AppError, ok, err, try_or, pure}
use serverust_less.Worker.{
  is_success, outcome, retry_count_of, max_retries_of, ExecutionResult, start, finish,
  set_execution_running, finalize_execution, run_as, write_result, update_queue_entry,
}
use serverust_less.Worker.Results.{write_result-Records, recorded, any-find, found-id, lookup-write}
use serverust_less.Worker.History.{Turn, starts, finishes, requeues, pushes, turn, turns}
use serverust_less.Worker.Keeps.{
  Keeps, Keeps-refl, Keeps-trans, mark-Keeps, dequeue-Keeps, requeue-Keeps, push-Keeps,
}

-- A write of the row found under an id that keeps its count and its job.
executions-Keeps :
    (y e : Execution) (id : String) (s s' : System)
    → find (execution_named id) s.executions ≡ some e
    → y.retry_count ≡ e.retry_count
    → y.job_id ≡ e.job_id
    → ((other : String)
        → find (execution_named other) s'.executions
          ≡ (if other == id then some y else find (execution_named other) s.executions))
    → s'.jobs ≡ s.jobs
    → s'.job_queue ≡ s.job_queue
    → Keeps s s'
executions-Keeps y e id s s' found count job written jobs queue = record {
  jobs = jobs;
  executions = λ other. elim (Bool-cases (other == id)) [
    | inl it ↦ ground (arith, (eq_iff other id).0 it, written other, found)
    | inr another ↦ ground (arith, written other)
  ];
  entries = λ other. ground arith;
}

pub set_execution_running-executions :
    (clock : Clock) (id worker : String) (s : System) {e : Execution}
    → find (execution_named id) s.executions ≡ some e
    → (set_execution_running clock id worker s).1.executions
      ≡ map (write_execution (run_as clock worker e)) s.executions
unfolding set_execution_running
set_execution_running-executions clock id worker s {e} found = ground (
  arith,
  found,
  any-find id s.executions found,
  ap (λ t. any (execution_named t) s.executions) (found-id id s.executions found),
)

set_execution_running-Keeps :
    (clock : Clock) (id worker : String) (s : System)
    → Keeps s (set_execution_running clock id worker s).1
unfolding set_execution_running
set_execution_running-Keeps clock id worker s =
    elim (Option-cases (find (execution_named id) s.executions)) [
      | inl missing ↦ record {
        jobs = ground arith;
        executions = λ other. ground arith;
        entries = λ other. ground arith;
      }
      | inr (e, found) ↦
          executions-Keeps (run_as clock worker e) e id s _ found refl refl
            (λ other. ground (
              arith,
              set_execution_running-executions clock id worker s found,
              lookup-write (run_as clock worker e) e id other s.executions found refl
                  (ground (arith, eq_refl e.id)),
            ))
            (ground arith) (ground arith)
    ]

recorded-count :
    (clock : Clock) (r : ExecutionResult) (e : Execution)
    → ((recorded clock r e).retry_count ≡ e.retry_count) × ((recorded clock r e).job_id ≡ e.job_id)
recorded-count clock r e = (ground arith, ground arith)

write_result-Keeps :
    (clock : Clock) (id : String) (r : ExecutionResult) (s : System)
    → Keeps s (write_result clock id r s)
unfolding write_result finalize_execution
write_result-Keeps clock id r s = elim (Option-cases (find (execution_named id) s.executions)) [
  | inl missing ↦ record {
    jobs = ground arith;
    executions = λ other. ground arith;
    entries = λ other. ground arith;
  }
  | inr (e, found) ↦
      let same = recorded-count clock r e in
      executions-Keeps (recorded clock r e) e id s _ found same.0 same.1
        (write_result-Records clock id r s e found) (ground arith) (ground arith)
]

retries-Keeps : (retries : List Retry) (s : System) → Keeps s (record s { retries = retries })
retries-Keeps retries s = record { jobs = refl; executions = λ id. refl; entries = λ id. refl }

-- Sequences of actions that each keep it.
module _ {A B : Type 0} (f : A → Action System B)
    (hf : (a : A) (t : System) → Keeps t (f a t).1) where
  try_or-Keeps :
      (m : Action System A) (g : AppError → Action System B) (s : System)
      → Keeps s (m s).1
      → ((e : AppError) (t : System) → Keeps t (g e t).1)
      → Keeps s (try_or m f g s).1
  try_or-Keeps m g s hm hg = go (m s) hm
    where
      go : (x : Result A × System) → Keeps s x.1 → Keeps s (try_or (λ _. x) f g s).1
      go (ok a, t) h = Keeps-trans h (hf a t)
      go (err e, t) h = Keeps-trans h (hg e t)

give_up-Keeps : (clock : Clock) (id : String) (s : System) → Keeps s (give_up clock id s).1
unfolding move_to_dead_letter mark
give_up-Keeps clock id s =
    subst (Keeps s)
      (let e : (mark (mark_dead_letter clock) id s).1 ≡ (give_up clock id s).1 = ground arith in e)
      (mark-Keeps (mark_dead_letter clock) id s)

mark_failed_with_retry-Keeps :
    (qm : QueueManager) (clock : Clock) (id : String) (count : ℤ) (limit : Option ℤ) (s : System)
    → Keeps s (mark_failed_with_retry qm clock id count limit s).1
unfolding mark_failed_with_retry
mark_failed_with_retry-Keeps qm clock id count limit s =
    elim (Option-cases (find (entry_of id) s.job_queue)) [
      | inl missing ↦
          subst (Keeps s)
            (let e : (give_up clock id s).1 ≡ (mark_failed_with_retry qm clock id count limit s).1 =
                ground (arith, missing) in
              e)
            (give_up-Keeps clock id s)
      | inr (entry, found) ↦ elim (Bool-cases (ltb_ℤ count (unwrap_or limit qm.max_retries))) [
        | inl more ↦
            let t = record s {
              retries = record { entry_id = entry.id; exec_id = id } ∷ s.retries;
            } in
            subst (Keeps s)
              (let e : t ≡ (mark_failed_with_retry qm clock id count limit s).1 =
                  ground (arith, found, more) in
                e)
              (retries-Keeps _ s)
        | inr over ↦
            subst (Keeps s)
              (let e : (give_up clock id s).1
                    ≡ (mark_failed_with_retry qm clock id count limit s).1 =
                  ground (arith, over) in
                e)
              (give_up-Keeps clock id s)
      ]
    ]

abbrev picked : Clock → String → Option QueueItem → Action System (Option QueueItem)
picked clock worker none = pure none
picked clock worker (some item) =
    try_or (set_execution_running clock item.execution_id worker) (λ _. pure (some item))
      (λ _.
        try_or (mark_execution_failed clock item.execution_id) (λ _. pure none) (λ _. pure none))

picked-Keeps :
    (clock : Clock) (worker : String) (found : Option QueueItem) (s : System)
    → Keeps s (picked clock worker found s).1
unfolding mark_execution_failed
picked-Keeps clock worker none s = Keeps-refl s
picked-Keeps clock worker (some item) s =
    try_or-Keeps (λ _. pure (some item)) (λ a t. Keeps-refl t)
      (set_execution_running clock item.execution_id worker) _ s
      (set_execution_running-Keeps clock item.execution_id worker s)
      (λ e t.
        try_or-Keeps (λ _. pure none) (λ a u. Keeps-refl u)
          (mark_execution_failed clock item.execution_id) _ t
          (mark-Keeps (mark_failed clock) item.execution_id t) (λ e u. Keeps-refl u))

start-Keeps : (clock : Clock) (worker : String) (s : System) → Keeps s (start clock worker s).1
unfolding start mark_execution_failed
start-Keeps clock worker s =
    try_or-Keeps (picked clock worker) (picked-Keeps clock worker) (dequeue clock) (λ _. pure none)
      s (dequeue-Keeps clock s) (λ e t. Keeps-refl t)

update_queue_entry-Keeps :
    (qm : QueueManager) (clock : Clock) (id : String) (r : ExecutionResult) (s : System)
    → Keeps s (update_queue_entry qm clock id r s)
unfolding update_queue_entry mark_execution_completed
update_queue_entry-Keeps qm clock id r s =
    elim (is_success (outcome r).0)
      as (λ b. Keeps s (
        if b
        then (mark_execution_completed clock id s).1
        else (mark_failed_with_retry qm clock id (retry_count_of id s) (max_retries_of id s)
            s).1)) [
              | true ↦ mark-Keeps (mark_completed clock) id s
              | false ↦
                  mark_failed_with_retry-Keeps qm clock id (retry_count_of id s)
                    (max_retries_of id s) s
            ]

turn-Keeps : (qm : QueueManager) (t : Turn) (s : System) → Keeps s (turn qm t s)
unfolding turn finish
turn-Keeps qm (starts clock worker) s = start-Keeps clock worker s
turn-Keeps qm (finishes clock id r) s =
    Keeps-trans (write_result-Keeps clock id r s) (update_queue_entry-Keeps qm clock id r _)
turn-Keeps qm (requeues r) s = requeue-Keeps r s
turn-Keeps qm (pushes r) s = push-Keeps qm r s

-- Whatever the workers do, no job changes, each execution keeps its retry count and its job, and the
-- entry found under it keeps its id.
pub turns-Keeps : (qm : QueueManager) (ts : List Turn) (s : System) → Keeps s (turns qm ts s)
unfolding turns
turns-Keeps qm [] s = Keeps-refl s
turns-Keeps qm (t ∷ ts) s = Keeps-trans (turn-Keeps qm t s) (turns-Keeps qm ts (turn qm t s))
