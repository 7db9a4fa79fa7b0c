-- ===== src/Worker/Keeps.antt =====
-- What the workers never change: the jobs, the retry count and the job of an execution, and which
-- entry belongs to it.
use serverust_less.Prelude.{
  ◌≡◌, refl, ◌∙◌, String, Option, none, some, List, map, find, find-update, arith, ℤ, Option-cases,
  inl, inr, ◌==◌, if◌then◌else◌, head?, subst, sym,
}
use mathlib.Core.Option
use serverust_less.Model.Clock.{Clock}
use serverust_less.Model.Execution.{Execution}
use serverust_less.Model.QueueEntry.{QueueEntry, mark_processing, mark_failed}
use serverust_less.Model.QueueItem.{QueueItem}
use serverust_less.Db.{System, Retry}
use serverust_less.Db.ExecutionRepository.{execution_named}
use serverust_less.Db.QueueRepository.{
  entry_of, write_entry, reset_entry, with_queue, take_entry, queued_rows,
}
use serverust_less.Queue.{
  QueueManager, mark, dequeue, dequeue_overflow, retry_requeue, retry_push, reconstruct_item,
}
use serverust_less.Queue.Heap.{pop}

abbrev pub counts : String → List Execution → Option (ℤ × String)
counts id rows = Option.map (λ x. (x.retry_count, x.job_id)) (find (execution_named id) rows)

abbrev pub entry_id : String → List QueueEntry → Option String
entry_id id rows = Option.map (λ e. e.id) (find (entry_of id) rows)

pub record Keeps (s s' : System) : Type 0 where
  pub jobs : s'.jobs ≡ s.jobs
  pub executions : (id : String) → counts id s'.executions ≡ counts id s.executions
  pub entries : (id : String) → entry_id id s'.job_queue ≡ entry_id id s.job_queue

pub Keeps-refl : (s : System) → Keeps s s
Keeps-refl s = record { jobs = refl; executions = λ id. refl; entries = λ id. refl }

pub Keeps-trans : {s t u : System} → Keeps s t → Keeps t u → Keeps s u
Keeps-trans a b = record {
  jobs = b.jobs ∙ a.jobs;
  executions = λ id. b.executions id ∙ a.executions id;
  entries = λ id. b.entries id ∙ a.entries id;
}

-- A change of the entries in place that keeps both ids.
entries-map :
    (f : QueueEntry → QueueEntry)
    → ((e : QueueEntry) → ((f e).execution_id ≡ e.execution_id) × ((f e).id ≡ e.id))
    → (id : String) (rows : List QueueEntry) → entry_id id (map f rows) ≡ entry_id id rows
entries-map f keeps id rows = elim (Option-cases (find (entry_of id) rows)) [
  | inl missing ↦
      ground (arith, missing, find-update (λ e. e.execution_id) f (λ e. (keeps e).0) id rows)
  | inr (e, found) ↦
      ground
        (arith, found, (keeps e).1, find-update (λ e. e.execution_id) f (λ e. (keeps e).0) id rows)
]

write_entry-keeps :
    (x e : QueueEntry)
    → ((write_entry x e).execution_id ≡ e.execution_id) × ((write_entry x e).id ≡ e.id)
write_entry-keeps x e = (ground arith, ground arith)

pub mark-Keeps :
    (change : QueueEntry → QueueEntry) (id : String) (s : System) → Keeps s (mark change id s).1
unfolding mark
mark-Keeps change id s = elim (Option-cases (find (entry_of id) s.job_queue)) [
  | inl missing ↦ record {
    jobs = ground arith;
    executions = λ id'. ground arith;
    entries = λ id'. ground arith;
  }
  | inr (e, found) ↦ record {
    jobs = ground arith;
    executions = λ id'. ground arith;
    entries = λ id'. ground (
      arith,
      entries-map (write_entry (change e)) (write_entry-keeps (change e)) id' s.job_queue,
    );
  }
]

-- Any write that touches only the queue's entries, in place.
entries-Keeps :
    (f : QueueEntry → QueueEntry) (s : System)
    → ((e : QueueEntry) → ((f e).execution_id ≡ e.execution_id) × ((f e).id ≡ e.id))
    → Keeps s (with_queue (map f s.job_queue) s)
entries-Keeps f s keeps = record {
  jobs = refl;
  executions = λ id. refl;
  entries = λ id. entries-map f keeps id s.job_queue;
}

abbrev take_row : Clock → QueueEntry → QueueEntry → QueueEntry
take_row clock e row = if row.id == e.id then take_entry clock row else row

take-Keeps :
    (clock : Clock) (e : QueueEntry) (s : System)
    → Keeps s (with_queue (map (take_row clock e) s.job_queue) s)
take-Keeps clock e s = entries-Keeps (take_row clock e) s (λ row. (ground arith, ground arith))

overflow_at : Clock → Option QueueEntry → System → System
overflow_at clock none s = s
overflow_at clock (some e) s =
    let taken = with_queue (map (take_row clock e) s.job_queue) s in
    elim (reconstruct_item (take_entry clock e) taken) [
      | some i ↦ taken
      | none ↦
          with_queue (map (write_entry (mark_failed clock (take_entry clock e))) taken.job_queue)
            taken
    ]

dequeue_overflow-at :
    (clock : Clock) (s : System)
    → (dequeue_overflow clock s).1 ≡ overflow_at clock (head? (queued_rows s.job_queue)) s
unfolding dequeue_overflow overflow_at
dequeue_overflow-at clock s = ground arith

overflow_at-Keeps :
    (clock : Clock) (o : Option QueueEntry) (s : System) → Keeps s (overflow_at clock o s)
unfolding overflow_at
overflow_at-Keeps clock none s = Keeps-refl s
overflow_at-Keeps clock (some e) s =
    let taken = with_queue (map (take_row clock e) s.job_queue) s in
    elim (reconstruct_item (take_entry clock e) taken)
      as (λ o. Keeps s (elim o [
        | some i ↦ taken
        | none ↦
            with_queue (map (write_entry (mark_failed clock (take_entry clock e))) taken.job_queue)
              taken
      ])) [
        | some i ↦ take-Keeps clock e s
        | none ↦ Keeps-trans (take-Keeps clock e s) (
            entries-Keeps (write_entry (mark_failed clock (take_entry clock e))) taken
              (write_entry-keeps (mark_failed clock (take_entry clock e))))
      ]

memory-Keeps : (items : List QueueItem) (s : System) → Keeps s (record s { memory_queue = items })
memory-Keeps items s = record { jobs = refl; executions = λ id. refl; entries = λ id. refl }

dequeue-popped :
    (clock : Clock) (s : System) {item : QueueItem} {rest : List QueueItem}
    → pop s.memory_queue ≡ some (item, rest)
    → (dequeue clock s).1
      ≡ (mark (mark_processing clock) item.execution_id (record s { memory_queue = rest })).1
unfolding dequeue mark
dequeue-popped clock s popped = ground arith

dequeue-none :
    (clock : Clock) (s : System)
    → pop s.memory_queue ≡ none
    → (dequeue clock s).1 ≡ overflow_at clock (head? (queued_rows s.job_queue)) s
unfolding dequeue
dequeue-none clock s empty = ground (arith, dequeue_overflow-at clock s)

pub dequeue-Keeps : (clock : Clock) (s : System) → Keeps s (dequeue clock s).1
dequeue-Keeps clock s = elim (Option-cases (pop s.memory_queue)) [
  | inl empty ↦ subst (Keeps s) (sym (dequeue-none clock s empty)) (overflow_at-Keeps clock _ s)
  | inr ((item, rest), popped) ↦
      subst (Keeps s) (sym (dequeue-popped clock s popped))
        (Keeps-trans (memory-Keeps rest s) (mark-Keeps (mark_processing clock) item.execution_id _))
]

pub requeue-Keeps : (r : Retry) (s : System) → Keeps s (retry_requeue r s).1
unfolding retry_requeue
requeue-Keeps r s =
    entries-Keeps (λ e. if e.id == r.entry_id then reset_entry e else e) s
      (λ e. (ground arith, ground arith))

pub push-Keeps : (qm : QueueManager) (r : Retry) (s : System) → Keeps s (retry_push qm r s).1
unfolding retry_push
push-Keeps qm r s = record {
  jobs = ground arith;
  executions = λ id. ground arith;
  entries = λ id. ground arith;
}
