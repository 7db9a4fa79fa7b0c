-- ===== src/Queue/Order.antt =====
-- The order in which items leave the queue, on both paths of `dequeue`.
use mathlib.Core.List.{Perm}
use serverust_less.Prelude.{
  Bool, true, false, ◌≡◌, ◌≢◌, refl, Option, none, some, List, [], ◌∷◌, arith, find, map, head?,
  All, is_lt, Greatest, Option-cases, inl, inr, ◌==◌, eq_refl, if◌then◌else◌, head-order_by,
  order_by-All, filter-All,
}
use mathlib.Core.Option
use serverust_less.Action.{ok}
use serverust_less.Model.Clock.{Clock}
use serverust_less.Model.QueueItem.{QueueItem, cmp}
use serverust_less.Model.QueueEntry.{QueueEntry, mark_processing, mark_failed}
use serverust_less.Db.{System}
use serverust_less.Db.QueueRepository.{
  entry_of, write_entry, queued_rows, take_entry, has_status, with_queue, next, next-IsOrder,
}
use serverust_less.Queue.{dequeue, dequeue_overflow, reconstruct_item}
use serverust_less.Queue.Items.{dequeue_empty, find-mark}
use serverust_less.Queue.Heap.{pop, pop-none, pop-perm, pop-Greatest}

-- The contract of the fast path.
pub record TakesGreatest (clock : Clock) (s : System) (item : QueueItem) : Type 0 where
  pub returned : (dequeue clock s).0 ≡ ok (some item)
  pub kept : Perm s.memory_queue (item ∷ (dequeue clock s).1.memory_queue)
  pub greatest : Greatest cmp item s.memory_queue
  pub processing :
      find (entry_of item.execution_id) (dequeue clock s).1.job_queue
      ≡ Option.map (mark_processing clock) (find (entry_of item.execution_id) s.job_queue)

-- While the in-memory queue holds an item, `dequeue` succeeds and returns one that no other item in
-- memory exceeds, by priority and then by execution id. That item alone leaves the in-memory
-- queue, and the entry found under its execution, if there is one, is marked as processing.
pub dequeue-TakesGreatest :
    (clock : Clock) (s : System)
    → s.memory_queue ≢ []
    → (item : QueueItem) × TakesGreatest clock s item
unfolding dequeue
dequeue-TakesGreatest clock s nonempty = elim (Option-cases (pop s.memory_queue)) [
  | inl none_left ↦ absurd (nonempty (pop-none s.memory_queue none_left))
  | inr ((item, rest), popped) ↦ (
    item,
    record {
      returned = ground arith;
      kept = ground (arith, pop-perm s.memory_queue popped);
      greatest = pop-Greatest s.memory_queue popped;
      processing = ground (
        arith,
        find-mark (mark_processing clock) item.execution_id (record s { memory_queue = rest })
            (λ e. ground (arith, eq_refl e.id)),
      );
    },
  )
]

-- Whether a result is there.
abbrev pub is_some {ℓ} : {A : Type ℓ} → Option A → Bool
is_some none = false
is_some (some a) = true

-- A row after the slow path: the taken one is processing, or failed if no item could be made.
abbrev pub overflow_row : Clock → Bool → QueueEntry → QueueEntry → QueueEntry
overflow_row clock made e row =
    if row.id == e.id
    then (if made then take_entry clock row else mark_failed clock (take_entry clock row))
    else row

pub record TakesNext (clock : Clock) (s : System) (e : QueueEntry) : Type 0 where
  pub returned : (dequeue clock s).0 ≡ ok (reconstruct_item e s)
  pub first : All (λ x. has_status "queued" x ≡ true → is_lt (next x e) ≡ false) s.job_queue
  pub rows :
      (dequeue clock s).1.job_queue
      ≡ map (overflow_row clock (is_some (reconstruct_item e s)) e) s.job_queue

-- Taking the entry changes nothing that makes its item.
reconstruct-take :
    (clock : Clock) (e : QueueEntry) (rows : List QueueEntry) (s : System)
    → reconstruct_item (take_entry clock e) (with_queue rows s) ≡ reconstruct_item e s
unfolding reconstruct_item
reconstruct-take clock e rows s = refl

abbrev taken_rows : Clock → QueueEntry → List QueueEntry → List QueueEntry
taken_rows clock e = map (λ row. if row.id == e.id then take_entry clock row else row)

take_row-overflow :
    (clock : Clock) (e : QueueEntry) (rows : List QueueEntry)
    → taken_rows clock e rows ≡ map (overflow_row clock true e) rows
take_row-overflow clock e [] = refl
take_row-overflow clock e (row ∷ rows) = ground (arith, take_row-overflow clock e rows)

fail_row-overflow :
    (clock : Clock) (e : QueueEntry) (rows : List QueueEntry)
    → map (write_entry (mark_failed clock (take_entry clock e))) (taken_rows clock e rows)
      ≡ map (overflow_row clock false e) rows
fail_row-overflow clock e [] = refl
fail_row-overflow clock e (row ∷ rows) = ground (arith, fail_row-overflow clock e rows)

module _ (clock : Clock) (s : System) (e : QueueEntry)
    (head : head? (queued_rows s.job_queue) ≡ some e) where
  overflow-returned : (dequeue_overflow clock s).0 ≡ ok (reconstruct_item e s)
  unfolding dequeue_overflow
  overflow-returned = elim (Option-cases (reconstruct_item e s)) [
    | inl missing ↦ ground (arith, reconstruct-take clock e (taken_rows clock e s.job_queue) s)
    | inr (item, made) ↦ ground (arith, reconstruct-take clock e (taken_rows clock e s.job_queue) s)
  ]

  overflow-rows :
      (dequeue_overflow clock s).1.job_queue
      ≡ map (overflow_row clock (is_some (reconstruct_item e s)) e) s.job_queue
  unfolding dequeue_overflow
  overflow-rows = elim (Option-cases (reconstruct_item e s)) [
    | inl missing ↦ ground (
      arith,
      reconstruct-take clock e (taken_rows clock e s.job_queue) s,
      fail_row-overflow clock e s.job_queue,
    )
    | inr (item, made) ↦ ground (
      arith,
      reconstruct-take clock e (taken_rows clock e s.job_queue) s,
      take_row-overflow clock e s.job_queue,
    )
  ]

-- With nothing in memory, `dequeue` takes the entry that the table's order puts first: no queued
-- entry has a higher priority, or the same priority and an earlier time. It returns the item made
-- of it, or nothing; that entry becomes processing, or failed where no item could be made, and
-- every other row stays as it was.
pub dequeue-TakesNext :
    (clock : Clock) (s : System) (e : QueueEntry)
    → s.memory_queue ≡ []
    → head? (queued_rows s.job_queue) ≡ some e
    → TakesNext clock s e
dequeue-TakesNext clock s e empty head = record {
  returned = rw (dequeue_empty clock s empty) (overflow-returned clock s e head);
  first =
      filter-All (λ x. is_lt (next x e) ≡ false) (has_status "queued") s.job_queue
        (order_by-All next (λ x. is_lt (next x e) ≡ false) _ (head-order_by next-IsOrder _ head));
  rows = rw (dequeue_empty clock s empty) (overflow-rows clock s e head);
}
