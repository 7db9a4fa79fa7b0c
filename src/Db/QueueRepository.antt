-- ===== src/Db/QueueRepository.antt =====
-- db/queue.rs: the table `job_queue`.
use serverust_less.Prelude.{
  ℕ, suc, ℤ, Bool, false, ◌&&◌, ◌||◌, String, Option, none, some, List, [], ◌∷◌, ◌++◌, map, find,
  any, filter, not, length, ◌==◌, if◌then◌else◌, head?, order_by, compare_text, compare_ℤ, is_lt,
  then_with, Ordering, IsOrder, compare_ℤ-IsOrder, compare_text-IsOrder, then_with-IsOrder,
  key-IsOrder, reverse-IsOrder,
}
use serverust_less.Action.{Action, ok, err, db_error}
use serverust_less.Model.Clock.{Clock}
use serverust_less.Model.QueueEntry.{QueueEntry}
use serverust_less.Db.State.{System}

abbrev pub entry_of : String → QueueEntry → Bool
entry_of execution_id e = e.execution_id == execution_id

abbrev pub has_status : String → QueueEntry → Bool
has_status status e = e.status == status

-- The table with its rows replaced.
abbrev pub with_queue : List QueueEntry → System → System
with_queue rows s = record s { db = record s.db { job_queue = rows } }

-- `id` and `execution_id` are unique; the execution and the job must exist.
unfoldable pub enqueue : QueueEntry → Action System QueueEntry
enqueue entry s =
    if any (λ e. e.id == entry.id || e.execution_id == entry.execution_id) s.job_queue
    then (err (db_error "UNIQUE constraint failed: job_queue"), s)
    else if any (λ x. x.id == entry.execution_id) s.executions
        && any (λ j. j.id == entry.job_id) s.jobs
    then (ok entry, with_queue (s.job_queue ++ entry ∷ []) s)
    else (err (db_error "FOREIGN KEY constraint failed"), s)

-- ORDER BY priority DESC, queued_at ASC
abbrev pub next : QueueEntry → QueueEntry → Ordering
next a b = then_with (compare_ℤ b.priority a.priority) (compare_text a.queued_at b.queued_at)

pub next-IsOrder : IsOrder next
next-IsOrder =
    then_with-IsOrder (reverse-IsOrder (key-IsOrder (λ e. e.priority) compare_ℤ-IsOrder))
      (key-IsOrder (λ e. e.queued_at) compare_text-IsOrder)

abbrev pub queued_rows : List QueueEntry → List QueueEntry
queued_rows rows = order_by next (filter (has_status "queued") rows)

unfoldable pub dequeue : Action System (Option QueueEntry)
dequeue s = (ok (head? (queued_rows s.job_queue)), s)

unfoldable pub get_by_execution : String → Action System (Option QueueEntry)
get_by_execution execution_id s = (ok (find (entry_of execution_id) s.job_queue), s)

-- Only the status and the two times are written.
abbrev pub write_entry : QueueEntry → QueueEntry → QueueEntry
write_entry entry row =
    if row.id == entry.id
    then record row {
      status = entry.status;
      started_at = entry.started_at;
      completed_at = entry.completed_at;
    }
    else row

unfoldable pub update : QueueEntry → Action System QueueEntry
update entry s = (ok entry, with_queue (map (write_entry entry) s.job_queue) s)

unfoldable pub remove : String → Action System Unit
remove id s = (ok tt, with_queue (filter (λ e. not (e.id == id)) s.job_queue) s)

unfoldable pub remove_by_execution : String → Action System Unit
remove_by_execution execution_id s =
    (ok tt, with_queue (filter (λ e. not (entry_of execution_id e)) s.job_queue) s)

abbrev count_status : String → System → ℕ
count_status status s = length (filter (has_status status) s.job_queue)

unfoldable pub count_queued : Action System ℕ
count_queued s = (ok (count_status "queued" s), s)

unfoldable pub count_processing : Action System ℕ
count_processing s = (ok (count_status "processing" s), s)

unfoldable pub count_dead_letter : Action System ℕ
count_dead_letter s = (ok (count_status "dead_letter" s), s)

abbrev pub reset_processing : QueueEntry → QueueEntry
reset_processing e =
    if has_status "processing" e then record e { status = "queued"; started_at = none } else e

unfoldable pub reset_processing_to_queued : Action System ℕ
reset_processing_to_queued s =
    (ok (count_status "processing" s), with_queue (map reset_processing s.job_queue) s)

abbrev pub take_entry : Clock → QueueEntry → QueueEntry
take_entry clock e = record e { status = "processing"; started_at = some clock.datetime }

-- UPDATE … WHERE id = (SELECT … LIMIT 1) RETURNING …
unfoldable pub dequeue_atomic : Clock → Action System (Option QueueEntry)
dequeue_atomic clock s = elim (head? (queued_rows s.job_queue)) [
  | none ↦ (ok none, s)
  | some e ↦ (
    ok (some (take_entry clock e)),
    with_queue (map (λ row. if row.id == e.id then take_entry clock row else row) s.job_queue) s,
  )
]

unfoldable pub get_all_queued : Action System (List QueueEntry)
get_all_queued s = (ok (queued_rows s.job_queue), s)

abbrev before : Option String → String → Bool
before none cutoff = false
before (some t) cutoff = is_lt (compare_text t cutoff)

abbrev pub expired : String → QueueEntry → Bool
expired cutoff e =
    (has_status "completed" e || has_status "failed" e) && before e.completed_at cutoff

-- `cutoff` is `datetime('now', '-' || hours || ' hours')`.
unfoldable pub cleanup_old : String → Action System ℕ
cleanup_old cutoff s = (
  ok (length (filter (expired cutoff) s.job_queue)),
  with_queue (filter (λ e. not (expired cutoff e)) s.job_queue) s,
)

-- `cutoff` is `datetime('now', '-1 hour')`.
abbrev count_since : String → String → System → ℕ
count_since status cutoff s = length (
    filter
      (λ e.
        has_status status e
        && elim e.completed_at [ none ↦ false | some t ↦ not (is_lt (compare_text t cutoff)) ])
      s.job_queue)

unfoldable pub count_completed_last_hour : String → Action System ℕ
count_completed_last_hour cutoff s = (ok (count_since "completed" cutoff s), s)

unfoldable pub count_failed_last_hour : String → Action System ℕ
count_failed_last_hour cutoff s = (ok (count_since "failed" cutoff s), s)

-- A missing time comes last, as NULL does in a descending order.
abbrev latest : QueueEntry → QueueEntry → Ordering
latest a b = elim b.completed_at [
  | none ↦ elim a.completed_at [ none ↦ Ordering.eq | some t ↦ Ordering.lt ]
  | some u ↦ elim a.completed_at [ none ↦ Ordering.gt | some t ↦ compare_text u t ]
]

unfoldable pub get_dead_letter_entries : Action System (List QueueEntry)
get_dead_letter_entries s =
    (ok (order_by latest (filter (has_status "dead_letter") s.job_queue)), s)

abbrev pub reset_entry : QueueEntry → QueueEntry
reset_entry e = record e { status = "queued"; started_at = none; completed_at = none }

unfoldable pub requeue : String → Action System Unit
requeue id s =
    (ok tt, with_queue (map (λ e. if e.id == id then reset_entry e else e) s.job_queue) s)

-- One entry more of a priority, before the groups of lower ones.
abbrev add_to : ℤ → List (ℤ × ℕ) → List (ℤ × ℕ)
add_to priority [] = (priority, 1) ∷ []
add_to priority ((p, n) ∷ groups) = elim (compare_ℤ priority p) [
  | Ordering.eq ↦ (p, suc n) ∷ groups
  | _ ↦ (priority, 1) ∷ (p, n) ∷ groups
]

-- The number of entries of each priority, for entries in the order of their priorities.
abbrev pub group_by_priority : List QueueEntry → List (ℤ × ℕ)
group_by_priority [] = []
group_by_priority (e ∷ entries) = add_to e.priority (group_by_priority entries)

unfoldable pub get_depth_by_priority : Action System (List (ℤ × ℕ))
get_depth_by_priority s = (
  ok (
      group_by_priority (
        order_by (λ a b. compare_ℤ b.priority a.priority)
          (filter (has_status "queued") s.job_queue))),
  s,
)
