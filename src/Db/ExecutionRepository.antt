-- ===== src/Db/ExecutionRepository.antt =====
-- db/executions.rs. A deletion cascades to the queue entry of the execution, and clears the
-- reference of a DAG node (migrations 014 and 018).
use serverust_less.Prelude.{
  ℕ, Bool, false, not, ◌&&◌, ◌||◌, String, Option, none, some, List, [], ◌∷◌, ◌++◌, map, find, any,
  filter, length, ◌==◌, str_append, if◌then◌else◌, ℤ, head?, order_by, compare_text, is_lt,
}
use serverust_less.Action.{Action, ok, err, ok_or, not_found, db_error}
use serverust_less.Model.Clock.{Clock}
use serverust_less.Model.ExecutionStatus.{ExecutionStatus, as_str, is_terminal}
use serverust_less.Model.Execution.{Execution}
use serverust_less.Model.Dag.{DagNodeExecution}
use serverust_less.Db.State.{System, Db}

abbrev pub execution_named : String → Execution → Bool
execution_named id e = e.id == id

abbrev pub execution_not_found : String → String
execution_not_found id = str_append "Execution not found: " id

unfoldable pub get_by_id : String → Action System Execution
get_by_id id s =
    (ok_or (find (execution_named id) s.executions) (not_found (execution_not_found id)), s)

-- The job must exist, by the foreign key.
unfoldable pub create : Execution → Action System Execution
unfolding get_by_id
create execution s =
    if any (execution_named execution.id) s.executions
    then (err (db_error "UNIQUE constraint failed: executions.id"), s)
    else if any (λ job. job.id == execution.job_id) s.jobs
    then get_by_id execution.id
        (record s { db = record s.db { executions = s.executions ++ execution ∷ [] } })
    else (err (db_error "FOREIGN KEY constraint failed"), s)

-- The statement leaves `id`, `job_id`, `input_data` and `created_at` alone.
abbrev pub write_execution : Execution → Execution → Execution
write_execution execution row =
    if row.id == execution.id
    then record row {
      status = execution.status;
      output_data = execution.output_data;
      error_message = execution.error_message;
      retry_count = execution.retry_count;
      worker_id = execution.worker_id;
      started_at = execution.started_at;
      completed_at = execution.completed_at;
      duration_ms = execution.duration_ms;
    }
    else row

unfoldable pub update : Execution → Action System Execution
unfolding get_by_id
update execution s =
    if any (execution_named execution.id) s.executions
    then get_by_id execution.id (record s {
      db = record s.db { executions = map (write_execution execution) s.executions };
    })
    else (err (not_found (execution_not_found execution.id)), s)

-- `execution_id` of a node refers to the execution.
abbrev refers : String → Option String → Bool
refers id none = false
refers id (some e) = e == id

abbrev forget : (String → Bool) → DagNodeExecution → DagNodeExecution
forget gone n = record n {
  execution_id = elim n.execution_id [ none ↦ none | some e ↦ if gone e then none else some e ];
}

-- DELETE with its cascades.
abbrev pub delete_rows : (String → Bool) → Db → Db
delete_rows gone db = record db {
  executions = filter (λ e. not (gone e.id)) db.executions;
  job_queue = filter (λ e. not (gone e.execution_id)) db.job_queue;
  dag_node_executions = map (forget gone) db.dag_node_executions;
}

unfoldable pub delete : String → Action System Unit
delete id s =
    if any (execution_named id) s.executions
    then (ok tt, record s { db = delete_rows (λ e. e == id) s.db })
    else (err (not_found (execution_not_found id)), s)

abbrev pub contains_id : List String → String → Bool
contains_id ids id = any (λ i. i == id) ids

unfoldable pub delete_bulk : List String → Action System ℕ
delete_bulk [] s = (ok 0, s)
delete_bulk (i ∷ ids) s = (
  ok (length (filter (λ e. contains_id (i ∷ ids) e.id) s.executions)),
  record s { db = delete_rows (contains_id (i ∷ ids)) s.db },
)

abbrev pub is_running : Execution → Bool
is_running e = e.status == "running"

-- A missing time comes first, as NULL does in an ascending order.
abbrev compare_time : Option String → Option String → Prim.Native.Nat.Ordering
compare_time none none = Prim.Native.Nat.Ordering.eq
compare_time none (some b) = Prim.Native.Nat.Ordering.lt
compare_time (some a) none = Prim.Native.Nat.Ordering.gt
compare_time (some a) (some b) = compare_text a b

unfoldable pub get_running : Action System (List Execution)
get_running s = (
  ok (order_by (λ a b. compare_time a.started_at b.started_at) (filter is_running s.executions)),
  s,
)

unfoldable pub get_pending : Action System (Option Execution)
get_pending s = (
  ok (
      head? (
        order_by (λ a b. compare_text a.created_at b.created_at)
          (filter (λ e. e.status == "pending") s.executions))),
  s,
)

abbrev time_since : Clock → Option Execution → Option ℤ
time_since clock none = none
time_since clock (some e) = elim e.started_at [ none ↦ none | some t ↦ clock.since t ]

-- Only a terminal status sets the completion time and the duration.
unfoldable pub update_status : Clock → String → ExecutionStatus → Option String → Action System Unit
update_status clock id status error_message s =
    let duration = time_since clock (find (execution_named id) s.executions) in
    let finish = λ (e : Execution).
      if e.id == id
      then record e {
        status = as_str status;
        error_message = error_message;
        completed_at = some clock.rfc3339;
        duration_ms = duration;
      }
      else e in
    let mark = λ (e : Execution).
      if e.id == id
      then record e { status = as_str status; error_message = error_message }
      else e in
    (
      ok tt,
      record s {
        db = record s.db {
          executions =
              if is_terminal status then map finish s.executions else map mark s.executions;
        };
      },
    )

abbrev before : Option String → String → Bool
before none cutoff = false
before (some t) cutoff = is_lt (compare_text t cutoff)

abbrev pub expired : String → Execution → Bool
expired cutoff e =
    (e.status == "success"
      || e.status == "failed"
      || e.status == "timeout"
      || e.status == "cancelled")
    && before e.completed_at cutoff

-- `cutoff` is `datetime('now', '-' || days || ' days')`.
unfoldable pub delete_older_than : String → Action System ℕ
delete_older_than cutoff s =
    let gone = filter (expired cutoff) s.executions in
    (ok (length gone), record s { db = delete_rows (λ id. any (execution_named id) gone) s.db })

unfoldable pub count_all : Action System ℕ
count_all s = (ok (length s.executions), s)

unfoldable pub count_running : Action System ℕ
count_running s = (ok (length (filter is_running s.executions)), s)
