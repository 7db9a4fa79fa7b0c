-- ===== src/Worker/Results.antt =====
-- What a worker writes of a result, and what becomes of the queue entry.
use serverust_less.Prelude.{
  ◌≡◌, refl, true, String, Option, none, some, List, [], ◌∷◌, map, find, any, find-update, arith, ℤ,
  if◌then◌else◌, ◌==◌, eq_iff, eq_refl, find-eq-some, Option-cases, Bool-cases, ap, inl, inr,
}
use mathlib.Core.Option
use serverust_less.Model.Clock.{Clock}
use serverust_less.Model.ExecutionStatus.{ExecutionStatus, as_str}
use serverust_less.Model.Execution.{Execution}
use serverust_less.Db.{System}
use serverust_less.Db.ExecutionRepository.{execution_named, write_execution}
use serverust_less.Worker.{ExecutionResult, write_result, outcome, finish_as, finalize_execution}

-- The row that a result leaves of an execution.
abbrev pub recorded : Clock → ExecutionResult → Execution → Execution
recorded clock r e =
    if e.status == as_str ExecutionStatus.cancelled
    then e
    else finish_as clock (outcome r).0 (outcome r).1 (if r.success then some r.stdout else none)
        r.duration_ms e

pub any-find :
    (id : String) (rows : List Execution) {e : Execution}
    → find (execution_named id) rows ≡ some e
    → any (execution_named id) rows ≡ true
any-find id [] found = cc
any-find id (row ∷ rows) {e} found = ground (arith, any-find id rows {e = e})

-- The update statement, seen from a lookup.
find-write_execution :
    (x : Execution) (id : String) (rows : List Execution)
    → find (execution_named id) (map (write_execution x) rows)
      ≡ Option.map (write_execution x) (find (execution_named id) rows)
find-write_execution x id rows =
    find-update (λ e. e.id) (write_execution x) (λ a. ground arith) id rows

-- A lookup by id finds a row of that id.
pub found-id :
    (id : String) (rows : List Execution) {e : Execution}
    → find (execution_named id) rows ≡ some e
    → e.id ≡ id
found-id id rows {e} found = (eq_iff _ _).0 (find-eq-some (execution_named id) rows found)

-- A write of the row found under `id`, seen from any lookup.
pub lookup-write :
    (x e : Execution) (id other : String) (rows : List Execution)
    → find (execution_named id) rows ≡ some e
    → x.id ≡ e.id
    → write_execution x e ≡ x
    → find (execution_named other) (map (write_execution x) rows)
      ≡ (if other == id then some x else find (execution_named other) rows)
lookup-write x e id other rows found same columns = elim (Bool-cases (other == id)) [
  | inl it ↦
      ground (arith, find-write_execution x other rows, (eq_iff other id).0 it, found, columns)
  | inr another ↦ elim (Option-cases (find (execution_named other) rows)) [
    | inl missing ↦ ground (arith, find-write_execution x other rows)
    | inr (row, seen) ↦ ground (
      arith,
      find-write_execution x other rows,
      found-id id rows found,
      found-id other rows seen,
      ap (λ t. t == x.id) (found-id other rows seen),
    )
  ]
]

-- A lookup of the row that is known reads it.
pub lookup-same :
    (id other : String) (rows : List Execution) {e : Execution}
    → find (execution_named id) rows ≡ some e
    → find (execution_named other) rows
      ≡ (if other == id then some e else find (execution_named other) rows)
lookup-same id other rows found = elim (Bool-cases (other == id)) [
  | inl it ↦ ground (arith, (eq_iff other id).0 it, found)
  | inr another ↦ ground arith
]

finalize-executions :
    (clock : Clock) (id : String) (status : ExecutionStatus) (message output : Option String)
    (d : ℤ) (s : System) (e : Execution)
    → find (execution_named id) s.executions ≡ some e
    → (finalize_execution clock id status message output d s).1.executions
      ≡ map (write_execution (finish_as clock status message output d e)) s.executions
unfolding finalize_execution
finalize-executions clock id status message output d s e found = ground (
  arith,
  found,
  any-find id s.executions found,
  ap (λ t. any (execution_named t) s.executions) (found-id id s.executions found),
)

abbrev finished_row : Clock → ExecutionResult → Execution → Execution
finished_row clock r e =
    finish_as clock (outcome r).0 (outcome r).1 (if r.success then some r.stdout else none)
      r.duration_ms e

write_result-executions :
    (clock : Clock) (id : String) (r : ExecutionResult) (s : System) (e : Execution)
    → find (execution_named id) s.executions ≡ some e
    → (write_result clock id r s).executions ≡ (
        if e.status == "cancelled"
        then s.executions
        else map (write_execution (finished_row clock r e)) s.executions)
unfolding write_result
write_result-executions clock id r s e found = elim (Bool-cases (e.status == "cancelled")) [
  | inl cancelled ↦ ground (arith, found)
  | inr live ↦ ground (
    arith,
    found,
    finalize-executions clock id (outcome r).0 (outcome r).1
        (if r.success then some r.stdout else none) r.duration_ms s e found,
  )
]

-- The result of a process is recorded in the row of its execution, with the outcome's status, message
-- and output and the time, unless the execution was cancelled meanwhile: then the row stays as it
-- is. The row of every other execution stays as it is too.
pub write_result-Records :
    (clock : Clock) (id : String) (r : ExecutionResult) (s : System) (e : Execution)
    → find (execution_named id) s.executions ≡ some e
    → (other : String)
    → find (execution_named other) (write_result clock id r s).executions ≡ (
        if other == id
        then some (recorded clock r e)
        else find (execution_named other) s.executions)
write_result-Records clock id r s e found other = elim (Bool-cases (e.status == "cancelled")) [
  | inl cancelled ↦
      ground (
        arith,
        write_result-executions clock id r s e found,
        lookup-same id other s.executions found,
      )
  | inr live ↦ ground (
    arith,
    write_result-executions clock id r s e found,
    lookup-write (finished_row clock r e) e id other s.executions found refl
        (ground (arith, eq_refl e.id)),
  )
]
