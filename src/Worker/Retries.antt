-- ===== src/Worker/Retries.antt =====
-- What becomes of the queue entry when a process has ended, and how often a failure is tried again.
use serverust_less.Prelude.{
  ◌≡◌, Bool, true, false, String, some, List, ◌∷◌, find, arith, ltb_ℤ, Bool-cases, inl, inr,
  eq_refl,
}
use serverust_less.Model.Clock.{Clock}
use serverust_less.Model.Execution.{Execution}
use serverust_less.Model.Job.{Job}
use serverust_less.Model.QueueEntry.{QueueEntry, mark_completed, mark_dead_letter}
use serverust_less.Db.{System, Retry}
use serverust_less.Db.QueueRepository.{entry_of}
use serverust_less.Queue.{
  QueueManager, mark, mark_execution_completed, mark_failed_with_retry, move_to_dead_letter,
}
use serverust_less.Queue.Items.{Known, find-mark}
use serverust_less.Worker.{
  ExecutionResult, outcome, is_success, update_queue_entry, retry_count_of, max_retries_of,
}
use serverust_less.Worker.Keeps.{Keeps}

-- Whether a failed execution may be tried again.
abbrev pub has_retries : Execution → Job → Bool
has_retries x j = ltb_ℤ x.retry_count j.max_retries

-- What becomes of the entry, and of the sleeping retries.
abbrev pub settled : Clock → Bool → Bool → QueueEntry → QueueEntry
settled clock true again e = mark_completed clock e
settled clock false true e = e
settled clock false false e = mark_dead_letter clock e

abbrev pub sleeping : Bool → Bool → Retry → List Retry → List Retry
sleeping true again r rs = rs
sleeping false true r rs = r ∷ rs
sleeping false false r rs = rs

limits-Known :
    {s : System} {id : String} {x : Execution} {j : Job}
    → Known s id x j
    → (retry_count_of id s ≡ x.retry_count) × (max_retries_of id s ≡ some j.max_retries)
unfolding retry_count_of max_retries_of
limits-Known known = (ground (arith, known.execution), ground (arith, known.execution, known.job))

-- When the process of a known execution has ended, its queue entry becomes completed after a
-- success. After any other outcome it stays as it is and one retry of it is scheduled, if the
-- execution's retry count is below the job's maximum, and becomes dead_letter otherwise, with no
-- retry scheduled.
pub update_queue_entry-Settles :
    (qm : QueueManager) (clock : Clock) (id : String) (r : ExecutionResult) (s : System)
    → {x : Execution} {j : Job} {e : QueueEntry} → Known s id x j
    → find (entry_of id) s.job_queue ≡ some e
    → (find (entry_of id) (update_queue_entry qm clock id r s).job_queue
        ≡ some (settled clock (is_success (outcome r).0) (has_retries x j) e))
      × ((update_queue_entry qm clock id r s).retries
          ≡ sleeping
              (is_success (outcome r).0)
              (has_retries x j)
              (record { entry_id = e.id; exec_id = id })
              s.retries)
unfolding update_queue_entry mark_execution_completed mark_failed_with_retry move_to_dead_letter
    mark
update_queue_entry-Settles qm clock id r s {x} {j} {e} known found =
    let limits = limits-Known known in
    elim (Bool-cases (is_success (outcome r).0)) [
      | inl good ↦ (
        ground (
          arith,
          good,
          found,
          find-mark (mark_completed clock) id s (λ e. ground (arith, eq_refl e.id)),
        ),
        ground (arith, good, found),
      )
      | inr bad ↦ elim (Bool-cases (has_retries x j)) [
        | inl again ↦ (
          ground (arith, bad, again, limits.0, limits.1, found),
          ground (arith, bad, again, limits.0, limits.1, found),
        )
        | inr over ↦ (
          ground (
            arith,
            bad,
            over,
            limits.0,
            limits.1,
            found,
            find-mark (mark_dead_letter clock) id s (λ e. ground (arith, eq_refl e.id)),
          ),
          ground (arith, bad, over, limits.0, limits.1, found),
        )
      ]
    ]

-- The row of an execution after any history of the workers.
record KnownLater (s : System) (id : String) (x : Execution) (j : Job) (e : QueueEntry)
    : Type 0 where
  x' : Execution
  e' : QueueEntry
  known : Known s id x' j
  count : x'.retry_count ≡ x.retry_count
  entry : find (entry_of id) s.job_queue ≡ some e'
  same : e'.id ≡ e.id
