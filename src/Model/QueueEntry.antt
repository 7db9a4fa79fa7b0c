-- ===== src/Model/QueueEntry.antt =====
-- QueueEntry of models/queue.rs: a row of the table `job_queue`.
use serverust_less.Prelude.{String, Option, none, some, ℤ}
use serverust_less.Model.Clock.{Clock}
use serverust_less.Model.QueueStatus.{QueueStatus, as_str}

pub record QueueEntry : Type 0 where
  pub id : String
  pub execution_id : String
  pub job_id : String
  pub priority : ℤ
  pub status : String
  pub queued_at : String
  pub started_at : Option String
  pub completed_at : Option String

-- The fresh identifier is an argument.
abbrev pub new : Clock → String → String → String → ℤ → QueueEntry
new clock id execution_id job_id priority = record {
  id = id;
  execution_id = execution_id;
  job_id = job_id;
  priority = priority;
  status = as_str QueueStatus.queued;
  queued_at = clock.rfc3339;
  started_at = none;
  completed_at = none;
}

abbrev pub mark_processing : Clock → QueueEntry → QueueEntry
mark_processing clock e = record e {
  status = as_str QueueStatus.processing;
  started_at = some clock.rfc3339;
}

abbrev pub mark_completed : Clock → QueueEntry → QueueEntry
mark_completed clock e = record e {
  status = as_str QueueStatus.completed;
  completed_at = some clock.rfc3339;
}

abbrev pub mark_failed : Clock → QueueEntry → QueueEntry
mark_failed clock e = record e {
  status = as_str QueueStatus.failed;
  completed_at = some clock.rfc3339;
}

abbrev pub mark_dead_letter : Clock → QueueEntry → QueueEntry
mark_dead_letter clock e = record e {
  status = as_str QueueStatus.dead_letter;
  completed_at = some clock.rfc3339;
}
