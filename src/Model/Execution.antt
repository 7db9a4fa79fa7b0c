-- ===== src/Model/Execution.antt =====
-- Execution of models/execution.rs: one run of a job, and its transitions.
use mathlib.Core.Option.{get_or}
use serverust_less.Prelude.{String, Option, none, some, ℤ, pos, ◌+ℤ◌}
use serverust_less.Model.Clock.{Clock}
use serverust_less.Model.ExecutionStatus
use serverust_less.Model.ExecutionStatus.{ExecutionStatus, as_str, from_str}

pub record Execution : Type 0 where
  pub id : String
  pub job_id : String
  pub status : String
  pub input_data : Option String
  pub output_data : Option String
  pub error_message : Option String
  pub retry_count : ℤ
  pub worker_id : Option String
  pub started_at : Option String
  pub completed_at : Option String
  pub duration_ms : Option ℤ
  pub created_at : String

-- The fresh identifier is an argument; `input_data` is the JSON value's text.
abbrev pub new : Clock → String → String → Option String → Execution
new clock id job_id input_data = record {
  id = id;
  job_id = job_id;
  status = as_str ExecutionStatus.pending;
  input_data = input_data;
  output_data = none;
  error_message = none;
  retry_count = pos 0;
  worker_id = none;
  started_at = none;
  completed_at = none;
  duration_ms = none;
  created_at = clock.rfc3339;
}

unfoldable pub status_enum : Execution → ExecutionStatus
unfolding from_str
status_enum e = get_or (from_str e.status) ExecutionStatus.default

-- The duration is computed where the start is known and parses, and is kept otherwise.
abbrev duration_at : Clock → Option String → Option ℤ → Option ℤ
duration_at clock none old = old
duration_at clock (some started) old = elim (clock.since started) [ none ↦ old | some d ↦ some d ]

abbrev complete : Clock → Execution → Execution
complete clock e = record e {
  completed_at = some clock.rfc3339;
  duration_ms = duration_at clock e.started_at e.duration_ms;
}

abbrev pub mark_queued : Execution → Execution
mark_queued e = record e { status = as_str ExecutionStatus.queued }

abbrev pub mark_running : Clock → String → Execution → Execution
mark_running clock worker e = record e {
  status = as_str ExecutionStatus.running;
  worker_id = some worker;
  started_at = some clock.rfc3339;
}

abbrev pub mark_success : Clock → String → Execution → Execution
mark_success clock output e =
    complete clock (record e { status = as_str ExecutionStatus.success; output_data = some output })

abbrev pub mark_failed : Clock → String → Execution → Execution
mark_failed clock error e =
    complete clock (record e { status = as_str ExecutionStatus.failed; error_message = some error })

abbrev pub mark_timeout : Clock → Execution → Execution
mark_timeout clock e = complete clock (record e {
  status = as_str ExecutionStatus.timeout;
  error_message = some "Execution timed out";
})

abbrev pub mark_cancelled : Clock → Execution → Execution
mark_cancelled clock e = complete clock (record e { status = as_str ExecutionStatus.cancelled })

abbrev pub increment_retry : Execution → Execution
increment_retry e = record e {
  retry_count = e.retry_count +ℤ pos 1;
  status = as_str ExecutionStatus.pending;
  error_message = none;
}
