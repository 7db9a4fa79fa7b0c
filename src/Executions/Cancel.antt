-- ===== src/Executions/Cancel.antt =====
-- Which executions can be cancelled, and what a cancellation leaves.
use serverust_less.Prelude.{if◌then◌else◌}
use serverust_less.Model.Clock.{Clock}
use serverust_less.Model.ExecutionStatus.{is_terminal}
use serverust_less.Model.Execution.{Execution, status_enum, mark_cancelled}

-- The row after a request to cancel.
abbrev pub after_cancel : Clock → Execution → Execution
after_cancel clock e = if is_terminal (status_enum e) then e else mark_cancelled clock e
