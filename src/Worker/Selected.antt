-- ===== src/Worker/Selected.antt =====
-- worker/pool.rs: the `select!` around the process, with the cancel channel of the registration.
use serverust_less.Prelude.{ℕ, Bool, ◌||◌, String, none, any, nat_eq, if◌then◌else◌}
use serverust_less.Processes.{ProcessManager, register}
use serverust_less.Worker.{ExecutionResult, cancelled_result}

-- The receiver is ready once its sender was used or dropped: the branch takes either.
abbrev pub fired : ℕ → ProcessManager → Bool
fired channel pm = any (nat_eq channel) pm.sent || any (nat_eq channel) pm.dropped

-- `r` is the result of a process that ends; a channel that fired before that ends it.
unfoldable pub selected : ℕ → ExecutionResult → ProcessManager → ExecutionResult
selected channel r pm = if fired channel pm then cancelled_result else r

-- A worker starts to run an execution; the process id is reported later.
abbrev pub started : ℕ → ℕ → String → String → ℕ → ProcessManager → ProcessManager
started channel now exec_id job_id worker_id = register channel now exec_id job_id none worker_id
