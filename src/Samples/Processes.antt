-- ===== src/Samples/Processes.antt =====
-- The theorems on the process manager, at two executions.
use serverust_less.Prelude.{ℤ, List, ◌≡◌, refl, Bool, true, none, some, [], ◌∷◌}
use serverust_less.Processes.{ProcessInfo, ProcessManager, Signal, new, cancel_all, running_count}
use serverust_less.Processes.Refinement.{
  Call, registers, updates_pid, cancels, cancels_all, counts, lists, asks, unregisters, Allowed,
  view, run, run-Refines,
}
use serverust_less.Processes.Shutdown.{Notified, cancel_all-Notified}

abbrev every_call : ℤ → Signal → Bool
every_call pid signal = true

abbrev first_info : ProcessInfo
first_info = record {
  pid = some 812;
  job_id = "j-1";
  worker_id = 0;
  cancel_tx = 1;
  started_at = 40;
}

abbrev two_running : ProcessManager
two_running = record {
  processes = ("e-1", first_info) ∷ ("e-2", record first_info { pid = none; cancel_tx = 2 }) ∷ [];
  sent = [];
  dropped = [];
  signals = [];
}

abbrev calls : List Call
calls =
    registers 1 40 "e-1" "j-1" none 0
    ∷ updates_pid "e-1" 812
    ∷ registers 2 41 "e-2" "j-1" none 1
    ∷ counts
    ∷ cancels "e-1"
    ∷ cancels "e-1"
    ∷ asks "e-2"
    ∷ unregisters "e-2"
    ∷ lists
    ∷ cancels_all
    ∷ []

run-Refines_example : Allowed calls (view new) (run every_call calls new)
run-Refines_example = run-Refines every_call calls new tt

cancel_all-Notified_example :
    Notified first_info (cancel_all every_call two_running)
    × (running_count (cancel_all every_call two_running) ≡ 0)
cancel_all-Notified_example = cancel_all-Notified every_call two_running "e-1" first_info refl
