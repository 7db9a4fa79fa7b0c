-- ===== src/Processes.antt =====
-- worker/process_manager.rs: the table of running processes, on Unix. A cancel channel is the
-- number that `register` is given for it; what was sent, dropped and signalled is kept as lists,
-- the newest first. A HashMap is an association list, whose order no result should depend on.
pub mod Refinement
pub mod Shutdown
use serverust_less.Prelude.{
  ℕ, ◌-◌, ◌∷◌, List, [], Bool, true, false, String, Option, none, some, ℤ, pos, sub_ℕ, ltb, length,
  if◌then◌else◌, lookup, insert, erase, keys,
}

pub record ProcessInfo : Type 0 where
  pub pid : Option ℕ
  pub job_id : String
  pub worker_id : ℕ
  pub cancel_tx : ℕ
  pub started_at : ℕ

pub record ProcessHandle : Type 0 where
  pub pid : ℕ
  pub execution_id : String
  pub job_id : String
  pub worker_id : ℕ
  pub started_at : ℕ

-- `probe` is `kill(pid, None)`, which only asks whether the process exists.
pub data Signal : Type 0 where
  sigterm probe sigkill : Signal

pub record ProcessManager : Type 0 where
  pub processes : List (String × ProcessInfo)
  -- The channels that were sent the cancel signal, and those whose sender was dropped unsent.
  pub sent : List ℕ
  pub dropped : List ℕ
  -- The system calls made, each with the process id that it was given.
  pub signals : List (ℤ × Signal)

abbrev pub new : ProcessManager
new = record { processes = []; sent = []; dropped = []; signals = [] }

-- What happens to the sender of an entry that leaves the table without being used.
abbrev pub drop_sender : Option ProcessInfo → List ℕ → List ℕ
drop_sender none dropped = dropped
drop_sender (some info) dropped = info.cancel_tx ∷ dropped

-- `channel` is the new channel, `now` the time: the receiver goes to the caller.
unfoldable pub register : ℕ → ℕ → String → String → Option ℕ → ℕ → ProcessManager → ProcessManager
register channel now execution_id job_id pid worker_id pm = record pm {
  processes =
      insert execution_id
        (record {
          pid = pid;
          job_id = job_id;
          worker_id = worker_id;
          cancel_tx = channel;
          started_at = now;
        })
        pm.processes;
  dropped = drop_sender (lookup execution_id pm.processes) pm.dropped;
}

abbrev pub with_pid : ℕ → ProcessInfo → ProcessInfo
with_pid pid info = record info { pid = some pid }

unfoldable pub update_pid : String → ℕ → ProcessManager → ProcessManager
update_pid execution_id pid pm = elim (lookup execution_id pm.processes) [
  | none ↦ pm
  | some info ↦ record pm { processes = insert execution_id (with_pid pid info) pm.processes }
]

unfoldable pub unregister : String → ProcessManager → ProcessManager
unregister execution_id pm = record pm {
  processes = erase execution_id pm.processes;
  dropped = drop_sender (lookup execution_id pm.processes) pm.dropped;
}

-- `pid as i32`
abbrev pub as_i32 : ℕ → ℤ
as_i32 pid = if ltb pid 2147483648 then pos pid else sub_ℕ pid 4294967296

-- `answers` tells which of the calls succeed. No answer to SIGTERM ends the attempt; SIGKILL is
-- for a process that still exists after the wait.
unfoldable pub kill_process_unix : (ℤ → Signal → Bool) → ℕ → List (ℤ × Signal) → List (ℤ × Signal)
kill_process_unix answers pid signals =
    let p = as_i32 pid in
    let after_term = (p, Signal.sigterm) ∷ signals in
    let probed = (p, Signal.probe) ∷ after_term in
    if answers p Signal.sigterm
    then if answers p Signal.probe then (p, Signal.sigkill) ∷ probed else probed
    else after_term

abbrev pub kill_if_known : (ℤ → Signal → Bool) → Option ℕ → List (ℤ × Signal) → List (ℤ × Signal)
kill_if_known answers none signals = signals
kill_if_known answers (some pid) signals = kill_process_unix answers pid signals

module _ (answers : ℤ → Signal → Bool) where
  -- The result is `Ok` of the flag. The signal to a receiver that is gone is lost silently.
  unfoldable pub cancel : String → ProcessManager → Bool × ProcessManager
  unfolding kill_process_unix
  cancel execution_id pm = elim (lookup execution_id pm.processes) [
    | none ↦ (false, pm)
    | some info ↦ (
      true,
      record pm {
        processes = erase execution_id pm.processes;
        sent = info.cancel_tx ∷ pm.sent;
        signals = kill_if_known answers info.pid pm.signals;
      },
    )
  ]

  unfoldable pub cancel_each : List String → ProcessManager → ProcessManager
  unfolding cancel
  cancel_each [] pm = pm
  cancel_each (id ∷ ids) pm = cancel_each ids (cancel id pm).1

  -- The ids are read first; the lock is taken anew for each.
  unfoldable pub cancel_all : ProcessManager → ProcessManager
  unfolding cancel_each
  cancel_all pm = cancel_each (keys pm.processes) pm

unfoldable pub running_count : ProcessManager → ℕ
running_count pm = length pm.processes

unfoldable pub running_executions : ProcessManager → List String
running_executions pm = keys pm.processes

abbrev pub pid_or_zero : Option ℕ → ℕ
pid_or_zero none = 0
pid_or_zero (some pid) = pid

abbrev pub handle_of : String → Option ProcessInfo → Option ProcessHandle
handle_of execution_id none = none
handle_of execution_id (some info) = some (record {
  pid = pid_or_zero info.pid;
  execution_id = execution_id;
  job_id = info.job_id;
  worker_id = info.worker_id;
  started_at = info.started_at;
})

unfoldable pub get_info : String → ProcessManager → Option ProcessHandle
get_info execution_id pm = handle_of execution_id (lookup execution_id pm.processes)
