-- ===== src/Processes/Shutdown.antt =====
-- ProcessManager::cancel_all: what a shutdown does to the executions that run.
use serverust_less.Prelude.{
  ℕ, ℤ, ◌≡◌, refl, ap, sym, ◌∙◌, Bool, true, String, Option, none, some, List, [], ◌∷◌, length,
  ◌==◌, eq_iff, eq_refl, elem, arith, Bool-cases, Option-cases, inl, inr, lookup, keys, is_some,
  elem-keys, Among,
}
use serverust_less.Processes.{
  ProcessInfo, Signal, ProcessManager, cancel, cancel_each, cancel_all, running_count,
  kill_process_unix, kill_if_known, as_i32,
}
use serverust_less.Processes.Refinement.{view, cancel-view, cancel_all-view}

-- SIGTERM was sent to the process, if its id is known.
abbrev pub Terminated : Option ℕ → List (ℤ × Signal) → Type 0
Terminated none signals = Unit
Terminated (some pid) signals = Among (as_i32 pid, Signal.sigterm) signals

pub record Notified (info : ProcessInfo) (pm : ProcessManager) : Type 0 where
  pub told : Among info.cancel_tx pm.sent
  pub signalled : Terminated info.pid pm.signals

kill_process_unix-sends :
    (answers : ℤ → Signal → Bool) (pid : ℕ) (signals : List (ℤ × Signal))
    → Terminated (some pid) (kill_process_unix answers pid signals)
unfolding kill_process_unix
kill_process_unix-sends answers pid signals =
    elim (Bool-cases (answers (as_i32 pid) Signal.sigterm)) [
      | inl taken ↦ elim (Bool-cases (answers (as_i32 pid) Signal.probe)) [
        | inl alive ↦ rw (taken) (rw (alive) (inr (inr (inl refl))))
        | inr gone ↦ rw (taken) (rw (gone) (inr (inl refl)))
      ]
      | inr failed ↦ rw failed (inl refl)
    ]

kill_process_unix-keeps :
    (answers : ℤ → Signal → Bool) (pid : ℕ) (signals : List (ℤ × Signal)) (x : ℤ × Signal)
    → Among x signals
    → Among x (kill_process_unix answers pid signals)
unfolding kill_process_unix
kill_process_unix-keeps answers pid signals x h =
    elim (Bool-cases (answers (as_i32 pid) Signal.sigterm)) [
      | inl taken ↦ elim (Bool-cases (answers (as_i32 pid) Signal.probe)) [
        | inl alive ↦ rw (taken) (rw (alive) (inr (inr (inr h))))
        | inr gone ↦ rw (taken) (rw (gone) (inr (inr h)))
      ]
      | inr failed ↦ rw failed (inr h)
    ]

kill_if_known-keeps :
    (answers : ℤ → Signal → Bool) (pid old : Option ℕ) (signals : List (ℤ × Signal))
    → Terminated old signals
    → Terminated old (kill_if_known answers pid signals)
kill_if_known-keeps answers none old signals h = h
kill_if_known-keeps answers (some pid) none signals h = tt
kill_if_known-keeps answers (some pid) (some p) signals h =
    kill_process_unix-keeps answers pid signals (as_i32 p, Signal.sigterm) h

kill_if_known-sends :
    (answers : ℤ → Signal → Bool) (pid : Option ℕ) (signals : List (ℤ × Signal))
    → Terminated pid (kill_if_known answers pid signals)
kill_if_known-sends answers none signals = tt
kill_if_known-sends answers (some pid) signals = kill_process_unix-sends answers pid signals

pub cancel-Notified :
    (answers : ℤ → Signal → Bool) (id : String) (pm : ProcessManager) {info : ProcessInfo}
    → view pm id ≡ some info
    → Notified info (cancel answers id pm).1
unfolding cancel
cancel-Notified answers id pm {info} there =
    rw (there, cancel)
      (record { told = inl refl; signalled = kill_if_known-sends answers info.pid pm.signals })

cancel-keeps :
    (answers : ℤ → Signal → Bool) (id : String) (pm : ProcessManager) (info : ProcessInfo)
    → Notified info pm
    → Notified info (cancel answers id pm).1
unfolding cancel
cancel-keeps answers id pm info h = elim (Option-cases (lookup id pm.processes)) [
  | inl missing ↦ rw (missing, cancel) h
  | inr (other, there) ↦
      rw (there, cancel)
        (record {
          told = inr h.told;
          signalled = kill_if_known-keeps answers other.pid info.pid pm.signals h.signalled;
        })
]

cancel_each-keeps :
    (answers : ℤ → Signal → Bool) (ids : List String) (pm : ProcessManager) (info : ProcessInfo)
    → Notified info pm
    → Notified info (cancel_each answers ids pm)
unfolding cancel_each
cancel_each-keeps answers [] pm info h = h
cancel_each-keeps answers (id ∷ ids) pm info h =
    cancel_each-keeps answers ids (cancel answers id pm).1 info (cancel-keeps answers id pm info h)

cancel_each-Notified :
    (answers : ℤ → Signal → Bool) (ids : List String) (pm : ProcessManager) (id : String)
    (info : ProcessInfo)
    → elem id ids ≡ true
    → view pm id ≡ some info
    → Notified info (cancel_each answers ids pm)
unfolding cancel_each
cancel_each-Notified answers [] pm id info listed there = cc
cancel_each-Notified answers (i ∷ ids) pm id info listed there = elim (Bool-cases (id == i)) [
  | inl same ↦
      cancel_each-keeps answers ids (cancel answers i pm).1 info
        (cancel-Notified answers i pm (ap (view pm) (sym ((eq_iff id i).0 same)) ∙ there))
  | inr other ↦
      cancel_each-Notified answers ids (cancel answers i pm).1 id info
        (ground (arith, other, listed)) (ground (arith, cancel-view answers i pm id, other, there))
]

length-unmapped :
    {V : Type 0} (m : List (String × V)) → ((j : String) → lookup j m ≡ none) → length m ≡ 0
length-unmapped [] h = refl
length-unmapped ((j, v) ∷ m) h = ground (arith, h j, eq_refl j)

-- If an execution is registered when everything is cancelled, then its worker is sent the cancel
-- signal and its process SIGTERM, if its id is known, whichever system calls succeed; and no entry
-- is left.
pub cancel_all-Notified :
    (answers : ℤ → Signal → Bool) (pm : ProcessManager) (id : String) (info : ProcessInfo)
    → lookup id pm.processes ≡ some info
    → Notified info (cancel_all answers pm) × (running_count (cancel_all answers pm) ≡ 0)
unfolding cancel_all running_count
cancel_all-Notified answers pm id info there = (
  cancel_each-Notified answers (keys pm.processes) pm id info
      (elem-keys id pm.processes ∙ ap is_some there) there,
  length-unmapped _ (cancel_all-view answers pm),
)
