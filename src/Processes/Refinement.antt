-- ===== src/Processes/Refinement.antt =====
-- ProcessManager against its contract: a finite map from execution ids to entries.
use serverust_less.Prelude.{
  ℕ, ℤ, ◌≡◌, refl, ap, Bool, String, Option, none, some, List, [], ◌∷◌, length, ◌==◌, elem, Nodup,
  arith, Option-cases, inl, inr, if◌then◌else◌, lookup, keys, changed, is_some, lookup-insert,
  lookup-erase, elem-keys, changed-missing, subst, Nodup-insert, Nodup-erase,
}
use mathlib.Core.Option
use mathlib.Core.Path.{fun_ext}
use serverust_less.Processes.{
  ProcessInfo, ProcessHandle, Signal, ProcessManager, register, update_pid, unregister, with_pid,
  cancel, cancel_each, cancel_all, running_count, running_executions, get_info, handle_of,
}

-- The contract's state: which executions run, and with what.
abbrev pub Spec : Type 0
Spec = String → Option ProcessInfo

abbrev pub view : ProcessManager → Spec
view pm id = lookup id pm.processes

-- No execution has two entries.
abbrev pub IsMap : ProcessManager → Type 0
IsMap pm = Nodup (keys pm.processes)

pub data Call : Type 0 where
  registers : ℕ → ℕ → String → String → Option ℕ → ℕ → Call
  updates_pid : String → ℕ → Call
  unregisters : String → Call
  cancels : String → Call
  cancels_all : Call
  counts : Call
  lists : Call
  asks : String → Call

pub data Reply : Type 0 where
  done : Reply
  found : Bool → Reply
  number : ℕ → Reply
  names : List String → Reply
  handle : Option ProcessHandle → Reply

-- What each call does to the map.
abbrev pub spec_step : Call → Spec → Spec
spec_step (registers channel now id job_id pid worker_id) f =
    changed id
      (some (record {
        pid = pid;
        job_id = job_id;
        worker_id = worker_id;
        cancel_tx = channel;
        started_at = now;
      }))
      f
spec_step (updates_pid id pid) f = changed id (Option.map (with_pid pid) (f id)) f
spec_step (unregisters id) f = changed id none f
spec_step (cancels id) f = changed id none f
spec_step cancels_all f = λ _. none
spec_step _ f = f

-- A list of the ids that the map holds, each once.
abbrev pub Lists : List String → Spec → Type 0
Lists ids f = Nodup ids × ((id : String) → elem id ids ≡ is_some (f id))

-- What each call may answer in a map.
abbrev pub Answers : Call → Spec → Reply → Type 0
Answers (cancels id) f reply = reply ≡ found (is_some (f id))
Answers counts f reply = (ids : List String) × Lists ids f × (reply ≡ number (length ids))
Answers lists f reply = (ids : List String) × Lists ids f × (reply ≡ names ids)
Answers (asks id) f reply = reply ≡ handle (handle_of id (f id))
Answers _ f reply = reply ≡ done

pub step : (ℤ → Signal → Bool) → Call → ProcessManager → Reply × ProcessManager
unfolding register update_pid unregister cancel cancel_all running_count running_executions get_info
step answers (registers channel now id job_id pid worker_id) pm =
    (done, register channel now id job_id pid worker_id pm)
step answers (updates_pid id pid) pm = (done, update_pid id pid pm)
step answers (unregisters id) pm = (done, unregister id pm)
step answers (cancels id) pm = let r = cancel answers id pm in (found r.0, r.1)
step answers cancels_all pm = (done, cancel_all answers pm)
step answers counts pm = (number (running_count pm), pm)
step answers lists pm = (names (running_executions pm), pm)
step answers (asks id) pm = (handle (get_info id pm), pm)

pub cancel-view :
    (answers : ℤ → Signal → Bool) (id : String) (pm : ProcessManager) (j : String)
    → view (cancel answers id pm).1 j ≡ (if j == id then none else view pm j)
unfolding cancel
cancel-view answers id pm j = elim (Option-cases (lookup id pm.processes)) [
  | inl missing ↦ rw (missing, cancel) (changed-missing j id pm.processes missing)
  | inr (info, there) ↦ rw (there, cancel) (lookup-erase j id pm.processes)
]

cancel-IsMap :
    (answers : ℤ → Signal → Bool) (id : String) (pm : ProcessManager)
    → IsMap pm
    → IsMap (cancel answers id pm).1
unfolding cancel
cancel-IsMap answers id pm h = elim (Option-cases (lookup id pm.processes)) [
  | inl missing ↦ rw (missing, cancel) h
  | inr (info, there) ↦ rw (there, cancel) (Nodup-erase id pm.processes h)
]

cancel-found :
    (answers : ℤ → Signal → Bool) (id : String) (pm : ProcessManager)
    → (cancel answers id pm).0 ≡ is_some (view pm id)
unfolding cancel
cancel-found answers id pm = ground arith

pub cancel_each-view :
    (answers : ℤ → Signal → Bool) (ids : List String) (pm : ProcessManager) (j : String)
    → view (cancel_each answers ids pm) j ≡ (if elem j ids then none else view pm j)
unfolding cancel_each
cancel_each-view answers [] pm j = refl
cancel_each-view answers (id ∷ ids) pm j =
    ground
      (arith, cancel_each-view answers ids (cancel answers id pm).1 j, cancel-view answers id pm j)

cancel_each-IsMap :
    (answers : ℤ → Signal → Bool) (ids : List String) (pm : ProcessManager)
    → IsMap pm
    → IsMap (cancel_each answers ids pm)
unfolding cancel_each
cancel_each-IsMap answers [] pm h = h
cancel_each-IsMap answers (id ∷ ids) pm h =
    cancel_each-IsMap answers ids (cancel answers id pm).1 (cancel-IsMap answers id pm h)

pub cancel_all-view :
    (answers : ℤ → Signal → Bool) (pm : ProcessManager) (j : String)
    → view (cancel_all answers pm) j ≡ none
unfolding cancel_all
cancel_all-view answers pm j = elim (Option-cases (view pm j)) [
  | inl missing ↦
      ground (
        arith,
        cancel_each-view answers (keys pm.processes) pm j,
        elem-keys j pm.processes,
        missing,
      )
  | inr (info, there) ↦
      ground
        (arith, cancel_each-view answers (keys pm.processes) pm j, elem-keys j pm.processes, there)
]

update_pid-view :
    (id : String) (pid : ℕ) (pm : ProcessManager) (j : String)
    → view (update_pid id pid pm) j
      ≡ (if j == id then Option.map (with_pid pid) (view pm id) else view pm j)
unfolding update_pid
update_pid-view id pid pm j = elim (Option-cases (lookup id pm.processes)) [
  | inl missing ↦ rw (missing, update_pid) (changed-missing j id pm.processes missing)
  | inr (info, there) ↦ rw (there, update_pid) (lookup-insert j id (with_pid pid info) pm.processes)
]

update_pid-IsMap :
    (id : String) (pid : ℕ) (pm : ProcessManager) → IsMap pm → IsMap (update_pid id pid pm)
unfolding update_pid
update_pid-IsMap id pid pm h = elim (Option-cases (lookup id pm.processes)) [
  | inl missing ↦ rw (missing, update_pid) h
  | inr (info, there) ↦ rw (there, update_pid) (Nodup-insert id (with_pid pid info) pm.processes h)
]

keys-Lists : (pm : ProcessManager) → IsMap pm → Lists (keys pm.processes) (view pm)
keys-Lists pm h = (h, λ id. elem-keys id pm.processes)

length-keys : {V : Type 0} (m : List (String × V)) → length m ≡ length (keys m)
length-keys [] = refl
length-keys ((j, v) ∷ m) = ground (arith, length-keys m)

-- One call: the map changes as the contract says, the answer is one that it allows.
step-Implements :
    (answers : ℤ → Signal → Bool) (call : Call) (pm : ProcessManager)
    → IsMap pm
    → IsMap (step answers call pm).1
      × (view (step answers call pm).1 ≡ spec_step call (view pm))
      × Answers call (view pm) (step answers call pm).0
unfolding step register unregister
step-Implements answers (registers channel now id job_id pid worker_id) pm h =
    (Nodup-insert id _ pm.processes h, fun_ext λ j. lookup-insert j id _ pm.processes, refl)
step-Implements answers (updates_pid id pid) pm h =
    (update_pid-IsMap id pid pm h, fun_ext (update_pid-view id pid pm), refl)
step-Implements answers (unregisters id) pm h =
    (Nodup-erase id pm.processes h, fun_ext λ j. lookup-erase j id pm.processes, refl)
step-Implements answers (cancels id) pm h = (
  cancel-IsMap answers id pm h,
  fun_ext (cancel-view answers id pm),
  ap found (cancel-found answers id pm),
)
step-Implements answers cancels_all pm h =
    unfold cancel_all in
    (cancel_each-IsMap answers (keys pm.processes) pm h, fun_ext (cancel_all-view answers pm), refl)
step-Implements answers counts pm h =
    unfold running_count in
    (h, refl, (keys pm.processes, keys-Lists pm h, ap number (length-keys pm.processes)))
step-Implements answers lists pm h =
    unfold running_executions in (h, refl, (keys pm.processes, keys-Lists pm h, refl))
step-Implements answers (asks id) pm h = unfold get_info in (h, refl, refl)

-- A run of calls, one after the other, and its replies.
pub run : (ℤ → Signal → Bool) → List Call → ProcessManager → List Reply
unfolding step
run answers [] pm = []
run answers (call ∷ calls) pm = let r = step answers call pm in r.0 ∷ run answers calls r.1

-- A run that the contract allows from a map.
abbrev pub Allowed : List Call → Spec → List Reply → Type 0
Allowed [] f replies = replies ≡ []
Allowed (call ∷ calls) f [] = ⊥
Allowed (call ∷ calls) f (reply ∷ replies) =
    Answers call f reply × Allowed calls (spec_step call f) replies

-- Whatever is asked of a process manager whose table holds each execution once, one call after the
-- other and whichever system calls succeed, every reply is one that a map from executions to entries
-- gives after the same calls: registering sets an entry, an update of the process id changes one
-- that is there, removal and cancellation clear it, cancelling all clears the map, the count and the
-- list are of the executions in the map, each once.
pub run-Refines :
    (answers : ℤ → Signal → Bool) (calls : List Call) (pm : ProcessManager)
    → IsMap pm
    → Allowed calls (view pm) (run answers calls pm)
unfolding run
run-Refines answers [] pm h = refl
run-Refines answers (call ∷ calls) pm h =
    let (keeps, changes, answer) = step-Implements answers call pm h in
    (
      answer,
      subst (λ f. Allowed calls f (run answers calls (step answers call pm).1)) changes
          (run-Refines answers calls (step answers call pm).1 keeps),
    )
