-- ===== src/Queue/Submit.antt =====
-- QueueManager::enqueue of an execution that was just created.
use serverust_less.Prelude.{
  ◌≡◌, refl, Bool, true, false, ◌||◌, String, List, [], ◌∷◌, ◌++◌, find, any, length, ltb, arith,
  if◌then◌else◌, ◌==◌, some, ℤ, Option, eq_refl, find-append_missing,
}
use serverust_less.Action.{ok}
use serverust_less.Model.Clock.{Clock}
use serverust_less.Model.Job.{Job}
use serverust_less.Model.Execution.{Execution}
use serverust_less.Model.QueueEntry.{QueueEntry}
use serverust_less.Model.QueueEntry
use serverust_less.Model.QueueItem.{QueueItem}
use serverust_less.Db.{System}
use serverust_less.Db.JobRepository.{job_named}
use serverust_less.Db.ExecutionRepository.{execution_named}
use serverust_less.Db.QueueRepository.{entry_of}
use serverust_less.Queue.{QueueManager, enqueue, item_of}
use serverust_less.Executions.Create.{created, enable, find-enable, job-id}
use serverust_less.Model.Execution

abbrev pub same_keys : String → String → QueueEntry → Bool
same_keys entry_id execution_id e = e.id == entry_id || e.execution_id == execution_id

pub entries-missing :
    (entry_id id : String) (rows : List QueueEntry)
    → any (same_keys entry_id id) rows ≡ false
    → any (entry_of id) rows ≡ false
entries-missing entry_id id [] h = refl
entries-missing entry_id id (e ∷ es) h = ground (arith, entries-missing entry_id id es)

pub any-last :
    {A : Type 0} (p : A → Bool) (xs : List A) (x : A) → p x ≡ true → any p (xs ++ x ∷ []) ≡ true
any-last p [] x h = ground arith
any-last p (y ∷ ys) x h = ground (arith, any-last p ys x h)

-- What a submitted execution leaves behind.
pub record Submitted (s t : System) (x : Execution) (j : Job) (e : QueueEntry) (item : QueueItem)
    (room : Bool) : Type 0 where
  pub execution : find (execution_named x.id) t.executions ≡ some x
  pub job : find (job_named x.job_id) t.jobs ≡ some j
  pub entry : find (entry_of x.id) t.job_queue ≡ some e
  pub enabled : j.enabled ≡ true
  pub memory : t.memory_queue ≡ (if room then item ∷ s.memory_queue else s.memory_queue)

pub enqueue-run :
    (qm : QueueManager) (clock : Clock) (entry_id : String) (item : QueueItem) (s : System)
    → any (same_keys entry_id item.execution_id) s.job_queue ≡ false
    → any (execution_named item.execution_id) s.executions ≡ true
    → any (job_named item.job_id) s.jobs ≡ true
    → enqueue qm clock entry_id item s ≡ (
      ok tt,
      record s {
        db = record s.db {
          job_queue =
              s.job_queue
              ++ QueueEntry.new clock entry_id item.execution_id item.job_id item.priority ∷ [];
        };
        memory_queue =
            if ltb (length s.memory_queue) qm.max_memory_size
            then item ∷ s.memory_queue
            else s.memory_queue;
      },
    )
unfolding enqueue
enqueue-run qm clock entry_id item s fresh x j = ground arith

-- The state after the entry is created and the item pushed.
abbrev pub submitted : QueueManager → Clock → String → QueueItem → System → System
submitted qm clock entry_id item t = record t {
  db = record t.db {
    job_queue =
        t.job_queue
        ++ QueueEntry.new clock entry_id item.execution_id item.job_id item.priority ∷ [];
  };
  memory_queue =
      if ltb (length t.memory_queue) qm.max_memory_size
      then item ∷ t.memory_queue
      else t.memory_queue;
}

-- An execution created for a job that exists, with unused ids, and then submitted.
module _ (qm : QueueManager) (clock : Clock) (id entry_id job_id : String) (input : Option String)
    (priority : ℤ) (s : System) {j : Job} (found : find (job_named job_id) s.jobs ≡ some j)
    (fresh : any (execution_named id) s.executions ≡ false)
    (unused : any (same_keys entry_id id) s.job_queue ≡ false) where
  abbrev pub new_execution : Execution
  new_execution = Execution.new clock id job_id input

  abbrev pub new_item : QueueItem
  new_item = item_of new_execution (enable clock j) priority

  pub created-Submitted :
      Submitted s
        (submitted qm clock entry_id new_item (created clock id job_id input j s))
        new_execution
        (enable clock j)
        (QueueEntry.new clock entry_id id job_id priority)
        new_item
        (ltb (length s.memory_queue) qm.max_memory_size)
  created-Submitted = record {
    execution = ground (
      arith,
      find-append_missing (execution_named id) s.executions (new_execution ∷ []) fresh,
      eq_refl id,
    );
    job = find-enable clock job_id s.jobs found;
    enabled = ground arith;
    entry = ground (
      arith,
      find-append_missing (entry_of id) s.job_queue
          (QueueEntry.new clock entry_id id (enable clock j).id priority ∷ [])
          (entries-missing entry_id id s.job_queue unused),
      eq_refl id,
      job-id job_id s.jobs found,
    );
    memory = refl;
  }
