-- ===== src/Scheduler/Trigger.antt =====
-- One schedule that is due: what its trigger leaves behind.
use serverust_less.Prelude.{
  ◌≡◌, sym, subst, ap, ◌∙◌, true, false, String, none, some, List, map, find, any, length, ltb,
  arith, eq_refl, any_of_find,
}
use serverust_less.Model.Clock.{Clock}
use serverust_less.Model.Job.{Job}
use serverust_less.Model.Execution.{Execution}
use serverust_less.Model.Execution
use serverust_less.Model.QueueEntry.{QueueEntry}
use serverust_less.Model.QueueEntry
use serverust_less.Model.Schedule.{JobSchedule}
use serverust_less.Db.{System}
use serverust_less.Db.JobRepository.{job_named, get_by_id}
use serverust_less.Db.ExecutionRepository.{execution_named}
use serverust_less.Db.ScheduleRepository.{triggered, with_schedules}
use serverust_less.Queue.{QueueManager, item_of}
use serverust_less.Queue.Submit.{
  same_keys, any-last, enqueue-run, submitted, Submitted, created-Submitted,
}
use serverust_less.Executions.Create.{created, enable, create_execution-run, job-id}
use serverust_less.Schedules.{Cron, valid}
use serverust_less.Scheduler.{reschedule, trigger}

abbrev pub execution_for : Clock → (String → String × String) → JobSchedule → Execution
execution_for clock ids x = Execution.new clock (ids x.id).0 x.job_id none

-- The schedules after the trigger: the one triggered has run now and is due next at the time that
-- the expression gives; if it gives none, then nothing changes.
abbrev pub next_rows : Clock → JobSchedule → Cron → List JobSchedule → List JobSchedule
next_rows clock x (valid (some next)) rows =
    map (triggered clock.datetime x.id clock.rfc3339 next) rows
next_rows clock x _ rows = rows

module _ (upcoming : String → Cron) (qm : QueueManager) (clock : Clock)
    (ids : String → String × String) (x : JobSchedule) (s : System) {j : Job}
    (found : find (job_named x.job_id) s.jobs ≡ some j) (enabled : j.enabled ≡ true)
    (fresh : any (execution_named (ids x.id).0) s.executions ≡ false)
    (unused : any (same_keys (ids x.id).1 (ids x.id).0) s.job_queue ≡ false) where
  trigger-run :
      trigger upcoming qm clock ids x s
      ≡ reschedule upcoming qm clock ids x (
          submitted qm clock
            (ids x.id).1
            (item_of (execution_for clock ids x) j j.priority)
            (created clock (ids x.id).0 x.job_id none j s))
  unfolding trigger get_by_id
  trigger-run = ground (
    arith,
    create_execution-run clock (ids x.id).0 x.job_id none s found fresh,
    enqueue-run qm clock (ids x.id).1 (item_of (execution_for clock ids x) j j.priority)
        (created clock (ids x.id).0 x.job_id none j s) unused
        (any-last (execution_named (ids x.id).0) s.executions (execution_for clock ids x)
          (eq_refl (ids x.id).0))
        (any_of_find (job_named j.id) (created clock (ids x.id).0 x.job_id none j s).jobs (
          let e : find (job_named j.id) (created clock (ids x.id).0 x.job_id none j s).jobs
              ≡ some j =
            ground (
              arith,
              ap (λ t. find (job_named t) s.jobs) (job-id x.job_id s.jobs found),
              found,
              enabled,
            ) in
          e)),
  )

  reschedule-rows :
      (t : System)
      → (reschedule upcoming qm clock ids x t).1
        ≡ with_schedules (next_rows clock x (upcoming x.cron_expression) t.job_schedules) t
  unfolding reschedule
  reschedule-rows t = ground arith

  abbrev after : System
  after =
      submitted qm clock (ids x.id).1 (item_of (execution_for clock ids x) j j.priority)
        (created clock (ids x.id).0 x.job_id none j s)

  trigger-rows :
      (trigger upcoming qm clock ids x s).1
      ≡ with_schedules (next_rows clock x (upcoming x.cron_expression) s.job_schedules) after
  trigger-rows = ap (λ r. r.1) trigger-run ∙ reschedule-rows after

  submits :
      Submitted s after
        (execution_for clock ids x)
        j
        (QueueEntry.new clock (ids x.id).1 (ids x.id).0 x.job_id j.priority)
        (item_of (execution_for clock ids x) j j.priority)
        (ltb (length s.memory_queue) qm.max_memory_size)
  submits =
      subst
        (λ k.
          Submitted s
            (submitted qm clock (ids x.id).1 (item_of (execution_for clock ids x) k j.priority)
              (created clock (ids x.id).0 x.job_id none j s))
            (execution_for clock ids x) k
            (QueueEntry.new clock (ids x.id).1 (ids x.id).0 x.job_id j.priority)
            (item_of (execution_for clock ids x) k j.priority)
            (ltb (length s.memory_queue) qm.max_memory_size))
        (let same : enable clock j ≡ j = ground (arith, enabled) in same)
        (created-Submitted qm clock (ids x.id).0 (ids x.id).1 x.job_id none j.priority s found fresh
          unused)

  -- If a schedule's job exists and is enabled, and the fresh ids are unused, then triggering it
  -- submits one execution of the job: a pending execution, a queue entry with the job's priority,
  -- and the item in memory if there is room. If the cron expression has a next time, then the
  -- schedule has run now and is due at that time; otherwise no schedule changes.
  pub trigger-Submits :
      Submitted s
        (trigger upcoming qm clock ids x s).1
        (execution_for clock ids x)
        j
        (QueueEntry.new clock (ids x.id).1 (ids x.id).0 x.job_id j.priority)
        (item_of (execution_for clock ids x) j j.priority)
        (ltb (length s.memory_queue) qm.max_memory_size)
      × ((trigger upcoming qm clock ids x s).1.job_schedules
          ≡ next_rows clock x (upcoming x.cron_expression) s.job_schedules)
  trigger-Submits = (
    subst
        (λ t.
          Submitted s t (execution_for clock ids x) j
            (QueueEntry.new clock (ids x.id).1 (ids x.id).0 x.job_id j.priority)
            (item_of (execution_for clock ids x) j j.priority)
            (ltb (length s.memory_queue) qm.max_memory_size))
        (sym trigger-rows)
        (record {
          execution = submits.execution;
          job = submits.job;
          entry = submits.entry;
          enabled = submits.enabled;
          memory = submits.memory;
        }),
    ap (λ t. t.job_schedules) trigger-rows,
  )
