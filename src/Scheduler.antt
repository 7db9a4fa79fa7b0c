-- ===== src/Scheduler.antt =====
-- scheduler/mod.rs: SchedulerRunner::tick, over the schedules that are due. `upcoming` is the `cron`
-- crate, as in Schedules; `ids` gives the fresh ids of the execution and its queue entry for the id
-- of a schedule. A failure for one schedule is logged, and the loop goes on.
pub mod Due
pub mod Trigger
use serverust_less.Prelude.{not, String, none, some, if◌then◌else◌}
use serverust_less.Action.{Action, pure, try_or, ◌>>=◌, for_each}
use serverust_less.Model.Clock.{Clock}
use serverust_less.Model.Schedule.{JobSchedule}
use serverust_less.Db.{System}
use serverust_less.Db.JobRepository
use serverust_less.Db.ScheduleRepository
use serverust_less.Queue.{QueueManager, enqueue, item_of}
use serverust_less.Executions.{create_execution}
use serverust_less.Schedules.{Cron, valid, invalid}

module _ (upcoming : String → Cron) (qm : QueueManager) (clock : Clock)
    (ids : String → String × String) where
  -- Without a next time the schedule is left as it is.
  unfoldable pub reschedule : JobSchedule → Action System Unit
  unfolding ScheduleRepository.mark_triggered
  reschedule schedule = elim (upcoming schedule.cron_expression) [
    | invalid e ↦ pure tt
    | valid none ↦ pure tt
    | valid (some next) ↦
        try_or (ScheduleRepository.mark_triggered clock.datetime schedule.id clock.rfc3339 next)
          (λ _. pure tt) (λ _. pure tt)
  ]

  unfoldable pub trigger : JobSchedule → Action System Unit
  unfolding JobRepository.get_by_id create_execution enqueue reschedule
  trigger schedule =
      try_or (JobRepository.get_by_id schedule.job_id)
        (λ job.
          if not job.enabled
          then pure tt
          else try_or (create_execution clock (ids schedule.id).0 schedule.job_id none)
              (λ execution.
                try_or (enqueue qm clock (ids schedule.id).1 (item_of execution job job.priority))
                  (λ _. reschedule schedule) (λ _. pure tt))
              (λ _. pure tt))
        (λ _. pure tt)

  unfoldable pub tick : Action System Unit
  unfolding ScheduleRepository.get_due_schedules trigger for_each
  tick = do due ← ScheduleRepository.get_due_schedules clock.datetime; for_each trigger due
