-- ===== src/Samples/Schedules.antt =====
-- The theorems on schedules and the scheduler, at one schedule of the job.
use serverust_less.Prelude.{String, ◌≡◌, refl, none, some, true, [], ◌∷◌, length, ltb}
use serverust_less.Action.{ok}
use serverust_less.Model.Schedule.{JobSchedule, UpdateScheduleRequest}
use serverust_less.Model.QueueEntry
use serverust_less.Db.{System}
use serverust_less.Db.ScheduleRepository.{with_schedules}
use serverust_less.Queue.{item_of}
use serverust_less.Queue.Submit.{Submitted}
use serverust_less.Schedules.{Cron, valid}
use serverust_less.Scheduler.{trigger, tick}
use serverust_less.Scheduler.Due.{tick-SameDay}
use serverust_less.Scheduler.Trigger.{execution_for, next_rows, trigger-Submits}
use serverust_less.Samples.{noon, job, manager, waiting}

abbrev schedule : JobSchedule
schedule = record {
  id = "s1";
  job_id = "j1";
  cron_expression = "0 0 9 * * *";
  next_run_at = some "2026-01-01T09:00:00+00:00";
  last_run_at = none;
  enabled = true;
  created_at = "";
  updated_at = "";
}

abbrev scheduled : System
scheduled = with_schedules (schedule ∷ []) waiting

-- The expression has a next time, or none any more.
abbrev tomorrow : String → Cron
tomorrow cron = valid (some "2026-01-03T09:00:00+00:00")

abbrev ended : String → Cron
ended cron = valid none

abbrev ids : String → String × String
ids schedule_id = ("e7", "q7")

abbrev re_enable : UpdateScheduleRequest
re_enable = record { cron_expression = none; enabled = some true }

tick-SameDay_example : tick tomorrow manager noon ids scheduled ≡ (ok tt, scheduled)
tick-SameDay_example =
    tick-SameDay tomorrow manager noon ids "2026-01-01" "12:00:00" scheduled refl
      (("09:00:00+00:00", refl), tt)

-- A time of the day before.
abbrev overdue : JobSchedule
overdue = record schedule { next_run_at = some "2025-12-31T09:00:00+00:00" }

abbrev late : System
late = with_schedules (overdue ∷ []) waiting

trigger-Submits_example :
    Submitted late
      (trigger tomorrow manager noon ids overdue late).1
      (execution_for noon ids overdue)
      job
      (QueueEntry.new noon "q7" "e7" "j1" job.priority)
      (item_of (execution_for noon ids overdue) job job.priority)
      (ltb (length late.memory_queue) manager.max_memory_size)
    × ((trigger tomorrow manager noon ids overdue late).1.job_schedules
        ≡ next_rows noon overdue (tomorrow overdue.cron_expression) late.job_schedules)
trigger-Submits_example =
    trigger-Submits tomorrow manager noon ids overdue late {j = job} refl refl refl refl
