-- ===== src/Schedules/Invariant.antt =====
-- What the schedule service, the scheduler and the deletion of jobs keep of the table of schedules.
use serverust_less.Prelude.{◌≡◌, ◌⊎◌, Bool, String, List, filter}
use serverust_less.Model.Clock.{Clock}
use serverust_less.Model.Schedule.{JobSchedule, UpdateScheduleRequest}
use serverust_less.Db.{System}
use serverust_less.Db.JobRepository
use serverust_less.Db.ScheduleRepository.{mark_triggered}
use serverust_less.Schedules.{
  Cron, create_schedule, update_schedule, toggle_schedule, delete_schedule,
}

-- What changes the table: requests to the service, a trigger of the scheduler, and a job's deletion.
pub data Event : Type 0 where
  creates : (String → Cron) → Clock → String → String → String → Event
  updates : (String → Cron) → Clock → String → UpdateScheduleRequest → Event
  toggles : (String → Cron) → Clock → String → Event
  deletes : String → Event
  triggers : String → String → String → String → Event
  job_deletes : String → Event

unfoldable pub apply : Event → System → System
unfolding create_schedule update_schedule toggle_schedule delete_schedule mark_triggered
apply (creates upcoming clock id job_id cron) s =
    (create_schedule upcoming clock id job_id cron s).1
apply (updates upcoming clock job_id req) s = (update_schedule upcoming clock job_id req s).1
apply (toggles upcoming clock job_id) s = (toggle_schedule upcoming clock job_id s).1
apply (deletes job_id) s = (delete_schedule job_id s).1
apply (triggers datetime id last next) s = (mark_triggered datetime id last next s).1
apply (job_deletes id) s = (JobRepository.delete id s).1

-- A deletion leaves the rows, or filters them.
abbrev Filtered : List JobSchedule → List JobSchedule → Type 0
Filtered rows rows' = (rows' ≡ rows) ⊎ ((p : JobSchedule → Bool) × (rows' ≡ filter p rows))
