-- ===== src/Model/Schedule.antt =====
-- JobSchedule of models/schedule.rs, and the request to change one.
use serverust_less.Prelude.{Bool, true, String, Option, none}
use serverust_less.Model.Clock.{Clock}

pub record JobSchedule : Type 0 where
  pub id : String
  pub job_id : String
  pub cron_expression : String
  pub next_run_at : Option String
  pub last_run_at : Option String
  pub enabled : Bool
  pub created_at : String
  pub updated_at : String

-- The fresh identifier is an argument.
abbrev pub new : Clock → String → String → String → Option String → JobSchedule
new clock id job_id cron_expression next_run_at = record {
  id = id;
  job_id = job_id;
  cron_expression = cron_expression;
  next_run_at = next_run_at;
  last_run_at = none;
  enabled = true;
  created_at = clock.rfc3339;
  updated_at = clock.rfc3339;
}

pub record UpdateScheduleRequest : Type 0 where
  pub cron_expression : Option String
  pub enabled : Option Bool
